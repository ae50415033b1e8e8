-- ===== src/Willow/Upload/Signs.antt =====
-- The signs of base64 in integrations/willow-drop, and the bytes of four of them.
use atomic_plugins.Prelude.{
  ℕ, zero, suc, ◌+◌, ◌-◌, ◌*◌, ◌/◌, ◌%◌, ◌^◌, ◌<◌, ◌≡◌, inl, inr, refl, sym, ap, ◌∙◌, Bool, true,
  false, not, ◌&&◌, Option, none, some, ◌∷◌, leb, ◌==◌, arith, Bool-cases,
}
use atomic_plugins.Willow.Text.{Text, alphabet, sign, index_of}
use atomic_plugins.Willow.Upload.{is_space, is_sign, decode_signs}

-- A test of every number below a bound.
unfoldable pub every_below : (ℕ → Bool) → ℕ → Bool
every_below test zero = true
every_below test (suc n) = test n && every_below test n

pub every_below-true :
    (test : ℕ → Bool) (n k : ℕ) → every_below test n ≡ true → k < n → test k ≡ true
unfolding every_below
every_below-true test zero k h below = absurd (omega arith)
every_below-true test (suc n) k h below = elim (Bool-cases (k == n)) [
  | inl e ↦
      let same : n ≡ k = ground arith in
      ap test (sym same) ∙ (both (test n) (every_below test n) h).0
  | inr e ↦ every_below-true test n k (both (test n) (every_below test n) h).1 (ground arith)
]
  where
    both : (a b : Bool) → (a && b) ≡ true → (a ≡ true) × (b ≡ true)
    both true b h = (refl, h)
    both false b h = cc

-- The number that stands at the place of a sign.
abbrev number : Option ℕ → ℕ
number none = 0
number (some i) = i

number-sign : (k : ℕ) → k < 64 → number (index_of (sign k) alphabet) ≡ k
unfolding every_below index_of sign alphabet
number-sign k h =
    let each : (number (index_of (sign k) alphabet) == k) ≡ true =
      every_below-true (λ i. number (index_of (sign i) alphabet) == i) 64 k refl h in
    ground arith

-- A sign is no white space, and the pattern of base64 has it.
abbrev pub IsSign : ℕ → Type 0
IsSign c = (is_sign c ≡ true) × (is_space c ≡ false)

pub sign-IsSign : (k : ℕ) → k < 64 → IsSign (sign k)
unfolding every_below sign alphabet is_sign is_space
sign-IsSign k h = (
  every_below-true (λ i. is_sign (sign i)) 64 k refl h,
  not_true (is_space (sign k)) (every_below-true (λ i. not (is_space (sign i))) 64 k refl h),
)
  where
    not_true : (b : Bool) → not b ≡ true → b ≡ false
    not_true false e = refl
    not_true true e = cc

-- The variable `value` after a sign of number `k`.
abbrev pub next_value : ℕ → ℕ → ℕ
next_value value k = value * 64 % 4_294_967_296 + k

pub after_sign :
    (bits value k : ℕ) (text : Text)
    → k < 64
    → decode_signs bits value (sign k ∷ text) ≡ elim (leb 8 (bits + 6)) [
      | true ↦
          next_value value k / 2 ^ (bits + 6 - 8) % 256
          ∷ decode_signs (bits + 6 - 8) (next_value value k) text
      | false ↦ decode_signs (bits + 6) (next_value value k) text
    ]
unfolding decode_signs
after_sign bits value k text h =
    ap
      (λ n. elim (leb 8 (bits + 6)) [
        | true ↦
            next_value value n / 2 ^ (bits + 6 - 8) % 256
            ∷ decode_signs (bits + 6 - 8) (next_value value n) text
        | false ↦ decode_signs (bits + 6) (next_value value n) text
      ])
      (number-sign k h)

low_six : (value k : ℕ) → k < 64 → next_value value k % 64 ≡ k
low_six value k h = omega arith

low_twelve :
    (value j k : ℕ) → j < 64 → k < 64 → next_value (next_value value j) k % 4_096 ≡ j * 64 + k
low_twelve value j k g h = let low = low_six value j g in omega arith

pub first_byte :
    (value i j : ℕ)
    → i < 64
    → j < 64
    → next_value (next_value value i) j / 16 % 256 ≡ i * 4 + j / 16
first_byte value i j g h = let low = low_twelve value i j g h in omega (arith, low)

pub second_byte :
    (value j k : ℕ)
    → j < 64
    → k < 64
    → next_value (next_value value j) k / 4 % 256 ≡ j % 16 * 16 + k / 4
second_byte value j k g h = let low = low_twelve value j k g h in omega (arith, low)

third_byte :
    (value k l : ℕ) → k < 64 → l < 64 → next_value (next_value value k) l / 1 % 256 ≡ k % 4 * 64 + l
third_byte value k l g h = let low = low_twelve value k l g h in omega (arith, low)

-- The bytes of four signs, whatever the variable held before.
pub four_signs :
    (value i j k l : ℕ) (text : Text)
    → i < 64
    → j < 64
    → k < 64
    → l < 64
    → (after : ℕ) × (decode_signs 0 value (sign i ∷ sign j ∷ sign k ∷ sign l ∷ text)
        ≡ (i * 4 + j / 16) ∷ (j % 16 * 16 + k / 4) ∷ (k % 4 * 64 + l) ∷ decode_signs 0 after text)
four_signs value i j k l text hi hj hk hl =
    let v1 = next_value value i in
    let v2 = next_value v1 j in
    let v3 = next_value v2 k in
    let v4 = next_value v3 l in
    (
      v4,
      after_sign 0 value i (sign j ∷ sign k ∷ sign l ∷ text) hi
          ∙ after_sign 6 v1 j (sign k ∷ sign l ∷ text) hj
          ∙ ap (λ x. x ∷ decode_signs 4 v2 (sign k ∷ sign l ∷ text)) (first_byte value i j hi hj)
          ∙ ap (λ t. (i * 4 + j / 16) ∷ t) (after_sign 4 v2 k (sign l ∷ text) hk)
          ∙ ap (λ x. (i * 4 + j / 16) ∷ x ∷ decode_signs 2 v3 (sign l ∷ text))
              (second_byte v1 j k hj hk)
          ∙ ap (λ t. (i * 4 + j / 16) ∷ (j % 16 * 16 + k / 4) ∷ t) (after_sign 2 v3 l text hl)
          ∙ ap (λ x. (i * 4 + j / 16) ∷ (j % 16 * 16 + k / 4) ∷ x ∷ decode_signs 0 v4 text)
              (third_byte v2 k l hk hl),
    )
