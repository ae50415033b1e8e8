-- ===== src/Willow/Upload/Base64.antt =====
-- base64 written by integrations/willow-drop/encoding.ts and read by upload.ts.
use atomic_plugins.Prelude.{
  ℕ, suc, ◌+◌, ◌*◌, ◌/◌, ◌%◌, ◌≡◌, refl, sym, ap, ◌∙◌, subst, Bool, true, false, not, ◌||◌, Option,
  none, some, [], ◌∷◌, ◌++◌, length, keep, ◌==◌, if◌then◌else◌, arith, All, All-append, All_weaken,
}
use atomic_plugins.Willow.Reader.{Bytes, IsByte}
use atomic_plugins.Willow.Text.{Text, sign, base64}
use atomic_plugins.Willow.Upload.{is_space, is_sign, signs, is_padding, decode_signs, base64_bytes}
use atomic_plugins.Willow.Upload.Signs.{
  IsSign, sign-IsSign, next_value, after_sign, first_byte, second_byte, four_signs,
}

none_left : (bits value : ℕ) → decode_signs bits value [] ≡ []
unfolding decode_signs
none_left bits value = refl

-- The signs of a text that `base64` makes, and the `=` after them.
signs_of : Bytes → Text
signs_of [] = []
signs_of (a ∷ []) = sign (a * 65_536 / 262_144) ∷ sign (a * 65_536 / 4_096 % 64) ∷ []
signs_of (a ∷ b ∷ []) =
    let n = a * 65_536 + b * 256 in
    sign (n / 262_144) ∷ sign (n / 4_096 % 64) ∷ sign (n / 64 % 64) ∷ []
signs_of (a ∷ b ∷ c ∷ bytes) =
    let n = a * 65_536 + b * 256 + c in
    sign (n / 262_144) ∷ sign (n / 4_096 % 64) ∷ sign (n / 64 % 64) ∷ sign (n % 64) ∷ signs_of bytes

padding : Bytes → Text
padding [] = []
padding (a ∷ []) = 61 ∷ 61 ∷ []
padding (a ∷ b ∷ []) = 61 ∷ []
padding (a ∷ b ∷ c ∷ bytes) = padding bytes

base64-signs_of : (bytes : Bytes) → base64 bytes ≡ signs_of bytes ++ padding bytes
unfolding base64 signs_of padding
base64-signs_of [] = refl
base64-signs_of (a ∷ []) = refl
base64-signs_of (a ∷ b ∷ []) = refl
base64-signs_of (a ∷ b ∷ c ∷ bytes) =
    let n = a * 65_536 + b * 256 + c in
    ap (λ t. sign (n / 262_144) ∷ sign (n / 4_096 % 64) ∷ sign (n / 64 % 64) ∷ sign (n % 64) ∷ t)
      (base64-signs_of bytes)

decode_signs-signs_of :
    (value : ℕ) (bytes : Bytes) → All IsByte bytes → decode_signs 0 value (signs_of bytes) ≡ bytes
unfolding signs_of
decode_signs-signs_of value [] h = none_left 0 value
decode_signs-signs_of value (a ∷ []) (ha, h) =
    let n = a * 65_536 in
    let v1 = next_value value (n / 262_144) in
    after_sign 0 value (n / 262_144) (sign (n / 4_096 % 64) ∷ []) (omega arith)
    ∙ after_sign 6 v1 (n / 4_096 % 64) [] (omega arith)
    ∙ ap (λ x. x ∷ decode_signs 4 (next_value v1 (n / 4_096 % 64)) [])
        (first_byte value (n / 262_144) (n / 4_096 % 64) (omega arith) (omega arith) ∙ omega arith)
    ∙ ap (λ t. a ∷ t) (none_left 4 (next_value v1 (n / 4_096 % 64)))
decode_signs-signs_of value (a ∷ b ∷ []) (ha, (hb, h)) =
    let n = a * 65_536 + b * 256 in
    let v1 = next_value value (n / 262_144) in
    let v2 = next_value v1 (n / 4_096 % 64) in
    let v3 = next_value v2 (n / 64 % 64) in
    after_sign 0 value (n / 262_144) (sign (n / 4_096 % 64) ∷ sign (n / 64 % 64) ∷ []) (omega arith)
    ∙ after_sign 6 v1 (n / 4_096 % 64) (sign (n / 64 % 64) ∷ []) (omega arith)
    ∙ ap (λ x. x ∷ decode_signs 4 v2 (sign (n / 64 % 64) ∷ []))
        (first_byte value (n / 262_144) (n / 4_096 % 64) (omega arith) (omega arith) ∙ omega arith)
    ∙ ap (λ t. a ∷ t) (after_sign 4 v2 (n / 64 % 64) [] (omega arith))
    ∙ ap (λ x. a ∷ x ∷ decode_signs 2 v3 [])
        (second_byte v1 (n / 4_096 % 64) (n / 64 % 64) (omega arith) (omega arith) ∙ omega arith)
    ∙ ap (λ t. a ∷ b ∷ t) (none_left 2 v3)
decode_signs-signs_of value (a ∷ b ∷ c ∷ bytes) (ha, (hb, (hc, h))) =
    let n = a * 65_536 + b * 256 + c in
    let i = n / 262_144 in
    let j = n / 4_096 % 64 in
    let k = n / 64 % 64 in
    let l = n % 64 in
    let (after, read) =
      four_signs value i j k l (signs_of bytes) (omega arith) (omega arith) (omega arith)
        (omega arith) in
    let first : i * 4 + j / 16 ≡ a = omega arith in
    let second : j % 16 * 16 + k / 4 ≡ b = omega arith in
    let third : k % 4 * 64 + l ≡ c = omega arith in
    read
    ∙ ap (λ x. x ∷ (j % 16 * 16 + k / 4) ∷ (k % 4 * 64 + l) ∷ decode_signs 0 after (signs_of bytes))
        first
    ∙ ap (λ x. a ∷ x ∷ (k % 4 * 64 + l) ∷ decode_signs 0 after (signs_of bytes)) second
    ∙ ap (λ x. a ∷ b ∷ x ∷ decode_signs 0 after (signs_of bytes)) third
    ∙ ap (λ t. a ∷ b ∷ c ∷ t) (decode_signs-signs_of after bytes h)

signs_of-IsSign : (bytes : Bytes) → All IsByte bytes → All IsSign (signs_of bytes)
unfolding signs_of
signs_of-IsSign [] h = tt
signs_of-IsSign (a ∷ []) (ha, h) = (sign-IsSign _ (omega arith), (sign-IsSign _ (omega arith), tt))
signs_of-IsSign (a ∷ b ∷ []) (ha, (hb, h)) =
    (sign-IsSign _ (omega arith), (sign-IsSign _ (omega arith), (sign-IsSign _ (omega arith), tt)))
signs_of-IsSign (a ∷ b ∷ c ∷ bytes) (ha, (hb, (hc, h))) = (
  sign-IsSign _ (omega arith),
  (
    sign-IsSign _ (omega arith),
    (sign-IsSign _ (omega arith), (sign-IsSign _ (omega arith), signs_of-IsSign bytes h)),
  ),
)

IsKept : ℕ → Type 0
IsKept c = is_space c ≡ false

keep_all : (text : Text) → All IsKept text → keep (λ c. not (is_space c)) text ≡ text
unfolding IsKept
keep_all [] h = refl
keep_all (c ∷ text) (e, h) =
    ap
      (λ b.
        if not b then c ∷ keep (λ x. not (is_space x)) text else keep (λ x. not (is_space x)) text)
      e
    ∙ ap (λ t. c ∷ t) (keep_all text h)

padding-IsKept : (bytes : Bytes) → All IsKept (padding bytes)
unfolding padding IsKept is_space
padding-IsKept [] = tt
padding-IsKept (a ∷ []) = (refl, (refl, tt))
padding-IsKept (a ∷ b ∷ []) = (refl, tt)
padding-IsKept (a ∷ b ∷ c ∷ bytes) = padding-IsKept bytes

padding-is_padding : (bytes : Bytes) → is_padding (padding bytes) ≡ true
unfolding padding is_padding
padding-is_padding [] = refl
padding-is_padding (a ∷ []) = refl
padding-is_padding (a ∷ b ∷ []) = refl
padding-is_padding (a ∷ b ∷ c ∷ bytes) = padding-is_padding bytes

signs-padding : (bytes : Bytes) → signs (padding bytes) ≡ ([], padding bytes)
unfolding padding signs is_sign
signs-padding [] = refl
signs-padding (a ∷ []) = refl
signs-padding (a ∷ b ∷ []) = refl
signs-padding (a ∷ b ∷ c ∷ bytes) = signs-padding bytes

abbrev pair_if : Bool → Text × Text → Text × Text → Text × Text
pair_if true p q = p
pair_if false p q = q

signs-append :
    (text rest : Text)
    → All IsSign text
    → signs rest ≡ ([], rest)
    → signs (text ++ rest) ≡ (text, rest)
unfolding signs
signs-append [] rest h e = e
signs-append (c ∷ text) rest ((s, k), h) e =
    ap
      (λ b.
        pair_if b (c ∷ (signs (text ++ rest)).0, (signs (text ++ rest)).1) ([], c ∷ text ++ rest))
      s
    ∙ ap (λ p. (c ∷ p.0, p.1)) (signs-append text rest h e)

length-base64 : (bytes : Bytes) → (m : ℕ) × (length (base64 bytes) ≡ 4 * m)
unfolding base64
length-base64 [] = (0, refl)
length-base64 (a ∷ []) = (1, refl)
length-base64 (a ∷ b ∷ []) = (1, refl)
length-base64 (a ∷ b ∷ c ∷ bytes) = let (m, e) = length-base64 bytes in (suc m, omega (arith, e))

-- The text that `base64` writes is read back as the bytes.
pub base64_bytes-base64 :
    (bytes : Bytes) → All IsByte bytes → base64_bytes (base64 bytes) ≡ some bytes
unfolding base64_bytes IsKept
base64_bytes-base64 bytes h =
    let text = base64-signs_of bytes in
    let kept : keep (λ c. not (is_space c)) (base64 bytes) ≡ base64 bytes =
      keep_all (base64 bytes) (
        subst (All IsKept) (sym text) (
          All-append IsKept (signs_of bytes) (padding bytes)
            (All_weaken IsSign IsKept (λ c s. kept_sign c s) (signs_of bytes)
              (signs_of-IsSign bytes h))
            (padding-IsKept bytes))) in
    let parts : signs (base64 bytes) ≡ (signs_of bytes, padding bytes) =
      ap signs text
      ∙ signs-append (signs_of bytes) (padding bytes) (signs_of-IsSign bytes h)
          (signs-padding bytes) in
    let (m, size) = length-base64 bytes in
    let whole : (length (base64 bytes) % 4 == 1) ≡ false = ground (arith, size) in
    ap (λ clean. read_clean clean) kept
    ∙ ap
        (λ p.
          if not (is_padding p.1) || length (base64 bytes) % 4 == 1
          then none
          else some (decode_signs 0 0 p.0))
        parts
    ∙ ap
        (λ b.
          if not b || length (base64 bytes) % 4 == 1
          then none
          else some (decode_signs 0 0 (signs_of bytes)))
        (padding-is_padding bytes)
    ∙ ap (λ b. if b then none else some (decode_signs 0 0 (signs_of bytes))) whole
    ∙ ap some (decode_signs-signs_of 0 bytes h)
  where
    read_clean : Text → Option Bytes
    read_clean clean =
        if not (is_padding (signs clean).1) || length clean % 4 == 1
        then none
        else some (decode_signs 0 0 (signs clean).0)

    kept_sign : (c : ℕ) → IsSign c → IsKept c
    kept_sign c s = s.1
