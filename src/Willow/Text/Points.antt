-- ===== src/Willow/Text/Points.antt =====
-- The bytes that integrations/willow-drop writes for one code point.
use atomic_plugins.Prelude.{
  ℕ, ◌+◌, ◌*◌, ◌/◌, ◌%◌, ◌<◌, ◌≤◌, ◌≡◌, inl, inr, refl, true, false, [], ◌∷◌, length, ltb, arith,
  Bool-cases,
}
use atomic_plugins.Willow.Text.{point_bytes}

pub point_bytes-one : (code : ℕ) → code < 0x80 → point_bytes code ≡ code ∷ []
unfolding point_bytes
point_bytes-one code h = let a : ltb code 0x80 ≡ true = ground arith in rw a refl

pub point_bytes-two :
    (code b c : ℕ)
    → b < 32
    → c < 64
    → 0x80 ≤ code
    → code ≡ b * 64 + c
    → point_bytes code ≡ (0xC0 + b) ∷ (0x80 + c) ∷ []
unfolding point_bytes
point_bytes-two code b c hb hc min h =
    let x : ltb code 0x80 ≡ false = ground arith in
    let y : ltb code 0x800 ≡ true = ground arith in
    let high : code / 64 ≡ b = omega arith in
    let low : code % 64 ≡ c = omega arith in rw (x, y, high, low) refl

pub point_bytes-three :
    (code b c d : ℕ)
    → b < 16
    → c < 64
    → d < 64
    → 0x800 ≤ code
    → code ≡ (b * 64 + c) * 64 + d
    → point_bytes code ≡ (0xE0 + b) ∷ (0x80 + c) ∷ (0x80 + d) ∷ []
unfolding point_bytes
point_bytes-three code b c d hb hc hd min h =
    let x : ltb code 0x80 ≡ false = ground arith in
    let y : ltb code 0x800 ≡ false = ground arith in
    let z : ltb code 0x10000 ≡ true = ground arith in
    let high : code / 4_096 ≡ b = omega arith in
    let middle : code / 64 % 64 ≡ c = omega arith in
    let low : code % 64 ≡ d = omega arith in rw (x, y, z, high, middle, low) refl

pub point_bytes-four :
    (code b c d e : ℕ)
    → b < 8
    → c < 64
    → d < 64
    → e < 64
    → 0x10000 ≤ code
    → code ≡ ((b * 64 + c) * 64 + d) * 64 + e
    → point_bytes code ≡ (0xF0 + b) ∷ (0x80 + c) ∷ (0x80 + d) ∷ (0x80 + e) ∷ []
unfolding point_bytes
point_bytes-four code b c d e hb hc hd he min h =
    let x : ltb code 0x80 ≡ false = ground arith in
    let y : ltb code 0x800 ≡ false = ground arith in
    let z : ltb code 0x10000 ≡ false = ground arith in
    let first : code / 262_144 ≡ b = omega arith in
    let second : code / 4_096 % 64 ≡ c = omega arith in
    let third : code / 64 % 64 ≡ d = omega arith in
    let low : code % 64 ≡ e = omega arith in rw (x, y, z, first, second, third, low) refl

pub length-point_bytes : (code : ℕ) → 1 ≤ length (point_bytes code)
unfolding point_bytes
length-point_bytes code = elim (Bool-cases (ltb code 0x80)) [
  | inl a ↦ rw a (omega arith)
  | inr a ↦ elim (Bool-cases (ltb code 0x800)) [
    | inl b ↦ rw (a, b) (omega arith)
    | inr b ↦ elim (Bool-cases (ltb code 0x10000)) [
      | inl c ↦ rw (a, b, c) (omega arith)
      | inr c ↦ rw (a, b, c) (omega arith)
    ]
  ]
]
