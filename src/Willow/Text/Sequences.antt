-- ===== src/Willow/Text/Sequences.antt =====
-- The sequences of bytes that integrations/willow-drop reads as one code point.
use mathlib.Core.Option.{some-injective, none-ne-some}
use atomic_plugins.Prelude.{
  ℕ, zero, suc, ◌+◌, ◌*◌, ◌/◌, ◌%◌, ◌<◌, ◌≤◌, ◌≡◌, ◌⊎◌, inl, inr, refl, sym, ap, subst, ◌∙◌, Bool,
  true, false, ◌&&◌, Option, none, some, [], ◌∷◌, ◌++◌, leb, ◌==◌, if◌then◌else◌, arith, All,
  Bool-cases,
}
use atomic_plugins.Willow.Reader.{Bytes, IsByte}
use atomic_plugins.Willow.Text.{
  lead, continued, refused, accepted, utf8_sequence, utf8_next, point_bytes,
}
use atomic_plugins.Willow.Text.Points.{
  point_bytes-one, point_bytes-two, point_bytes-three, point_bytes-four,
}

-- A byte that continues a sequence, and what follows it.
Continues : ℕ → ℕ → Bytes → ℕ × Bytes → Type 0
Continues need code bytes v =
    (c : ℕ) × (rest : Bytes) × (bytes ≡ (0x80 + c) ∷ rest)
    × (c < 64)
    × All IsByte rest
    × (continued need (code * 64 + c) rest ≡ some v)

continued-Continues :
    (need code : ℕ) (bytes : Bytes) (v : ℕ × Bytes)
    → All IsByte bytes
    → continued (suc need) code bytes ≡ some v
    → Continues need code bytes v
unfolding continued Continues
continued-Continues need code [] v all h = cc
continued-Continues need code (c ∷ bytes) v (byte, all) h = found (c / 64 % 4 == 2) refl h
  where
    found :
        (test : Bool)
        → (c / 64 % 4 == 2) ≡ test
        → (if test then continued need (code * 64 + c % 64) bytes else none) ≡ some v
        → Continues need code (c ∷ bytes) v
    found true e t =
        let mark : c / 64 % 4 ≡ 2 = ground arith in
        (c % 64, bytes, ap (λ x. x ∷ bytes) (omega arith), omega arith, all, t)
    found false e t = cc

accepted-steps :
    (need min : ℕ) (o : Option (ℕ × Bytes)) (point : ℕ) (rest : Bytes)
    → accepted need min o ≡ some (point, rest)
    → (o ≡ some (point, rest)) × (refused need point min ≡ false)
unfolding accepted
accepted-steps need min none point rest h = cc
accepted-steps need min (some (p, r)) point rest h = found (refused need p min) refl h
  where
    found :
        (test : Bool)
        → refused need p min ≡ test
        → if◌then◌else◌ {A = Option (ℕ × Bytes)} test none (some (p, r)) ≡ some (point, rest)
        → (◌≡◌ {A = Option (ℕ × Bytes)} (some (p, r)) (some (point, rest)))
          × (refused need point min ≡ false)
    found true e t = cc
    found false e t =
        (t, sym (ap (λ q. refused need q min) (ap (λ v. v.0) (some-injective _ _ t))) ∙ e)

refused-min : (need point min : ℕ) → refused (suc need) point min ≡ false → min ≤ point
unfolding refused
refused-min need point min h = ground arith

-- The bytes of the code point that was read are the bytes that were read.
abbrev Rewritten : ℕ → Bytes → ℕ → Bytes → Type 0
Rewritten b bytes point rest = (point_bytes point ++ rest ≡ b ∷ bytes) × All IsByte rest

continued-none :
    (code point : ℕ) (bytes rest : Bytes)
    → continued zero code bytes ≡ some (point, rest)
    → (code ≡ point) × (bytes ≡ rest)
unfolding continued
continued-none code point bytes rest h =
    (ap (λ v. v.0) (some-injective _ _ h), ap (λ v. v.1) (some-injective _ _ h))

sequence-one :
    (b point : ℕ) (bytes rest : Bytes)
    → b < 0x80
    → All IsByte bytes
    → utf8_sequence (some (0, b, 0)) bytes ≡ some (point, rest)
    → Rewritten b bytes point rest
unfolding utf8_sequence
sequence-one b point bytes rest small all h =
    let (read, fine) = accepted-steps 0 0 (continued 0 b bytes) point rest h in
    let (same, left) = continued-none b point bytes rest read in
    (
      ap (λ l. l ++ rest) (point_bytes-one point (omega arith))
          ∙ ap (λ x. x ∷ rest) (sym same)
          ∙ ap (λ l. b ∷ l) (sym left),
      subst (All IsByte) left all,
    )

sequence-two :
    (b point : ℕ) (bytes rest : Bytes)
    → b < 32
    → All IsByte bytes
    → utf8_sequence (some (1, b, 0x80)) bytes ≡ some (point, rest)
    → Rewritten (0xC0 + b) bytes point rest
unfolding utf8_sequence Continues
sequence-two b point bytes rest small all h =
    let (read, fine) = accepted-steps 1 0x80 (continued 1 b bytes) point rest h in
    let (c, l1, e1, hc, all1, read1) = continued-Continues 0 b bytes (point, rest) all read in
    let (same, left) = continued-none (b * 64 + c) point l1 rest read1 in
    (
      ap (λ l. l ++ rest)
            (point_bytes-two point b c small hc (refused-min 0 point 0x80 fine) (sym same))
          ∙ ap (λ l. (0xC0 + b) ∷ (0x80 + c) ∷ l) (sym left)
          ∙ ap (λ l. (0xC0 + b) ∷ l) (sym e1),
      subst (All IsByte) left all1,
    )

sequence-three :
    (b point : ℕ) (bytes rest : Bytes)
    → b < 16
    → All IsByte bytes
    → utf8_sequence (some (2, b, 0x800)) bytes ≡ some (point, rest)
    → Rewritten (0xE0 + b) bytes point rest
unfolding utf8_sequence Continues
sequence-three b point bytes rest small all h =
    let (read, fine) = accepted-steps 2 0x800 (continued 2 b bytes) point rest h in
    let (c, l1, e1, hc, all1, read1) = continued-Continues 1 b bytes (point, rest) all read in
    let (d, l2, e2, hd, all2, read2) =
      continued-Continues 0 (b * 64 + c) l1 (point, rest) all1 read1 in
    let (same, left) = continued-none ((b * 64 + c) * 64 + d) point l2 rest read2 in
    (
      ap (λ l. l ++ rest)
            (point_bytes-three point b c d small hc hd (refused-min 1 point 0x800 fine) (sym same))
          ∙ ap (λ l. (0xE0 + b) ∷ (0x80 + c) ∷ (0x80 + d) ∷ l) (sym left)
          ∙ ap (λ l. (0xE0 + b) ∷ (0x80 + c) ∷ l) (sym e2)
          ∙ ap (λ l. (0xE0 + b) ∷ l) (sym e1),
      subst (All IsByte) left all2,
    )

sequence-four :
    (b point : ℕ) (bytes rest : Bytes)
    → b < 8
    → All IsByte bytes
    → utf8_sequence (some (3, b, 0x10000)) bytes ≡ some (point, rest)
    → Rewritten (0xF0 + b) bytes point rest
unfolding utf8_sequence Continues
sequence-four b point bytes rest small all h =
    let (read, fine) = accepted-steps 3 0x10000 (continued 3 b bytes) point rest h in
    let (c, l1, e1, hc, all1, read1) = continued-Continues 2 b bytes (point, rest) all read in
    let (d, l2, e2, hd, all2, read2) =
      continued-Continues 1 (b * 64 + c) l1 (point, rest) all1 read1 in
    let (x, l3, e3, hx, all3, read3) =
      continued-Continues 0 ((b * 64 + c) * 64 + d) l2 (point, rest) all2 read2 in
    let (same, left) = continued-none (((b * 64 + c) * 64 + d) * 64 + x) point l3 rest read3 in
    (
      ap (λ l. l ++ rest)
            (point_bytes-four point b c d x small hc hd hx (refused-min 2 point 0x10000 fine)
              (sym same))
          ∙ ap (λ l. (0xF0 + b) ∷ (0x80 + c) ∷ (0x80 + d) ∷ (0x80 + x) ∷ l) (sym left)
          ∙ ap (λ l. (0xF0 + b) ∷ (0x80 + c) ∷ (0x80 + d) ∷ l) (sym e3)
          ∙ ap (λ l. (0xF0 + b) ∷ (0x80 + c) ∷ l) (sym e2)
          ∙ ap (λ l. (0xF0 + b) ∷ l) (sym e1),
      subst (All IsByte) left all3,
    )

-- What the first bytes of sequences are.
lead-cases :
    (b : ℕ)
    → ((b < 0x80) × (lead b ≡ some (0, b, 0)))
      ⊎ ((b % 32 < 32) × (b ≡ 0xC0 + b % 32) × (lead b ≡ some (1, b % 32, 0x80)))
      ⊎ ((b ≡ 0xE0 + b % 16) × (lead b ≡ some (2, b % 16, 0x800)))
      ⊎ ((b ≡ 0xF0 + b % 8) × (lead b ≡ some (3, b % 8, 0x10000)))
      ⊎ (lead b ≡ none)
unfolding lead
lead-cases b = elim (Bool-cases (leb 0xC2 b && leb b 0xDF)) [
  | inl e ↦ inr (inl (omega arith, ground arith, rw e refl))
  | inr x ↦ elim (Bool-cases (leb 0xE0 b && leb b 0xEF)) [
    | inl e ↦ inr (inr (inl (ground arith, rw (x, e) refl)))
    | inr y ↦ elim (Bool-cases (leb 0xF0 b && leb b 0xF4)) [
      | inl e ↦ inr (inr (inr (inl (ground arith, rw (x, y, e) refl))))
      | inr z ↦ elim (Bool-cases (leb 0x80 b)) [
        | inl e ↦ inr (inr (inr (inr (rw (x, y, z, e) refl))))
        | inr e ↦ inl (ground arith, rw (x, y, z, e) refl)
      ]
    ]
  ]
]

pub utf8_next-Rewritten :
    (b point : ℕ) (bytes rest : Bytes)
    → All IsByte bytes
    → utf8_next b bytes ≡ some (point, rest)
    → Rewritten b bytes point rest
unfolding utf8_next utf8_sequence
utf8_next-Rewritten b point bytes rest all h = elim (lead-cases b) [
  | inl (small, e) ↦ sequence-one b point bytes rest small all (led e)
  | inr (inl (small, is, e)) ↦
      subst (λ x. Rewritten x bytes point rest) (sym is)
        (sequence-two (b % 32) point bytes rest small all (led e))
  | inr (inr (inl (is, e))) ↦
      subst (λ x. Rewritten x bytes point rest) (sym is)
        (sequence-three (b % 16) point bytes rest (omega arith) all (led e))
  | inr (inr (inr (inl (is, e)))) ↦
      subst (λ x. Rewritten x bytes point rest) (sym is)
        (sequence-four (b % 8) point bytes rest (omega arith) all (led e))
  | inr (inr (inr (inr e))) ↦ absurd (none-ne-some _ (led e))
]
  where
    led : {o : Option (ℕ × ℕ × ℕ)} → lead b ≡ o → utf8_sequence o bytes ≡ some (point, rest)
    led e = sym (ap (λ x. utf8_sequence x bytes) e) ∙ h
