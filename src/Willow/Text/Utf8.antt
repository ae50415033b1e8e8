-- ===== src/Willow/Text/Utf8.antt =====
-- UTF-8 read and written back.
use mathlib.Core.Option.{some-injective, none-ne-some}
use atomic_plugins.Prelude.{
  ℕ, zero, suc, ◌≤◌, ◌≡◌, refl, sym, ap, ◌∙◌, Option, none, some, [], ◌∷◌, ◌++◌, length,
  length-append, arith, All,
}
use atomic_plugins.Willow.Reader.{Bytes, IsByte}
use atomic_plugins.Willow.Text.{
  Text, prepend, utf8_next, utf8_from, utf8_text, point_bytes, utf8_bytes,
}
use atomic_plugins.Willow.Text.Points.{length-point_bytes}
use atomic_plugins.Willow.Text.Sequences.{utf8_next-Rewritten}

-- A round that goes well, and the rounds after it.
utf8_from-next :
    (rounds b : ℕ) (bytes : Bytes) (text : Text)
    → utf8_from (suc rounds) (b ∷ bytes) ≡ some text
    → (point : ℕ) × (rest : Bytes) × (others : Text) × (utf8_next b bytes ≡ some (point, rest))
      × (utf8_from rounds rest ≡ some others)
      × (point ∷ others ≡ text)
unfolding utf8_from
utf8_from-next rounds b bytes text h = found (utf8_next b bytes) refl h
  where
    after :
        (point : ℕ) (rest : Bytes) (o : Option Text)
        → utf8_next b bytes ≡ some (point, rest)
        → utf8_from rounds rest ≡ o
        → prepend point o ≡ some text
        → (point : ℕ) × (rest : Bytes) × (others : Text) × (utf8_next b bytes ≡ some (point, rest))
          × (utf8_from rounds rest ≡ some others)
          × (point ∷ others ≡ text)
    after point rest none e r t = absurd (none-ne-some _ t)
    after point rest (some others) e r t = (point, rest, others, e, r, some-injective _ _ t)

    found :
        (o : Option (ℕ × Bytes))
        → utf8_next b bytes ≡ o
        → elim o [ none ↦ none | some (point, rest) ↦ prepend point (utf8_from rounds rest) ]
          ≡ some text
        → (point : ℕ) × (rest : Bytes) × (others : Text) × (utf8_next b bytes ≡ some (point, rest))
          × (utf8_from rounds rest ≡ some others)
          × (point ∷ others ≡ text)
    found none e t = absurd (none-ne-some _ t)
    found (some (point, rest)) e t = after point rest (utf8_from rounds rest) e refl t

-- The loop reads what `utf8Bytes` writes.
utf8_from-bytes :
    (rounds : ℕ) (bytes : Bytes) (text : Text)
    → length bytes ≤ rounds
    → All IsByte bytes
    → utf8_from rounds bytes ≡ some text
    → utf8_bytes text ≡ bytes
unfolding utf8_from utf8_bytes
utf8_from-bytes zero [] text short all h = sym (ap utf8_bytes (some-injective _ _ h))
utf8_from-bytes zero (b ∷ bytes) text short all h = absurd (omega arith)
utf8_from-bytes (suc rounds) [] text short all h = sym (ap utf8_bytes (some-injective _ _ h))
utf8_from-bytes (suc rounds) (b ∷ bytes) text short (byte, all) h =
    let (point, rest, others, e, r, same) = utf8_from-next rounds b bytes text h in
    let (written, all1) = utf8_next-Rewritten b point bytes rest all e in
    let sizes = sym (length-append (point_bytes point) rest) ∙ ap length written in
    let one = length-point_bytes point in
    let fewer : length rest ≤ rounds = omega (arith, sizes, one) in
    ap utf8_bytes (sym same)
    ∙ ap (λ l. point_bytes point ++ l) (utf8_from-bytes rounds rest others fewer all1 r)
    ∙ written

-- Bytes that are well-formed UTF-8 are those that the text they hold is written in.
pub utf8_bytes-utf8_text :
    (bytes : Bytes) (text : Text)
    → All IsByte bytes
    → utf8_text bytes ≡ some text
    → utf8_bytes text ≡ bytes
unfolding utf8_text
utf8_bytes-utf8_text bytes text all h =
    utf8_from-bytes (length bytes) bytes text (omega arith) all h
