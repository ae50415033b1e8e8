-- ===== src/Prelude/TextOrder.antt =====
-- The order of texts by code units, which tell texts apart: a strict and total order.
use Prim.Native.Char.{code, char, IsScalar}
use Prim.Native.String.{String}
use Prim.Native.Nat.{ℕ, ◌<◌, ◌≤◌, ◌+◌, ◌-◌, ◌/◌, ◌%◌}
use mathlib.Core.Logic.{◌⊎◌, ◌≢◌, inl, inr}
use text.Mathlib.TextEquality.{Char-path}
use mathlib.Core.Path.{◌≡◌, refl, sym, ◌∙◌}
use mathlib.Core.Bool.{true, false}
use mathlib.Core.List.{List, [], ◌∷◌, head-eq_of_cons-eq, tail-eq_of_cons-eq}
use atomic_plugins.Prelude.Tests.{ltb, Bool-cases}
use native.Mathlib.Omega.{arith}
use atomic_plugins.Prelude.JsText.{units_of, units_lt, text_lt, utf16}

units_lt_irrefl : (cs : List ℕ) → units_lt cs cs ≡ false
unfolding units_lt
units_lt_irrefl [] = refl
units_lt_irrefl (c ∷ cs) = ground (arith, units_lt_irrefl cs)

units_lt_asym : (cs ds : List ℕ) → units_lt cs ds ≡ true → units_lt ds cs ≡ false
unfolding units_lt
units_lt_asym [] [] h = refl
units_lt_asym [] (d ∷ ds) h = refl
units_lt_asym (c ∷ cs) [] h = cc
units_lt_asym (c ∷ cs) (d ∷ ds) h = ground (arith, units_lt_asym cs ds)

units_lt_trans :
    (cs ds es : List ℕ) → units_lt ds cs ≡ false → units_lt es ds ≡ false → units_lt es cs ≡ false
unfolding units_lt
units_lt_trans [] [] es h k = k
units_lt_trans [] (d ∷ ds) [] h k = cc
units_lt_trans [] (d ∷ ds) (e ∷ es) h k = refl
units_lt_trans (c ∷ cs) [] es h k = cc
units_lt_trans (c ∷ cs) (d ∷ ds) [] h k = cc
units_lt_trans (c ∷ cs) (d ∷ ds) (e ∷ es) h k = ground (arith, units_lt_trans cs ds es)

pub text_lt_irrefl : (a : String) → text_lt a a ≡ false
unfolding text_lt
text_lt_irrefl a = units_lt_irrefl (utf16 a)

pub text_lt_asym : (a b : String) → text_lt a b ≡ true → text_lt b a ≡ false
unfolding text_lt
text_lt_asym a b h = units_lt_asym (utf16 a) (utf16 b) h

-- What is not less than a text that is not less than another is not less than the other.
pub text_lt_trans :
    (a b c : String) → text_lt b a ≡ false → text_lt c b ≡ false → text_lt c a ≡ false
unfolding text_lt
text_lt_trans a b c h k = units_lt_trans (utf16 a) (utf16 b) (utf16 c) h k

units_lt_total : (cs ds : List ℕ) → (cs ≡ ds) ⊎ ((units_lt cs ds ≡ true) ⊎ (units_lt ds cs ≡ true))
unfolding units_lt
units_lt_total [] [] = inl refl
units_lt_total [] (d ∷ ds) = inr (inl refl)
units_lt_total (c ∷ cs) [] = inr (inr refl)
units_lt_total (c ∷ cs) (d ∷ ds) = ground (arith, units_lt_total cs ds)

-- A character is no half of a pair of code units.
scalar_bounds : (n : ℕ) → IsScalar n → (n < 55296) ⊎ ((57343 < n) × (n < 1114112))
scalar_bounds n h = ground arith

units_of_small : (c : ℕ) (cs : List ℕ) → ltb c 65536 ≡ true → units_of c cs ≡ c ∷ cs
unfolding units_of
units_of_small c cs e = rw e refl

units_of_large :
    (c : ℕ) (cs : List ℕ)
    → ltb c 65536 ≡ false
    → units_of c cs ≡ (55296 + (c - 65536) / 1024) ∷ (56320 + (c - 65536) % 1024) ∷ cs
unfolding units_of
units_of_large c cs e = rw e refl

units_of_ne_nil : (c : ℕ) (cs : List ℕ) → units_of c cs ≢ []
units_of_ne_nil c cs h = elim (Bool-cases (ltb c 65536)) [
  | inl e ↦ let u = units_of_small c cs e in cc
  | inr e ↦ let u = units_of_large c cs e in cc
]

-- The first half of a pair is no character by itself.
half_ne : (c d : ℕ) → IsScalar c → d < 1114112 → c ≢ 55296 + (d - 65536) / 1024
half_ne c d p q h = elim (scalar_bounds c p) [
  | inl r ↦ absurd (omega arith)
  | inr r ↦ absurd (omega arith)
]

scalar_below : (n : ℕ) → IsScalar n → n < 1114112
scalar_below n p = ground (arith, scalar_bounds n p)

at_least : (c : ℕ) → ltb c 65536 ≡ false → 65536 ≤ c
at_least c e = ground arith

halves-injective :
    (c d : ℕ)
    → ltb c 65536 ≡ false
    → ltb d 65536 ≡ false
    → 55296 + (c - 65536) / 1024 ≡ 55296 + (d - 65536) / 1024
    → 56320 + (c - 65536) % 1024 ≡ 56320 + (d - 65536) % 1024
    → c ≡ d
halves-injective c d e f h k = omega (arith, at_least c e, at_least d f, h, k)

units_of-injective :
    (c d : ℕ) (cs ds : List ℕ)
    → IsScalar c
    → IsScalar d
    → units_of c cs ≡ units_of d ds
    → (c ≡ d) × (cs ≡ ds)
units_of-injective c d cs ds p q h = elim (Bool-cases (ltb c 65536)) [
  | inl e ↦ elim (Bool-cases (ltb d 65536)) [
    | inl f ↦
        let u = sym (units_of_small c cs e) ∙ (h ∙ units_of_small d ds f) in
        (head-eq_of_cons-eq u, tail-eq_of_cons-eq u)
    | inr f ↦
        let u = sym (units_of_small c cs e) ∙ (h ∙ units_of_large d ds f) in
        absurd (half_ne c d p (scalar_below d q) (head-eq_of_cons-eq u))
  ]
  | inr e ↦ elim (Bool-cases (ltb d 65536)) [
    | inl f ↦
        let u = sym (units_of_small d ds f) ∙ (sym h ∙ units_of_large c cs e) in
        absurd (half_ne d c q (scalar_below c p) (head-eq_of_cons-eq u))
    | inr f ↦
        let u = sym (units_of_large c cs e) ∙ (h ∙ units_of_large d ds f) in
        let v = tail-eq_of_cons-eq u in
        (
          halves-injective c d e f (head-eq_of_cons-eq u) (head-eq_of_cons-eq v),
          tail-eq_of_cons-eq v,
        )
  ]
]

utf16-injective : (s t : String) → utf16 s ≡ utf16 t → s ≡ t
unfolding utf16
utf16-injective String.[] String.[] h = refl
utf16-injective String.[] (String.◌∷◌ d t) h = absurd (units_of_ne_nil (code d) (utf16 t) (sym h))
utf16-injective (String.◌∷◌ c s) String.[] h = absurd (units_of_ne_nil (code c) (utf16 s) h)
utf16-injective (String.◌∷◌ (char c p) s) (String.◌∷◌ (char d q) t) h =
    let same = units_of-injective c d (utf16 s) (utf16 t) p q h in
    λ i. String.◌∷◌ (Char-path (char c p) (char d q) same.0 i) (utf16-injective s t same.1 i)

-- Of two texts that differ one is less.
pub text_lt_total : (a b : String) → a ≢ b → (text_lt a b ≡ true) ⊎ (text_lt b a ≡ true)
unfolding text_lt
text_lt_total a b n = elim (units_lt_total (utf16 a) (utf16 b)) [
  | inl e ↦ absurd (n (utf16-injective a b e))
  | inr h ↦ h
]
