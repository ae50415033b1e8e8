-- ===== src/Prelude/Decimal.antt =====
-- Decimal digits as code units: written as JavaScript's `toString()` does, and read as `BigInt` does.
use Prim.Native.Nat.{ℕ, zero, suc, ◌+◌, ◌-◌, ◌*◌, ◌/◌, ◌%◌, ◌≤◌, ◌<◌}
use mathlib.Core.Bool.{Bool, true, false, ◌&&◌}
use mathlib.Core.List.{List, [], ◌∷◌}
use mathlib.Core.Path.{◌≡◌, refl, ap, ◌∙◌}
use mathlib.Core.Logic.{inl, inr}
use native.Mathlib.Omega.{arith}
use atomic_plugins.Prelude.Lists.{length}
use atomic_plugins.Prelude.Tests.{leb, ◌==◌, Bool-cases}

-- `toString()` of a bigint, on fuel: each round divides by ten.
unfoldable pub digits_from : ℕ → ℕ → List ℕ → List ℕ
digits_from zero n tail = tail
digits_from (suc fuel) n tail =
    let text = (48 + n % 10) ∷ tail in
    elim (n / 10 == 0) [ true ↦ text | false ↦ digits_from fuel (n / 10) text ]

unfoldable pub decimal_text : ℕ → List ℕ
unfolding digits_from
decimal_text n = digits_from (suc n) n []

abbrev is_digit : ℕ → Bool
is_digit c = leb 48 c && leb c 57

unfoldable pub all_digits : List ℕ → Bool
all_digits [] = true
all_digits (c ∷ text) = is_digit c && all_digits text

-- `BigInt(text)` of digits
unfoldable pub value_from : ℕ → List ℕ → ℕ
value_from value [] = value
value_from value (c ∷ text) = value_from (value * 10 + (c - 48)) text

-- What digits before a text do to its value, and that they are digits.
value_from-digits_from :
    (fuel n : ℕ) (tail : List ℕ)
    → n < fuel
    → value_from 0 (digits_from fuel n tail) ≡ value_from n tail
unfolding digits_from value_from
value_from-digits_from zero n tail h = absurd (omega arith)
value_from-digits_from (suc fuel) n tail h = elim (Bool-cases (n / 10 == 0)) [
  | inl e ↦
      let small : n < 10 = ground arith in
      rw (e, digits_from) (ap (λ v. value_from v tail) (omega arith))
  | inr e ↦
      let large : 1 ≤ n / 10 = ground arith in
      rw (e, digits_from)
        (value_from-digits_from fuel (n / 10) ((48 + n % 10) ∷ tail) (omega arith)
          ∙ ap (λ v. value_from v tail) (omega arith))
]

all_digits-digits_from :
    (fuel n : ℕ) (tail : List ℕ)
    → n < fuel
    → all_digits tail ≡ true
    → all_digits (digits_from fuel n tail) ≡ true
unfolding digits_from all_digits
all_digits-digits_from zero n tail h d = absurd (omega arith)
all_digits-digits_from (suc fuel) n tail h d =
    let digit : (leb 48 (48 + n % 10) && leb (48 + n % 10) 57) ≡ true = ground arith in
    let now : all_digits ((48 + n % 10) ∷ tail) ≡ true = rw digit d in
    elim (Bool-cases (n / 10 == 0)) [
      | inl e ↦ rw (e, digits_from) now
      | inr e ↦
          let large : 1 ≤ n / 10 = ground arith in
          rw (e, digits_from)
            (all_digits-digits_from fuel (n / 10) ((48 + n % 10) ∷ tail) (omega arith) now)
    ]

pub value_from-decimal_text : (n : ℕ) → value_from 0 (decimal_text n) ≡ n
unfolding decimal_text value_from
value_from-decimal_text n = value_from-digits_from (suc n) n [] (omega arith)

pub all_digits-decimal_text : (n : ℕ) → all_digits (decimal_text n) ≡ true
unfolding decimal_text all_digits
all_digits-decimal_text n = all_digits-digits_from (suc n) n [] (omega arith) refl

length-digits_from :
    (fuel n : ℕ) (tail : List ℕ) → n < fuel → length tail < length (digits_from fuel n tail)
unfolding digits_from
length-digits_from zero n tail h = absurd (omega arith)
length-digits_from (suc fuel) n tail h = elim (Bool-cases (n / 10 == 0)) [
  | inl e ↦ rw (e, digits_from) (omega arith)
  | inr e ↦
      let large : 1 ≤ n / 10 = ground arith in
      let rest = length-digits_from fuel (n / 10) ((48 + n % 10) ∷ tail) (omega arith) in
      rw (e, digits_from) (omega (arith, rest))
]

pub length-decimal_text : (n : ℕ) → 1 ≤ length (decimal_text n)
unfolding decimal_text
length-decimal_text n =
    let digits = length-digits_from (suc n) n [] (omega arith) in omega (arith, digits)
