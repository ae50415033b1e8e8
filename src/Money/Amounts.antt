-- ===== src/Money/Amounts.antt =====
-- Exact amounts of integrations/money/app/amounts.ts, and `units` of integrations/money/parser.ts. A text
-- is the list of its code units. `BigInt` is modelled on texts of digits; other texts are `none`.
pub mod Laws
mod Tests
use atomic_plugins.Prelude.{
  ℕ, zero, suc, ◌+◌, ◌-◌, ◌*◌, ◌/◌, ◌%◌, Bool, true, false, ◌&&◌, ◌||◌, Option, none, some, List,
  [], ◌∷◌, ◌++◌, length, take, drop, replicate, leb, ltb, ◌==◌, if◌then◌else◌,
}
use atomic_plugins.Prelude.Decimal.{decimal_text, all_digits, value_from}

abbrev pub Units : Type 0
Units = List ℕ

-- Integers over the native numbers: `negsuc n` is `-(n + 1)`.
pub data ℤ : Type 0 where
  pos : ℕ → ℤ
  negsuc : ℕ → ℤ

unfoldable pub neg : ℤ → ℤ
neg (pos zero) = pos 0
neg (pos (suc n)) = negsuc n
neg (negsuc n) = pos (suc n)

infixl 65 ◌+ℤ◌
unfoldable pub ◌+ℤ◌ : ℤ → ℤ → ℤ
pos m +ℤ pos n = pos (m + n)
pos m +ℤ negsuc n = if ltb n m then pos (m - suc n) else negsuc (n - m)
negsuc m +ℤ pos n = if ltb m n then pos (n - suc m) else negsuc (m - n)
negsuc m +ℤ negsuc n = negsuc (suc (m + n))

unfoldable pub pad_end : ℕ → Units → Units
pad_end size t = t ++ replicate (size - length t) 48

unfoldable pub pad_start : ℕ → Units → Units
pad_start size t = replicate (size - length t) 48 ++ t

abbrev is_empty : Units → Bool
is_empty [] = true
is_empty (c ∷ t) = false

-- `replace(/0+$/, '')`
unfoldable pub trim_zeros : Units → Units
trim_zeros [] = []
trim_zeros (c ∷ t) = let rest = trim_zeros t in if c == 48 && is_empty rest then [] else c ∷ rest

-- What stands before the first point, and what follows it.
unfoldable pub before_point : Units → Units
before_point [] = []
before_point (c ∷ t) = let rest = before_point t in if c == 46 then [] else c ∷ rest

unfoldable pub after_point : Units → Units
after_point [] = []
after_point (c ∷ t) = let rest = after_point t in if c == 46 then t else rest

-- `BigInt` of digits; of no digits it is 0.
unfoldable pub big_int : Units → Option ℕ
unfolding all_digits value_from
big_int t = if all_digits t then some (value_from 0 t) else none

-- `[whole, fraction = '']` of `split('.')`, in units of 1e-5.
unfoldable pub magnitude : Units → Option ℕ
unfolding before_point after_point big_int pad_end
magnitude t = big_int (before_point t ++ pad_end 5 (before_point (after_point t)))

abbrev signed_by : Bool → ℕ → ℤ
signed_by false n = pos n
signed_by true n = neg (pos n)

abbrev with_sign : Bool → Option ℕ → Option ℤ
with_sign negative none = none
with_sign negative (some n) = some (signed_by negative n)

unfoldable pub units : Units → Option ℤ
unfolding magnitude neg
units [] = with_sign false (magnitude [])
units (c ∷ t) =
    if c == 45 then with_sign true (magnitude t) else with_sign false (magnitude (c ∷ t))

-- `text` of a value without its sign
unfoldable pub unsigned_text : ℕ → Units
unfolding pad_start trim_zeros
unsigned_text n =
    let digits = pad_start 6 (decimal_text n) in
    let whole = take (length digits - 5) digits in
    let fraction = trim_zeros (drop (length digits - 5) digits) in
    if is_empty fraction then whole else whole ++ 46 ∷ fraction

abbrev is_zero_text : Units → Bool
is_zero_text [] = false
is_zero_text (c ∷ []) = c == 48
is_zero_text (c ∷ d ∷ t) = false

unfoldable pub from_units : ℤ → Units
unfolding unsigned_text
from_units (pos n) = unsigned_text n
from_units (negsuc n) =
    let text = unsigned_text (suc n) in if is_zero_text text then text else 45 ∷ text

unfoldable pub is_out : Units → Option Bool
unfolding units
is_out amount = elim (units amount) [
  | none ↦ none
  | some (pos n) ↦ some false
  | some (negsuc n) ↦ some true
]

unfoldable pub negate : Units → Option Units
unfolding units from_units neg
negate amount = elim (units amount) [ none ↦ none | some v ↦ some (from_units (neg v)) ]

abbrev pub plus : ℤ → Option ℤ → Option ℤ
plus sum none = none
plus sum (some v) = some (sum +ℤ v)

-- The sum of `reduce`; `none` where `units` throws.
unfoldable pub sum_units : Option ℤ → List Units → Option ℤ
unfolding units ◌+ℤ◌
sum_units none amounts = none
sum_units (some sum) [] = some sum
sum_units (some sum) (a ∷ amounts) = sum_units (plus sum (units a)) amounts

unfoldable pub add_amounts : List Units → Option Units
unfolding sum_units from_units
add_amounts amounts = elim (sum_units (some (pos 0)) amounts) [
  | none ↦ none
  | some v ↦ some (from_units v)
]
