-- ===== src/Money/Amounts/Laws.antt =====
-- Amounts of integrations/money/app/amounts.ts, written and read.
use mathlib.Core.List.{append-nil}
use mathlib.Core.Option.{some-injective}
use atomic_plugins.Prelude.{
  ℕ, zero, suc, ◌-◌, ◌≤◌, ◌≡◌, inl, inr, refl, sym, ap, ◌∙◌, Bool, true, false, ◌&&◌, none, some,
  [], ◌∷◌, ◌++◌, length, length-append, length-replicate, length-take, length-drop, take, drop,
  take-append-drop, replicate, leb, ◌==◌, if◌then◌else◌, arith, Bool-cases,
}
use atomic_plugins.Prelude.Decimal.{
  decimal_text, all_digits, value_from, value_from-decimal_text, all_digits-decimal_text,
}
use atomic_plugins.Money.Amounts.{
  Units, ℤ, pos, negsuc, neg, pad_end, pad_start, is_empty, trim_zeros, before_point, after_point,
  big_int, magnitude, with_sign, units, unsigned_text, is_zero_text, from_units,
}

split_and : (a b : Bool) → (a && b) ≡ true → (a ≡ true) × (b ≡ true)
split_and true b h = (refl, h)
split_and false b h = cc

value_from-zeros : (k : ℕ) (t : Units) → value_from 0 (replicate k 48 ++ t) ≡ value_from 0 t
unfolding value_from
value_from-zeros zero t = refl
value_from-zeros (suc k) t = value_from-zeros k t

all_digits-append :
    (a b : Units) → all_digits a ≡ true → all_digits b ≡ true → all_digits (a ++ b) ≡ true
unfolding all_digits
all_digits-append [] b h k = k
all_digits-append (c ∷ a) b h k =
    let (first, rest) = split_and _ (all_digits a) h in rw first (all_digits-append a b rest k)

append-all_digits :
    (a b : Units) → all_digits (a ++ b) ≡ true → (all_digits a ≡ true) × (all_digits b ≡ true)
unfolding all_digits
append-all_digits [] b h = (refl, h)
append-all_digits (c ∷ a) b h =
    let (first, rest) = split_and _ (all_digits (a ++ b)) h in
    let (left, right) = append-all_digits a b rest in (rw first left, right)

all_digits-replicate : (k : ℕ) → all_digits (replicate k 48) ≡ true
unfolding all_digits
all_digits-replicate zero = refl
all_digits-replicate (suc k) = all_digits-replicate k

empty_list : (t : Units) → is_empty t ≡ true → t ≡ []
empty_list [] h = refl
empty_list (c ∷ t) h = cc

-- The zeros that are trimmed are those that are padded.
pad_end-trim_zeros : (t : Units) → pad_end (length t) (trim_zeros t) ≡ t
unfolding pad_end trim_zeros
pad_end-trim_zeros [] = refl
pad_end-trim_zeros (c ∷ t) = elim (Bool-cases (c == 48 && is_empty (trim_zeros t))) [
  | inl e ↦
      let (zero_digit, none_left) = split_and (c == 48) (is_empty (trim_zeros t)) e in
      let same : c ≡ 48 = ground arith in
      let trimmed = empty_list (trim_zeros t) none_left in
      rw e (
        ap (λ k. replicate k 48) (sizes (length t))
        ∙ ap (λ x. x ∷ pad_end (length t) []) (sym same)
        ∙ ap (λ l. c ∷ l) (ap (pad_end (length t)) (sym trimmed) ∙ pad_end-trim_zeros t))
  | inr e ↦ rw e (
      ap (λ k. c ∷ trim_zeros t ++ replicate k 48) (omega arith)
      ∙ ap (λ l. c ∷ l) (pad_end-trim_zeros t))
]
  where
    sizes : (n : ℕ) → suc n - 0 ≡ suc (n - 0)
    sizes n = omega arith

all_digits-trim_zeros : (t : Units) → all_digits t ≡ true → all_digits (trim_zeros t) ≡ true
unfolding all_digits trim_zeros
all_digits-trim_zeros [] h = refl
all_digits-trim_zeros (c ∷ t) h =
    let (first, rest) = split_and _ (all_digits t) h in
    elim (Bool-cases (c == 48 && is_empty (trim_zeros t))) [
      | inl e ↦ rw e refl
      | inr e ↦ rw (e, first) (all_digits-trim_zeros t rest)
    ]

points :
    (w f : Units)
    → all_digits w ≡ true
    → (before_point (w ++ 46 ∷ f) ≡ w) × (after_point (w ++ 46 ∷ f) ≡ f)
unfolding all_digits before_point after_point
points [] f h = (refl, refl)
points (c ∷ w) f h =
    let (first, rest) = split_and _ (all_digits w) h in
    let (before, after) = points w f rest in
    let digit : (c == 46) ≡ false = ground arith in rw digit (ap (λ l. c ∷ l) before, after)

no_point : (w : Units) → all_digits w ≡ true → (before_point w ≡ w) × (after_point w ≡ [])
unfolding all_digits before_point after_point
no_point [] h = (refl, refl)
no_point (c ∷ w) h =
    let (first, rest) = split_and _ (all_digits w) h in
    let (before, after) = no_point w rest in
    let digit : (c == 46) ≡ false = ground arith in rw digit (ap (λ l. c ∷ l) before, after)

-- The digits of a value, at least six.
abbrev padded : ℕ → Units
padded n = pad_start 6 (decimal_text n)

value_from-padded : (n : ℕ) → value_from 0 (padded n) ≡ n
unfolding pad_start
value_from-padded n =
    value_from-zeros (6 - length (decimal_text n)) (decimal_text n) ∙ value_from-decimal_text n

all_digits-padded : (n : ℕ) → all_digits (padded n) ≡ true
unfolding pad_start
all_digits-padded n =
    all_digits-append (replicate (6 - length (decimal_text n)) 48) (decimal_text n)
      (all_digits-replicate (6 - length (decimal_text n))) (all_digits-decimal_text n)

length-padded : (n : ℕ) → 6 ≤ length (padded n)
unfolding pad_start
length-padded n =
    let sizes = length-append (replicate (6 - length (decimal_text n)) 48) (decimal_text n) in
    let zeros = length-replicate {A = ℕ} (6 - length (decimal_text n)) 48 in
    omega (arith, sizes, zeros)

abbrev whole : ℕ → Units
whole n = take (length (padded n) - 5) (padded n)

abbrev fraction : ℕ → Units
fraction n = drop (length (padded n) - 5) (padded n)

parts_digits : (n : ℕ) → (all_digits (whole n) ≡ true) × (all_digits (fraction n) ≡ true)
parts_digits n =
    append-all_digits (whole n) (fraction n)
      (ap all_digits (take-append-drop (length (padded n) - 5) (padded n)) ∙ all_digits-padded n)

length-fraction : (n : ℕ) → length (fraction n) ≡ 5
length-fraction n =
    let size = length-drop (length (padded n) - 5) (padded n) in
    let six = length-padded n in omega (arith, size, six)

length-whole : (n : ℕ) → 1 ≤ length (whole n)
length-whole n =
    let size = length-take (length (padded n) - 5) (padded n) in
    let six = length-padded n in omega (arith, size, six)

-- The digits before the point and the padded ones after it make up the value.
big_int-parts : (n : ℕ) → big_int (whole n ++ pad_end 5 (trim_zeros (fraction n))) ≡ some n
unfolding big_int
big_int-parts n =
    ap (λ k. big_int (whole n ++ pad_end k (trim_zeros (fraction n)))) (sym (length-fraction n))
    ∙ ap (λ l. big_int (whole n ++ l)) (pad_end-trim_zeros (fraction n))
    ∙ ap big_int (take-append-drop (length (padded n) - 5) (padded n))
    ∙ ap (λ b. if b then some (value_from 0 (padded n)) else none) (all_digits-padded n)
    ∙ ap some (value_from-padded n)

magnitude_of :
    (n : ℕ) (t : Units)
    → before_point t ≡ whole n
    → before_point (after_point t) ≡ trim_zeros (fraction n)
    → magnitude t ≡ some n
unfolding magnitude
magnitude_of n t e f =
    ap (λ l. big_int (l ++ pad_end 5 (before_point (after_point t)))) e
    ∙ ap (λ l. big_int (whole n ++ pad_end 5 l)) f
    ∙ big_int-parts n

-- The text of a value starts with a digit, and its magnitude is the value.
starts_with_digit : Units → Bool
starts_with_digit [] = false
starts_with_digit (c ∷ t) = leb 48 c

starts-append :
    (w r : Units) → all_digits w ≡ true → 1 ≤ length w → starts_with_digit (w ++ r) ≡ true
unfolding all_digits starts_with_digit
starts-append [] r h k = absurd (omega arith)
starts-append (c ∷ w) r h k = (split_and (leb 48 c) (leb c 57) (split_and _ (all_digits w) h).0).0

unsigned_text_lem :
    (n : ℕ) → (magnitude (unsigned_text n) ≡ some n) × (starts_with_digit (unsigned_text n) ≡ true)
unfolding unsigned_text before_point
unsigned_text_lem n =
    let (digits, after) = parts_digits n in
    let trimmed = all_digits-trim_zeros (fraction n) after in
    elim (Bool-cases (is_empty (trim_zeros (fraction n)))) [
      | inl e ↦
          let (before, rest) = no_point (whole n) digits in
          let same : unsigned_text n ≡ whole n =
            ap (λ b. if b then whole n else whole n ++ 46 ∷ trim_zeros (fraction n)) e in
          (
            ap magnitude same
                ∙ magnitude_of n (whole n) before
                    (ap before_point rest ∙ sym (empty_list (trim_zeros (fraction n)) e)),
            ap starts_with_digit (same ∙ sym (append-nil (whole n)))
                ∙ starts-append (whole n) [] digits (length-whole n),
          )
      | inr e ↦
          let (before, rest) = points (whole n) (trim_zeros (fraction n)) digits in
          let same : unsigned_text n ≡ whole n ++ 46 ∷ trim_zeros (fraction n) =
            ap (λ b. if b then whole n else whole n ++ 46 ∷ trim_zeros (fraction n)) e in
          (
            ap magnitude same
                ∙ magnitude_of n (whole n ++ 46 ∷ trim_zeros (fraction n)) before
                    (ap before_point rest ∙ (no_point (trim_zeros (fraction n)) trimmed).0),
            ap starts_with_digit same
                ∙ starts-append (whole n) (46 ∷ trim_zeros (fraction n)) digits (length-whole n),
          )
    ]

units-digit : (t : Units) → starts_with_digit t ≡ true → units t ≡ with_sign false (magnitude t)
unfolding units starts_with_digit
units-digit [] h = cc
units-digit (c ∷ t) h = let digit : (c == 45) ≡ false = ground arith in rw digit refl

zero_text : (t : Units) → is_zero_text t ≡ true → t ≡ 48 ∷ []
zero_text [] h = cc
zero_text (c ∷ []) h = let same : c ≡ 48 = ground arith in ap (λ x. x ∷ []) same
zero_text (c ∷ d ∷ t) h = cc

magnitude-zero : magnitude (48 ∷ []) ≡ some 0
unfolding magnitude before_point after_point big_int all_digits value_from pad_end
magnitude-zero = refl

not_zero_text : (n : ℕ) → is_zero_text (unsigned_text (suc n)) ≡ false
not_zero_text n = elim (Bool-cases (is_zero_text (unsigned_text (suc n)))) [
  | inl e ↦
      let zero_read =
        sym magnitude-zero
        ∙ ap magnitude (sym (zero_text (unsigned_text (suc n)) e))
        ∙ (unsigned_text_lem (suc n)).0 in
      let same : 0 ≡ suc n = some-injective _ _ zero_read in absurd (omega arith)
  | inr e ↦ e
]

-- The text of any value in units is read back as the value.
pub units-from_units : (v : ℤ) → units (from_units v) ≡ some v
unfolding from_units units neg
units-from_units (pos n) =
    let (read, digit) = unsigned_text_lem n in
    units-digit (unsigned_text n) digit ∙ ap (with_sign false) read
units-from_units (negsuc n) =
    ap (λ b. units (if b then unsigned_text (suc n) else 45 ∷ unsigned_text (suc n)))
      (not_zero_text n)
    ∙ ap (with_sign true) (unsigned_text_lem (suc n)).0
