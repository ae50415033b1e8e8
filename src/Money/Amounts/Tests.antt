-- ===== src/Money/Amounts/Tests.antt =====
-- Amounts of integrations/money/app/amounts.ts at concrete values.
use atomic_plugins.Prelude.{◌≡◌, refl, true, some, [], ◌∷◌}
use atomic_plugins.Prelude.Decimal.{decimal_text, digits_from, all_digits, value_from}
use atomic_plugins.Money.Amounts.{
  pos, negsuc, neg, ◌+ℤ◌, pad_end, pad_start, trim_zeros, before_point, after_point, big_int,
  magnitude, units, unsigned_text, from_units, is_out, negate, sum_units, add_amounts,
}
use atomic_plugins.Money.Amounts.Laws.{units-from_units}

-- 0.5 and -12
half_text : from_units (pos 50_000) ≡ 48 ∷ 46 ∷ 53 ∷ []
unfolding from_units unsigned_text pad_start decimal_text digits_from trim_zeros
half_text = refl

twelve_out : is_out (45 ∷ 49 ∷ 50 ∷ []) ≡ some true
unfolding is_out units magnitude before_point after_point big_int pad_end all_digits value_from neg
twelve_out = refl

-- 0.5 and 0.25 and -1
sum_text :
    add_amounts ((48 ∷ 46 ∷ 53 ∷ []) ∷ (48 ∷ 46 ∷ 50 ∷ 53 ∷ []) ∷ (45 ∷ 49 ∷ []) ∷ [])
    ≡ some (45 ∷ 48 ∷ 46 ∷ 50 ∷ 53 ∷ [])
unfolding add_amounts sum_units ◌+ℤ◌ units magnitude before_point after_point big_int pad_end
    all_digits value_from neg from_units unsigned_text pad_start decimal_text digits_from trim_zeros
sum_text = refl

negated_text : negate (53 ∷ []) ≡ some (45 ∷ 53 ∷ [])
unfolding negate units magnitude before_point after_point big_int pad_end all_digits value_from neg
    from_units unsigned_text pad_start decimal_text digits_from trim_zeros
negated_text = refl

-- More than five digits after the point are read on the same scale.
six_digits : units (48 ∷ 46 ∷ 48 ∷ 48 ∷ 48 ∷ 48 ∷ 48 ∷ 49 ∷ []) ≡ some (pos 1)
unfolding units magnitude before_point after_point big_int pad_end all_digits value_from
six_digits = refl

units-from_units_example : units (from_units (negsuc 49_999)) ≡ some (negsuc 49_999)
units-from_units_example = units-from_units (negsuc 49_999)
