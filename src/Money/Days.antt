-- ===== src/Money/Days.antt =====
-- integrations/money/app/amounts.ts: sums per account and currency, per currency and per day. A
-- result is `none` where `units` throws.
pub mod Sums
pub mod Grouped
mod Tests
use atomic_plugins.Prelude.{
  ℕ, ◌+◌, String, Bool, Option, none, some, List, [], ◌∷◌, ◌++◌, map, str_eq, if◌then◌else◌,
}
use atomic_plugins.Prelude.JsText.{text_lt, ◌+++◌}
use atomic_plugins.Prelude.Grouping.{put, group}
use atomic_plugins.Prelude.Sorting.{sort_by}
use atomic_plugins.Money.Amounts.{Units, ℤ, pos, negsuc, ◌+ℤ◌, units, from_units}

pub record Row : Type 0 where
  pub account : String
  pub booking_date : String
  pub currency : String
  pub amount : Units

pub record Sum : Type 0 where
  pub currency : String
  pub amount : Units

-- `(map.get(currency) ?? 0n) + value`
abbrev pub added : ℤ → Option ℤ → ℤ
added v none = pos 0 +ℤ v
added v (some s) = s +ℤ v

unfoldable pub sum_into : List Row → List (String × ℤ) → Option (List (String × ℤ))
sum_into [] m = some m
sum_into (r ∷ rs) m = elim (units r.amount) [
  | none ↦ none
  | some v ↦ sum_into rs (put r.currency (added v) m)
]

abbrev pub code_before : String × ℤ → String × ℤ → Bool
code_before e d = text_lt e.0 d.0

abbrev pub sum_of : String × ℤ → Sum
sum_of e = record { currency = e.0; amount = from_units e.1 }

abbrev pub sums_of : Option (List (String × ℤ)) → Option (List Sum)
sums_of none = none
sums_of (some m) = some (map sum_of (sort_by code_before m))

unfoldable pub sum_by_currency : List Row → Option (List Sum)
unfolding sum_into
sum_by_currency rows = sums_of (sum_into rows [])

pub record Day : Type 0 where
  pub date : String
  pub rows : List Row
  pub net : List Sum

abbrev pub day_key : Row → String
day_key r = r.booking_date

abbrev pub add_to_day : Row → Option (List Row) → List Row
add_to_day r none = r ∷ []
add_to_day r (some rows) = rows ++ r ∷ []

-- The newest day comes first.
abbrev pub newer_day : String × List Row → String × List Row → Bool
newer_day e d = text_lt d.0 e.0

abbrev pub with_day : String × List Row → Option (List Sum) → Option (List Day) → Option (List Day)
with_day e none days = none
with_day e (some net) none = none
with_day e (some net) (some days) = some ((record { date = e.0; rows = e.1; net = net }) ∷ days)

unfoldable pub days_of : List (String × List Row) → Option (List Day)
days_of [] = some []
days_of (e ∷ es) = with_day e (sum_by_currency e.1) (days_of es)

unfoldable pub group_by_day : List Row → Option (List Day)
unfolding days_of
group_by_day rows = days_of (sort_by newer_day (group day_key add_to_day rows []))

pub record Tally : Type 0 where
  pub account : String
  pub currency : String
  pub incoming : ℤ
  pub outgoing : ℤ
  pub count : ℕ

pub record Totals : Type 0 where
  pub account : String
  pub currency : String
  pub incoming : Units
  pub outgoing : Units
  pub net : Units
  pub count : ℕ

-- The NUL character separates the parts of the key.
abbrev pub tally_key : Row → String
tally_key r = r.account +++ ("\0" +++ r.currency)

abbrev pub tally_for : Row → Option Tally → Tally
tally_for r none = record {
  account = r.account;
  currency = r.currency;
  incoming = pos 0;
  outgoing = pos 0;
  count = 0;
}
tally_for r (some t) = t

abbrev pub counted : ℤ → Tally → Tally
counted (pos n) t = record t { incoming = t.incoming +ℤ pos n; count = t.count + 1 }
counted (negsuc n) t = record t { outgoing = t.outgoing +ℤ negsuc n; count = t.count + 1 }

unfoldable pub tally_into : List Row → List (String × Tally) → Option (List (String × Tally))
tally_into [] m = some m
tally_into (r ∷ rs) m = elim (units r.amount) [
  | none ↦ none
  | some v ↦ tally_into rs (put (tally_key r) (λ o. counted v (tally_for r o)) m)
]

abbrev pub totals_of : Tally → Totals
totals_of t = record {
  account = t.account;
  currency = t.currency;
  incoming = from_units t.incoming;
  outgoing = from_units t.outgoing;
  net = from_units (t.incoming +ℤ t.outgoing);
  count = t.count;
}

abbrev pub all_totals : Option (List (String × Tally)) → Option (List Totals)
all_totals none = none
all_totals (some m) = some (map (λ e. totals_of e.1) m)

unfoldable pub totals : List Row → Option (List Totals)
unfolding tally_into
totals rows = all_totals (tally_into rows [])
