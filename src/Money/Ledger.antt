-- ===== src/Money/Ledger.antt =====
-- integrations/money/app/ledger.ts: order, accounts, periods and balances over the rows of the
-- transactions table. Dates are ISO texts that are compared as texts.
mod Order
mod Counts
mod Closing
mod Periods
mod Tests
use atomic_plugins.Prelude.{
  ℕ, suc, ◌+◌, ◌-◌, String, str_eq, Bool, true, false, not, ◌&&◌, ◌||◌, Option, none, some, List,
  [], ◌∷◌, ◌++◌, map, keep, length, ltb, ◌==◌, if◌then◌else◌,
}
use atomic_plugins.Prelude.JsText.{text_lt, quote, array, decimal, ◌+++◌}
use atomic_plugins.Prelude.Sorting.{sort_by}
use atomic_plugins.Prelude.Grouping.{group}
use atomic_plugins.Money.Types.{StatementFormat, format_text, Txn}

pub data PeriodKind : Type 0 where
  all this_month last_month this_year custom : PeriodKind

-- An optional bound and an empty one mean the same to `periodRange`, so that both are the empty text.
pub record Period : Type 0 where
  pub kind : PeriodKind
  pub from : String
  pub to : String

-- The year, at least 1, and the month that `periodRange` slices out of `today`, an ISO date.
pub record Today : Type 0 where
  pub year : ℕ
  pub month : ℕ

-- `String(n).padStart(2, '0')`
unfoldable pub pad : ℕ → String
pad n = if ltb n 10 then "0" +++ decimal n else decimal n

abbrev present : String → Option String
present s = if str_eq s "" then none else some s

abbrev pub Range : Type 0
Range = Option String × Option String

abbrev month_range : ℕ → ℕ → Range
month_range y m =
    (some (decimal y +++ "-" +++ pad m +++ "-01"), some (decimal y +++ "-" +++ pad m +++ "-31"))

unfoldable pub period_range : Period → Today → Range
period_range p today = elim p.kind [
  | all ↦ (none, none)
  | this_month ↦ month_range today.year today.month
  | last_month ↦
      month_range (if today.month == 1 then today.year - 1 else today.year)
        (if today.month == 1 then 12 else today.month - 1)
  | this_year ↦ (some (decimal today.year +++ "-01-01"), some (decimal today.year +++ "-12-31"))
  | custom ↦ (present p.from, present p.to)
]

-- `!from || date >= from` and `!to || date <= to`; a bound that is there is not empty.
abbrev pub from_on : Option String → String → Bool
from_on none date = true
from_on (some from) date = not (text_lt date from)

abbrev pub up_to : Option String → String → Bool
up_to none date = true
up_to (some to) date = not (text_lt to date)

unfoldable pub within : Range → String → Bool
within (from, to) date = from_on from date && up_to to date

unfoldable pub in_period : Txn → Period → Today → Bool
in_period row p today = within (period_range p today) row.booking_date

-- `rows.some(test)`
unfoldable pub some_row : (Txn → Bool) → List Txn → Bool
some_row test [] = false
some_row test (r ∷ rs) = test r || some_row test rs

abbrev pub plain : PeriodKind → Period
plain kind = record { kind = kind; from = ""; to = "" }

unfoldable pub default_period : List Txn → Today → Period
default_period rows today =
    if some_row (λ r. in_period r (plain this_month) today) rows
    then plain this_month
    else plain all

-- Rows with their places, and the comparison of `sortNewestFirst` on them.
pub with_index : ℕ → List Txn → List (ℕ × Txn)
with_index n [] = []
with_index n (r ∷ rs) = (n, r) ∷ with_index (suc n) rs

pub goes_before : ℕ × Txn → ℕ × Txn → Bool
goes_before (j, b) (i, a) =
    if str_eq a.booking_date b.booking_date then ltb j i else text_lt a.booking_date b.booking_date

unfoldable pub sort_newest_first : List Txn → List Txn
unfolding goes_before with_index
sort_newest_first rows = map (λ p. p.1) (sort_by goes_before (with_index 0 rows))

unfoldable pub account_key : String → String → String
account_key account currency = array (quote account ∷ quote currency ∷ [])

pub record AccountOption : Type 0 where
  pub key : String
  pub account : String
  pub currency : String
  pub count : ℕ

abbrev pub row_key : Txn → String
row_key r = account_key r.account r.currency

abbrev pub count_row : Txn → Option AccountOption → AccountOption
count_row r none = record { key = row_key r; account = r.account; currency = r.currency; count = 1 }
count_row r (some o) = record o { count = o.count + 1 }

abbrev pub has_more : AccountOption → AccountOption → Bool
has_more b a = ltb a.count b.count

unfoldable pub accounts : List Txn → List AccountOption
accounts rows = sort_by has_more (map (λ e. e.1) (group row_key count_row rows []))

unfoldable pub latest_from : List Txn → String → String
latest_from [] max = max
latest_from (r ∷ rs) max =
    latest_from rs (if text_lt max r.booking_date then r.booking_date else max)

unfoldable pub latest_date : List Txn → String
unfolding latest_from
latest_date rows = latest_from rows ""

pub record Balance : Type 0 where
  pub account : String
  pub currency : String
  pub end : String
  pub closing : String

-- The two guards of the loop of `closingBalance`.
unfoldable pub counts_for : String → String → Range → Balance → Bool
counts_for account currency range s =
    str_eq s.account account && str_eq s.currency currency && within range s.end

abbrev pub better : Option (String × String) → Balance → Option (String × String)
better none s = some (s.closing, s.end)
better (some (amount, date)) s =
    if text_lt date s.end then some (s.closing, s.end) else some (amount, date)

unfoldable pub best_of :
    (Balance → Bool) → List Balance → Option (String × String) → Option (String × String)
best_of test [] best = best
best_of test (s ∷ ss) best = best_of test ss (if test s then better best s else best)

unfoldable pub closing_balance :
    List Balance → String → String → Period → Today → Option (String × String)
unfolding best_of counts_for
closing_balance statements account currency p today =
    best_of (counts_for account currency (period_range p today)) statements none
