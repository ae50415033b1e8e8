-- ===== src/Money/Ledger/Tests.antt =====
-- Four rows of two accounts, and two statements of one of them.
use atomic_plugins.Prelude.{
  ◌≡◌, ◌≢◌, refl, ◌≤◌, String, none, some, List, [], ◌∷◌, map, keep, All, Pairs,
}
use atomic_plugins.Prelude.JsText.{text_lt, decimal}
use atomic_plugins.Prelude.Sorting.{sort_by}
use atomic_plugins.Money.Types.{Txn}
use atomic_plugins.Money.Ledger.{
  Period, Today, custom, plain, this_month, Balance, period_range, pad, counts_for,
  sort_newest_first, accounts, latest_date, closing_balance,
}
use atomic_plugins.Money.Ledger.Counts.{Counts, total_count, accounts_lem}
use atomic_plugins.Money.Ledger.Closing.{ends_later, first_shown, closing_balance_lem}

abbrev booked : String → String → String → Txn
booked subject account date = record {
  subject = subject;
  account = account;
  currency = "EUR";
  amount = "-1";
  value_date = date;
  booking_date = date;
  description = "";
  reference = "";
  code = "";
  statement = "1";
  source_id = subject;
  fingerprint = subject;
  format = none;
  category = "";
  note = "";
}

abbrev rows : List Txn
rows =
    booked "a" "NL1" "2024-05-02"
    ∷ booked "b" "NL2" "2024-06-01"
    ∷ booked "c" "NL1" "2024-05-02"
    ∷ booked "d" "NL1" "2024-05-30"
    ∷ []

abbrev june : Today
june = record { year = 2024; month = 6 }

newest_rows :
    map {B = String} (λ r. r.subject) (sort_newest_first rows) ≡ "b" ∷ "d" ∷ "a" ∷ "c" ∷ []
unfolding sort_newest_first sort_by text_lt
newest_rows = refl

this_month_range : period_range (plain this_month) june ≡ (some "2024-06-01", some "2024-06-31")
unfolding period_range pad decimal
this_month_range = refl

latest_of_rows : latest_date rows ≡ "2024-06-01"
unfolding latest_date text_lt
latest_of_rows = refl

accounts_lem_example :
    All (Counts rows) (accounts rows)
    × Pairs (λ a b. a.key ≢ b.key) (accounts rows)
    × Pairs (λ a b. b.count ≤ a.count) (accounts rows)
    × (total_count (accounts rows) ≡ 4)
accounts_lem_example = accounts_lem rows

abbrev ended : String → String → Balance
ended day closing = record { account = "NL1"; currency = "EUR"; end = day; closing = closing }

abbrev statements : List Balance
statements = ended "2024-05-31" "10" ∷ ended "2024-06-30" "20" ∷ []

abbrev until_may : Period
until_may = record { kind = custom; from = ""; to = "2024-05-31" }

closing_balance_lem_example :
    closing_balance statements "NL1" "EUR" until_may june
    ≡ first_shown (
        sort_by ends_later (keep (counts_for "NL1" "EUR" (period_range until_may june)) statements))
closing_balance_lem_example = closing_balance_lem statements "NL1" "EUR" until_may june

some_rows : rows ≢ []
some_rows = λ e. cc
