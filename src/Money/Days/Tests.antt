-- ===== src/Money/Days/Tests.antt =====
-- Three bookings on two days and in two currencies; a text is the list of its code units.
use atomic_plugins.Prelude.{true, false, some, List, [], ◌∷◌, length, ◌≡◌, ◌≢◌, refl, All, Pairs}
use atomic_plugins.Prelude.JsText.{text_lt}
use atomic_plugins.Prelude.Grouping.{put, group}
use atomic_plugins.Prelude.Sorting.{sort_by, insert_by}
use atomic_plugins.Prelude.Decimal.{decimal_text}
use atomic_plugins.Money.Amounts.{units, from_units, ◌+ℤ◌, neg}
use atomic_plugins.Money.Days.{
  Row, Sum, Day, sum_into, sum_by_currency, days_of, group_by_day, tally_into, totals,
}
use atomic_plugins.Money.Days.Sums.{IsSumOf, has_sum, sum_by_currency_lem}
use atomic_plugins.Money.Days.Grouped.{of_day, rows_of, group_by_day_lem}

-- "5", "-3" and "2"
abbrev rows : List Row
rows =
    (record { account = "A"; booking_date = "2026-03-01"; currency = "USD"; amount = 53 ∷ [] })
    ∷ (record {
      account = "A";
      booking_date = "2026-03-02";
      currency = "EUR";
      amount = 45 ∷ 51 ∷ [];
    })
    ∷ (record { account = "A"; booking_date = "2026-03-01"; currency = "EUR"; amount = 50 ∷ [] })
    ∷ []

abbrev sums : List Sum
sums =
    (record { currency = "EUR"; amount = 45 ∷ 49 ∷ [] })
    ∷ (record { currency = "USD"; amount = 53 ∷ [] })
    ∷ []

summed : sum_by_currency rows ≡ some sums
unfolding sum_by_currency sum_into units from_units sort_by insert_by text_lt put ◌+ℤ◌ neg
    decimal_text
summed = refl

sum_by_currency_lem_example :
    All (IsSumOf rows) sums
    × Pairs (λ a b. a.currency ≢ b.currency) sums
    × Pairs (λ a b. text_lt b.currency a.currency ≡ false) sums
    × All (λ r. has_sum sums r.currency ≡ true) rows
sum_by_currency_lem_example = sum_by_currency_lem rows sums summed

abbrev days : List Day
days =
    (record {
      date = "2026-03-02";
      rows =
          (record {
            account = "A";
            booking_date = "2026-03-02";
            currency = "EUR";
            amount = 45 ∷ 51 ∷ [];
          })
          ∷ [];
      net = (record { currency = "EUR"; amount = 45 ∷ 51 ∷ [] }) ∷ [];
    })
    ∷ (record {
      date = "2026-03-01";
      rows =
          (record {
            account = "A";
            booking_date = "2026-03-01";
            currency = "USD";
            amount = 53 ∷ [];
          })
          ∷ (record {
            account = "A";
            booking_date = "2026-03-01";
            currency = "EUR";
            amount = 50 ∷ [];
          })
          ∷ [];
      net =
          (record { currency = "EUR"; amount = 50 ∷ [] })
          ∷ (record { currency = "USD"; amount = 53 ∷ [] })
          ∷ [];
    })
    ∷ []

by_day : group_by_day rows ≡ some days
unfolding group_by_day days_of group sum_by_currency sum_into units from_units sort_by insert_by
    text_lt put ◌+ℤ◌ neg decimal_text
by_day = refl

group_by_day_lem_example :
    All (λ d. d.rows ≡ of_day d.date rows) days
    × All (λ d. sum_by_currency d.rows ≡ some d.net) days
    × Pairs (λ c d. c.date ≢ d.date) days
    × Pairs (λ c d. text_lt c.date d.date ≡ false) days
    × (rows_of days ≡ length rows)
group_by_day_lem_example = group_by_day_lem rows days by_day

-- In, out and net of the account in each currency.
tallied :
    totals rows
    ≡ some (
        (record {
          account = "A";
          currency = "USD";
          incoming = 53 ∷ [];
          outgoing = 48 ∷ [];
          net = 53 ∷ [];
          count = 1;
        })
        ∷ (record {
          account = "A";
          currency = "EUR";
          incoming = 50 ∷ [];
          outgoing = 45 ∷ 51 ∷ [];
          net = 45 ∷ 49 ∷ [];
          count = 2;
        })
        ∷ [])
unfolding totals tally_into units from_units put ◌+ℤ◌ neg decimal_text
tallied = refl
