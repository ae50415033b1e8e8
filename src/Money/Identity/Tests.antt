-- ===== src/Money/Identity/Tests.antt =====
-- A file of two bookings of 4.50 on one day, read by integrations/money/identity.ts.
use atomic_plugins.Prelude.{◌≡◌, refl, List, [], ◌∷◌}
use atomic_plugins.Prelude.JsText.{array, quote, decimal}
use atomic_plugins.Money.Types.{Transaction, Statement, mt940, format_text}
use atomic_plugins.Money.Identity.{
  Entry, conflicting_reference, repeated_reference, err, entry_of, entries,
}
use atomic_plugins.Money.Identity.Laws.{all_of, Distinct, entries_iff}

abbrev pub coffee : Transaction
coffee = record {
  date = "2024-03-01";
  booking_date = "2024-03-01";
  amount = "-4.50";
  code = "N012";
  reference = "NONREF";
  bank_reference = "NONREF";
  description = "Coffee";
}

abbrev pub salary : Transaction
salary = record coffee { amount = "1200.00"; bank_reference = "B-77"; description = "Salary" }

abbrev pub bonus : Transaction
bonus = record salary { amount = "50.00" }

abbrev pub march : Statement
march = record {
  account = "NL01BANK";
  number = "3";
  currency = "EUR";
  opening = "0.00";
  closing = "1191.00";
  start = "2024-03-01";
  end = "2024-03-31";
  transactions = coffee ∷ coffee ∷ salary ∷ [];
}

-- Bookings without a reference that are alike are told apart by their place in the statement.
identity_of_coffee :
    (entry_of mt940 march 1 coffee).identity
    ≡ "[\"mt940\",\"NL01BANK\",\"EUR\",[\"statement\",\"[\\\"3\\\",\\\"2024-03-01\\\",\\\"2024-03-31\\\",\\\"0.00\\\",\\\"1191.00\\\"]\",1]]"
unfolding entry_of array quote format_text decimal
identity_of_coffee = refl

entries_of_conflict :
    entries mt940 (record march { transactions = salary ∷ bonus ∷ [] } ∷ [])
    ≡ err (conflicting_reference "B-77")
unfolding entries array quote format_text
entries_of_conflict = refl

entries_of_repeat :
    entries mt940 (record march { transactions = salary ∷ salary ∷ [] } ∷ [])
    ≡ err (repeated_reference "B-77")
unfolding entries array quote format_text
entries_of_repeat = refl

abbrev pub march_entries : List Entry
march_entries =
    entry_of mt940 march 0 coffee
    ∷ entry_of mt940 march 1 coffee
    ∷ entry_of mt940 march 2 salary
    ∷ []

entries_iff_example : (march_entries ≡ all_of mt940 (march ∷ [])) × Distinct march_entries
unfolding entries array quote format_text decimal
entries_iff_example = (entries_iff mt940 (march ∷ []) march_entries).0 refl
