-- ===== src/Money/Check/Tests.antt =====
-- A file of a new booking and of one that the table has, and two files that are refused.
use atomic_plugins.Prelude.{◌≡◌, refl, some, List, [], ◌∷◌}
use atomic_plugins.Prelude.JsText.{array, quote, decimal}
use atomic_plugins.Money.Types.{Transaction, Statement, mt940, format_text, Txn}
use atomic_plugins.Money.Identity.{Entry, entry_of, entries}
use atomic_plugins.Money.Check.{
  Preview, failed, overlap, row_at, earlier_row, overlap_of, meet_mine, newest_first, compare,
  file_row,
}

abbrev rent : Transaction
rent = record {
  date = "2024-04-01";
  booking_date = "2024-04-01";
  amount = "-900.00";
  code = "N012";
  reference = "NONREF";
  bank_reference = "B-1";
  description = "Rent";
}

abbrev cash : Transaction
cash = record rent {
  booking_date = "2024-04-03";
  amount = "-20";
  bank_reference = "";
  description = "Cash";
}

abbrev april : Statement
april = record {
  account = "NL01BANK";
  number = "4";
  currency = "EUR";
  opening = "1000";
  closing = "80";
  start = "2024-04-01";
  end = "2024-04-30";
  transactions = rent ∷ cash ∷ [];
}

abbrev listed : List Entry
listed = entry_of mt940 april 0 rent ∷ entry_of mt940 april 1 cash ∷ []

-- The row of an entry of the April statement that was imported from a statement with the number.
abbrev stored : Entry → Txn
stored e = record {
  subject = "s";
  account = e.statement.account;
  currency = e.statement.currency;
  amount = e.row.amount;
  value_date = e.row.date;
  booking_date = e.row.booking_date;
  description = e.row.description;
  reference = e.row.reference;
  code = e.row.code;
  statement = e.statement.number;
  source_id = e.identity;
  fingerprint = e.fingerprint;
  format = some mt940;
  category = "";
  note = "";
}

abbrev table : List Txn
table = stored (entry_of mt940 april 0 rent) ∷ []

abbrev preview : Preview
preview = record {
  format = mt940;
  statements = april ∷ [];
  fresh = file_row (entry_of mt940 april 1 cash) ∷ [];
  already = file_row (entry_of mt940 april 0 rent) ∷ [];
  without_reference = 1;
}

-- The position of the booking differs, so that its identity is new and its content is not.
overlap_of_cash :
    compare mt940
      (record april { transactions = cash ∷ [] } ∷ [])
      (stored (entry_of mt940 april 1 cash) ∷ [])
    ≡ failed (overlap "4" "NL01BANK" "2024-04-01" "2024-04-30" "2024-04-01")
unfolding compare entries row_at earlier_row overlap_of meet_mine newest_first array quote
    format_text decimal
overlap_of_cash = refl
