-- ===== src/Money/Check/Laws.antt =====
-- `compare` of integrations/money/app/check.ts against a reading of each entry by itself.
use atomic_plugins.Prelude.{List}
use atomic_plugins.Money.Types.{Statement, StatementFormat, Txn}
use atomic_plugins.Money.Identity.{Entry}
use atomic_plugins.Money.Check.{Preview, newest_first}
use atomic_plugins.Money.Check.Standing.{Standing, fresh_test, already_test, rows_of, unreferenced}

-- The preview of a file none of whose entries is changed or overlaps.
abbrev pub preview_of : StatementFormat → List Statement → List Txn → List Entry → Preview
preview_of format statements existing es = record {
  format = format;
  statements = statements;
  fresh = newest_first (rows_of existing fresh_test es);
  already = newest_first (rows_of existing already_test es);
  without_reference = unreferenced es;
}
