-- ===== src/Money/Statements.antt =====
-- `importedStatements` of integrations/money/app/ledger.ts, up to its sort: the rows of the table by
-- the statement that they came from. The comparison of the sort gives two statements of one
-- account that end on one day no fixed order, so the order is left out.
pub mod Laws
mod Tests
use atomic_plugins.Prelude.{
  ℕ, ◌+◌, String, Option, none, some, List, [], ◌∷◌, ◌++◌, map, if◌then◌else◌,
}
use atomic_plugins.Prelude.JsText.{text_lt, quote, array}
use atomic_plugins.Prelude.Grouping.{group}
use atomic_plugins.Money.Types.{StatementFormat, format_text, Txn}

pub record StatementKey : Type 0 where
  pub account : String
  pub currency : String
  pub statement : String
  pub format : Option StatementFormat

pub record ImportedStatement : Type 0 where
  pub key : StatementKey
  pub entries : ℕ
  pub start : String
  pub end : String
  pub rows : List Txn

abbrev format_or_empty : Option StatementFormat → String
format_or_empty none = ""
format_or_empty (some f) = format_text f

unfoldable pub statement_id : Txn → String
statement_id r =
    array (
      quote (format_or_empty r.format)
      ∷ quote r.account
      ∷ quote r.currency
      ∷ quote r.statement
      ∷ [])

abbrev pub opened : Txn → ImportedStatement
opened r = record {
  key = record {
    account = r.account;
    currency = r.currency;
    statement = r.statement;
    format = r.format;
  };
  entries = 0;
  start = r.booking_date;
  end = r.booking_date;
  rows = [];
}

unfoldable pub with_row : Txn → ImportedStatement → ImportedStatement
with_row r e = record e {
  entries = e.entries + 1;
  rows = e.rows ++ r ∷ [];
  start = if text_lt r.booking_date e.start then r.booking_date else e.start;
  end = if text_lt e.end r.booking_date then r.booking_date else e.end;
}

abbrev pub add_statement : Txn → Option ImportedStatement → ImportedStatement
add_statement r none = with_row r (opened r)
add_statement r (some e) = with_row r e

unfoldable pub statements_of : List Txn → List ImportedStatement
unfolding with_row
statements_of rows = map (λ e. e.1) (group statement_id add_statement rows [])
