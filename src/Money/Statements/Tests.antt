-- ===== src/Money/Statements/Tests.antt =====
-- Three rows of two statements.
use atomic_plugins.Prelude.{ℕ, String, ◌≡◌, refl, some, List, [], ◌∷◌, map, All}
use atomic_plugins.Prelude.JsText.{text_lt, quote, array}
use atomic_plugins.Prelude.Grouping.{group, put}
use atomic_plugins.Money.Types.{Txn, mt940, format_text}
use atomic_plugins.Money.Statements.{statements_of, statement_id}
use atomic_plugins.Money.Statements.Laws.{IsMadeOf, of_id, total_entries, statements_of-IsMadeOf}

abbrev row : String → String → Txn
row statement date = record {
  subject = "s";
  account = "NL1";
  currency = "EUR";
  amount = "1";
  value_date = date;
  booking_date = date;
  description = "";
  reference = "";
  code = "";
  statement = statement;
  source_id = "";
  fingerprint = "";
  format = some mt940;
  category = "";
  note = "";
}

abbrev rows : List Txn
rows = row "1" "2024-01-05" ∷ row "2" "2024-02-01" ∷ row "1" "2024-01-02" ∷ []

spans :
    map {B = String × String × ℕ} (λ e. (e.start, e.end, e.entries)) (statements_of rows)
    ≡ ("2024-01-02", "2024-01-05", 2) ∷ ("2024-02-01", "2024-02-01", 1) ∷ []
unfolding statements_of statement_id group put text_lt quote array format_text
spans = refl

statements_of-IsMadeOf_example :
    All (λ e. (k : String) × IsMadeOf (of_id k rows) e) (statements_of rows)
    × (total_entries (statements_of rows) ≡ 3)
statements_of-IsMadeOf_example = statements_of-IsMadeOf rows
