-- ===== src/Money/Check.antt =====
-- integrations/money/app/check.ts: a file's entries against the rows that the table already has.
pub mod Standing
pub mod Laws
mod Tests
use atomic_plugins.Prelude.{
  ℕ, zero, suc, ◌+◌, String, str_eq, Bool, true, false, not, ◌&&◌, ◌||◌, Option, none, some, List,
  [], ◌∷◌, ◌++◌, length, if◌then◌else◌,
}
use atomic_plugins.Prelude.JsText.{text_lt}
use atomic_plugins.Money.Types.{Transaction, Statement, StatementFormat, Txn}
use atomic_plugins.Money.Identity.{Entry, EntriesError, Result, ok, err, entries}

pub record FileRow : Type 0 where
  pub date : String
  pub account : String
  pub currency : String
  pub amount : String
  pub description : String
  pub reference : String

pub data Field : Type 0 where
  date amount description account : Field

pub record Changed : Type 0 where
  pub mine : Txn
  pub file : FileRow
  pub fields : List Field

-- The problems that `compare` reports: the reader's own, an overlap with the period of its
-- statement and the earlier row's value date, and the first changed row with their number.
pub data Problem : Type 0 where
  reader : EntriesError → Problem
  overlap : String → String → String → String → String → Problem
  changed_transaction : Changed → ℕ → Problem

pub record Preview : Type 0 where
  pub format : StatementFormat
  pub statements : List Statement
  pub fresh : List FileRow
  pub already : List FileRow
  pub without_reference : ℕ

pub data Check : Type 0 where
  passed : Preview → Check
  failed : Problem → Check

-- `a || b` on strings
abbrev or_text : String → String → String
or_text a b = if str_eq a "" then b else a

unfoldable pub file_row : Entry → FileRow
file_row e = record {
  date = e.row.booking_date;
  account = e.statement.account;
  currency = e.statement.currency;
  amount = e.row.amount;
  description = e.row.description;
  reference = or_text e.row.bank_reference e.row.reference;
}

-- `new Map(existing.map(row => [key(row), row])).get(k)`: a later row takes an earlier one's place.
pub row_at : (Txn → String) → String → List Txn → Option Txn
row_at key k [] = none
row_at key k (t ∷ ts) = elim (row_at key k ts) [
  | some later ↦ some later
  | none ↦ if str_eq (key t) k then some t else none
]

abbrev field_if : String → String → Field → List Field → List Field
field_if a b f rest = if str_eq a b then rest else f ∷ rest

unfoldable pub differences : Txn → FileRow → List Field
differences mine file = field_if mine.booking_date file.date date (
    field_if mine.amount file.amount amount (
      field_if mine.description file.description description
        (field_if mine.account file.account account [])))

-- The variables of the loop.
pub record Seen : Type 0 where
  pub fresh : List FileRow
  pub already : List FileRow
  pub changed : List Changed
  pub without_reference : ℕ

pub data Loop : Type 0 where
  stops : Problem → Loop
  ends : Seen → Loop

unfoldable pub overlap_of : Entry → Txn → Problem
overlap_of e earlier =
    overlap e.statement.number e.statement.account e.statement.start e.statement.end
      earlier.value_date

abbrev has_reference : Entry → Bool
has_reference e = not (str_eq e.reference "")

-- The row of the same content that an entry without a reference meets.
unfoldable pub earlier_row : List Txn → Entry → Option Txn
earlier_row existing e =
    if has_reference e then none else row_at (λ t. t.fingerprint) e.fingerprint existing

abbrev counted : Entry → Seen → Seen
counted e s =
    if has_reference e then s else record s { without_reference = s.without_reference + 1 }

unfoldable pub meet_mine : Txn → Entry → Seen → Seen
meet_mine mine e s =
    if str_eq mine.fingerprint "" || str_eq mine.fingerprint e.fingerprint
    then record s { already = s.already ++ file_row e ∷ [] }
    else record s {
      changed =
          s.changed
          ++ (record { mine = mine; file = file_row e; fields = differences mine (file_row e) })
            ∷ [];
    }

pub compare_rows : List Txn → List Entry → Seen → Loop
compare_rows existing [] s = ends s
compare_rows existing (e ∷ es) s = elim (row_at (λ t. t.source_id) e.identity existing) [
  | some mine ↦ compare_rows existing es (meet_mine mine e (counted e s))
  | none ↦ elim (earlier_row existing e) [
    | some earlier ↦ stops (overlap_of e earlier)
    | none ↦
        compare_rows existing es
          (record (counted e s) { fresh = (counted e s).fresh ++ file_row e ∷ [] })
  ]
]

-- `list.sort(newestFirst)`, which is stable
pub insert_row : FileRow → List FileRow → List FileRow
insert_row r [] = r ∷ []
insert_row r (q ∷ qs) = if text_lt r.date q.date then q ∷ insert_row r qs else r ∷ q ∷ qs

unfoldable pub newest_first : List FileRow → List FileRow
unfolding insert_row
newest_first [] = []
newest_first (r ∷ rs) = insert_row r (newest_first rs)

abbrev pub nothing_seen : Seen
nothing_seen = record { fresh = []; already = []; changed = []; without_reference = 0 }

unfoldable pub conclude : StatementFormat → List Statement → Loop → Check
conclude format statements (stops p) = failed p
conclude format statements (ends s) = elim s.changed [
  | c ∷ cs ↦ failed (changed_transaction c (length (c ∷ cs)))
  | [] ↦ passed (record {
    format = format;
    statements = statements;
    fresh = newest_first s.fresh;
    already = newest_first s.already;
    without_reference = s.without_reference;
  })
]

unfoldable pub compare : StatementFormat → List Statement → List Txn → Check
unfolding compare_rows conclude
compare format statements existing = elim (entries format statements) [
  | err e ↦ failed (reader e)
  | ok list ↦ conclude format statements (compare_rows existing list nothing_seen)
]
