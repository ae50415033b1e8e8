-- ===== src/Money/Identity.antt =====
-- integrations/money/identity.ts: import identities and content fingerprints of parsed statements.
pub mod Laws
mod Tests
use atomic_plugins.Prelude.{
  ℕ, ◌+◌, String, str_eq, Bool, true, false, not, ◌&&◌, Option, none, some, List, [], ◌∷◌, ◌++◌,
  if◌then◌else◌,
}
use atomic_plugins.Prelude.JsText.{quote, array, decimal, ◌+++◌}
use atomic_plugins.Money.Types.{Transaction, Statement, StatementFormat, format_text}

pub record Entry : Type 0 where
  pub statement : Statement
  pub row : Transaction
  pub index : ℕ
  pub identity : String
  pub fingerprint : String
  pub reference : String

-- What `entries` throws, with the reference in the error's data.
pub data EntriesError : Type 0 where
  conflicting_reference repeated_reference : String → EntriesError

pub data Result {ℓ} (A : Type ℓ) : Type ℓ where
  ok : A → Result A
  err : EntriesError → Result A

unfoldable pub statement_key : Statement → String
statement_key s =
    array (quote s.number ∷ quote s.start ∷ quote s.end ∷ quote s.opening ∷ quote s.closing ∷ [])

unfoldable pub fingerprint_of : StatementFormat → Statement → Transaction → String
fingerprint_of format s row =
    format_text format
    +++ "-content:"
    +++ array (
        quote s.account
        ∷ quote s.currency
        ∷ quote row.date
        ∷ quote row.booking_date
        ∷ quote row.amount
        ∷ quote row.code
        ∷ quote row.reference
        ∷ quote row.description
        ∷ [])

-- `''` when the bank gave none
unfoldable pub reference_of : Transaction → String
reference_of row =
    if not (str_eq row.bank_reference "") && not (str_eq row.bank_reference "NONREF")
    then row.bank_reference
    else ""

unfoldable pub identity_of : StatementFormat → Statement → ℕ → Transaction → String
unfolding statement_key reference_of
identity_of format s index row = array (
    quote (format_text format)
    ∷ quote s.account
    ∷ quote s.currency
    ∷ (if not (str_eq (reference_of row) "")
        then array (quote "bank" ∷ quote (reference_of row) ∷ [])
        else array (quote "statement" ∷ quote (statement_key s) ∷ decimal index ∷ []))
    ∷ [])

unfoldable pub entry_of : StatementFormat → Statement → ℕ → Transaction → Entry
unfolding identity_of fingerprint_of reference_of
entry_of format s index row = record {
  statement = s;
  row = row;
  index = index;
  identity = identity_of format s index row;
  fingerprint = fingerprint_of format s row;
  reference = reference_of row;
}

-- The map `seen`, from identities to fingerprints.
pub seen_at : String → List (String × String) → Option String
seen_at k [] = none
seen_at k ((j, v) ∷ m) = if str_eq j k then some v else seen_at k m

-- The variables of the loops.
pub record Reading : Type 0 where
  pub seen : List (String × String)
  pub out : List Entry

repeated : Entry → String → EntriesError
repeated e before =
    if not (str_eq before e.fingerprint)
    then conflicting_reference e.reference
    else repeated_reference e.reference

unfoldable pub add_entry : Entry → Reading → Result Reading
unfolding repeated seen_at
add_entry e r = elim (seen_at e.identity r.seen) [
  | some before ↦ err (repeated e before)
  | none ↦ ok (record { seen = (e.identity, e.fingerprint) ∷ r.seen; out = r.out ++ e ∷ [] })
]

infixl 5 ◌>>=◌
abbrev pub ◌>>=◌ {ℓ κ} : {A : Type ℓ} {B : Type κ} → Result A → (A → Result B) → Result B
ok a >>= f = f a
err e >>= f = err e

unfoldable pub read_rows :
    StatementFormat → Statement → ℕ → List Transaction → Reading → Result Reading
read_rows format s index [] r = ok r
read_rows format s index (row ∷ rows) r = do
  r' ← add_entry (entry_of format s index row) r
  read_rows format s (index + 1) rows r'

unfoldable pub read_statements : StatementFormat → List Statement → Reading → Result Reading
read_statements format [] r = ok r
read_statements format (s ∷ ss) r = do
  r' ← read_rows format s 0 s.transactions r
  read_statements format ss r'

unfoldable pub entries : StatementFormat → List Statement → Result (List Entry)
unfolding read_statements read_rows add_entry entry_of
entries format statements = do
  r ← read_statements format statements (record { seen = []; out = [] })
  ok r.out
