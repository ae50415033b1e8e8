-- ===== src/Money/Statements/Laws.antt =====
-- The rows, numbers and spans of the statements of integrations/money/app/ledger.ts.
use mathlib.Core.List.{append-nil, append_assoc}
use atomic_plugins.Prelude.{
  ℕ, ◌+◌, ◌≡◌, refl, sym, ap, ◌∙◌, subst, inl, inr, String, str_eq, false, none, some, List, [],
  ◌∷◌, ◌++◌, map, keep, length, length-append, All, All-append, All-map, All_weaken, Bool-cases,
  if◌then◌else◌, arith,
}
use atomic_plugins.Prelude.JsText.{text_lt}
use atomic_plugins.Prelude.TextOrder.{text_lt_irrefl, text_lt_asym, text_lt_trans}
use atomic_plugins.Prelude.Grouping.{find, put, group, gather, found, find-group, group-OnceEach}
use atomic_plugins.Money.Types.{Txn}
use atomic_plugins.Money.Statements.{
  ImportedStatement, statement_id, opened, with_row, add_statement, statements_of,
}

-- The booking date lies between the texts.
abbrev pub Within : String → String → Txn → Type 0
Within start end r = (text_lt r.booking_date start ≡ false) × (text_lt end r.booking_date ≡ false)

-- The statement has these rows in this order, with their number, and spans their dates.
pub record IsMadeOf (rs : List Txn) (e : ImportedStatement) : Type 0 where
  pub rows : e.rows ≡ rs
  pub entries : e.entries ≡ length rs
  pub span : All (Within e.start e.end) rs

earlier : (day start : String) → String
earlier day start = if text_lt day start then day else start

later : (day end : String) → String
later day end = if text_lt end day then day else end

before_both :
    (day start q : String) → text_lt q start ≡ false → text_lt q (earlier day start) ≡ false
unfolding earlier
before_both day start q h = elim (Bool-cases (text_lt day start)) [
  | inl e ↦ rw e (text_lt_trans day start q (text_lt_asym day start e) h)
  | inr e ↦ rw e h
]

after_both : (day end q : String) → text_lt end q ≡ false → text_lt (later day end) q ≡ false
unfolding later
after_both day end q h = elim (Bool-cases (text_lt end day)) [
  | inl e ↦ rw e (text_lt_trans q end day h (text_lt_asym end day e))
  | inr e ↦ rw e h
]

own_start : (day start : String) → text_lt day (earlier day start) ≡ false
unfolding earlier
own_start day start = elim (Bool-cases (text_lt day start)) [
  | inl e ↦ rw e (text_lt_irrefl day)
  | inr e ↦ rw (e, e) refl
]

own_end : (day end : String) → text_lt (later day end) day ≡ false
unfolding later
own_end day end = elim (Bool-cases (text_lt end day)) [
  | inl e ↦ rw e (text_lt_irrefl day)
  | inr e ↦ rw (e, e) refl
]

with_row-IsMadeOf :
    (r : Txn) (rs : List Txn) (e : ImportedStatement)
    → IsMadeOf rs e
    → IsMadeOf (rs ++ r ∷ []) (with_row r e)
unfolding with_row earlier later
with_row-IsMadeOf r rs e h = record {
  rows = ap (λ l. l ++ r ∷ []) h.rows;
  entries = omega (arith, h.entries, length-append rs (r ∷ []));
  span =
      All-append (Within (with_row r e).start (with_row r e).end) rs (r ∷ [])
        (All_weaken (Within e.start e.end) (Within (with_row r e).start (with_row r e).end)
          (λ q w. (
            before_both r.booking_date e.start q.booking_date w.0,
            after_both r.booking_date e.end q.booking_date w.1,
          ))
          rs h.span)
        ((own_start r.booking_date e.start, own_end r.booking_date e.end), tt);
}

opened-IsMadeOf : (r : Txn) → IsMadeOf [] (opened r)
opened-IsMadeOf r = record { rows = refl; entries = refl; span = tt }

statement_path : {e e' : ImportedStatement} → some e ≡ some e' → e ≡ e'
statement_path h = cc

gather-IsMadeOf :
    (rs pre : List Txn) (e e' : ImportedStatement)
    → IsMadeOf pre e
    → gather statement_id add_statement rs (some e) ≡ some e'
    → IsMadeOf (pre ++ rs) e'
unfolding gather
gather-IsMadeOf [] pre e e' h q =
    subst (IsMadeOf (pre ++ [])) (statement_path q)
      (subst (λ l. IsMadeOf l e) (sym (append-nil pre)) h)
gather-IsMadeOf (r ∷ rs) pre e e' h q =
    subst (λ l. IsMadeOf l e') (append_assoc pre (r ∷ []) rs)
      (gather-IsMadeOf rs (pre ++ r ∷ []) (with_row r e) e' (with_row-IsMadeOf r pre e h) q)

gathered-IsMadeOf :
    (rs : List Txn) (e : ImportedStatement)
    → gather statement_id add_statement rs none ≡ some e
    → IsMadeOf rs e
unfolding gather
gathered-IsMadeOf [] e q = cc
gathered-IsMadeOf (r ∷ rs) e q =
    gather-IsMadeOf rs (r ∷ []) (with_row r (opened r)) e
      (with_row-IsMadeOf r [] (opened r) (opened-IsMadeOf r)) q

abbrev pub of_id : String → List Txn → List Txn
of_id k = keep λ r. str_eq (statement_id r) k

abbrev pub total_entries : List ImportedStatement → ℕ
total_entries [] = 0
total_entries (e ∷ es) = e.entries + total_entries es

total : List (String × ImportedStatement) → ℕ
total m = total_entries (map (λ e. e.1) m)

total-put :
    (r : Txn) (m : List (String × ImportedStatement))
    → total (put (statement_id r) (add_statement r) m) ≡ total m + 1
unfolding put total with_row
total-put r [] = refl
total-put r ((j, e) ∷ m) = elim (Bool-cases (str_eq j (statement_id r))) [
  | inl q ↦ rw q (omega arith)
  | inr q ↦ rw q (omega (arith, total-put r m))
]

total-group :
    (rs : List Txn) (m : List (String × ImportedStatement))
    → total (group statement_id add_statement rs m) ≡ total m + length rs
unfolding group
total-group [] m = omega arith
total-group (r ∷ rs) m =
    omega (arith, total-group rs (put (statement_id r) (add_statement r) m), total-put r m)

total-statements_of : (rows : List Txn) → total_entries (statements_of rows) ≡ length rows
unfolding statements_of total
total-statements_of rows = omega (arith, total-group rows [])

made : (rows : List Txn) → All (λ e. (k : String) × IsMadeOf (of_id k rows) e) (statements_of rows)
unfolding statements_of find
made rows =
    let m = group statement_id add_statement rows [] in
    let once = group-OnceEach statement_id add_statement rows [] tt in
    All-map (λ e. (k : String) × IsMadeOf (of_id k rows) e) (λ e. e.1) m
      (All_weaken (λ e. find e.0 m ≡ some e.1) (λ e. (k : String) × IsMadeOf (of_id k rows) e.1)
        (λ e h. (
          e.0,
          gathered-IsMadeOf (of_id e.0 rows) e.1
              (sym (find-group statement_id add_statement e.0 rows []) ∙ h),
        ))
        m (found m once))

-- Each statement that the rows came from has all rows of one identity, in the order of the table,
-- with their number, and the dates of its rows lie between its start and its end. The numbers add
-- up to the number of rows.
pub statements_of-IsMadeOf :
    (rows : List Txn)
    → All (λ e. (k : String) × IsMadeOf (of_id k rows) e) (statements_of rows)
      × (total_entries (statements_of rows) ≡ length rows)
statements_of-IsMadeOf rows = (made rows, total-statements_of rows)
