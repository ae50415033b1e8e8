-- ===== src/Money/Identity/Laws.antt =====
-- `entries` of integrations/money/identity.ts against the list of all bookings.
use mathlib.Core.List.{append-nil, append_assoc}
use atomic_plugins.Prelude.{
  ℕ, ◌+◌, ◌≡◌, ◌≢◌, refl, sym, ap, ◌∙◌, subst, ◌↔◌, inl, inr, String, str_eq, eq_iff, none, some,
  List, [], ◌∷◌, ◌++◌, arith, All, All-append, All-left, All-right, Pairs, Pairs_snoc, Bool-cases,
  Option-cases,
}
use atomic_plugins.Money.Types.{Transaction, Statement, StatementFormat}
use atomic_plugins.Money.Identity.{
  Entry, Result, ok, err, entry_of, seen_at, Reading, add_entry, read_rows, read_statements,
  entries, ◌>>=◌,
}

-- Independent of the loop and its map: the entries of all bookings, in the file's order.
pub rows_of : StatementFormat → Statement → ℕ → List Transaction → List Entry
rows_of format s index [] = []
rows_of format s index (row ∷ rows) =
    entry_of format s index row ∷ rows_of format s (index + 1) rows

pub all_of : StatementFormat → List Statement → List Entry
all_of format [] = []
all_of format (s ∷ ss) = rows_of format s 0 s.transactions ++ all_of format ss

-- No identity stands twice.
abbrev pub Distinct : List Entry → Type 0
Distinct = Pairs λ a b. a.identity ≢ b.identity

add_all : List Entry → Reading → Result Reading
add_all [] r = ok r
add_all (e ∷ es) r = add_entry e r >>= add_all es

bind_assoc :
    (m : Result Reading) (f g : Reading → Result Reading) → (m >>= f >>= g) ≡ (m >>= λ r. f r >>= g)
bind_assoc (ok r) f g = refl
bind_assoc (err e) f g = refl

bind_path :
    (m : Result Reading) (f g : Reading → Result Reading)
    → ((r : Reading) → f r ≡ g r)
    → (m >>= f) ≡ (m >>= g)
bind_path (ok r) f g h = h r
bind_path (err e) f g h = refl

add_all-append :
    (es fs : List Entry) (r : Reading) → add_all (es ++ fs) r ≡ (add_all es r >>= add_all fs)
unfolding add_all
add_all-append [] fs r = refl
add_all-append (e ∷ es) fs r =
    bind_path (add_entry e r) (add_all (es ++ fs)) (λ q. add_all es q >>= add_all fs)
      (λ q. add_all-append es fs q)
    ∙ sym (bind_assoc (add_entry e r) (add_all es) (add_all fs))

read_rows-add_all :
    (format : StatementFormat) (s : Statement) (index : ℕ) (rows : List Transaction) (r : Reading)
    → read_rows format s index rows r ≡ add_all (rows_of format s index rows) r
unfolding read_rows add_all rows_of
read_rows-add_all format s index [] r = refl
read_rows-add_all format s index (row ∷ rows) r =
    bind_path (add_entry (entry_of format s index row) r) (read_rows format s (index + 1) rows)
      (add_all (rows_of format s (index + 1) rows))
      (λ q. read_rows-add_all format s (index + 1) rows q)

read_statements-add_all :
    (format : StatementFormat) (ss : List Statement) (r : Reading)
    → read_statements format ss r ≡ add_all (all_of format ss) r
unfolding read_statements all_of add_all
read_statements-add_all format [] r = refl
read_statements-add_all format (s ∷ ss) r =
    ap (λ m. m >>= read_statements format ss) (read_rows-add_all format s 0 s.transactions r)
    ∙ bind_path (add_all (rows_of format s 0 s.transactions) r) (read_statements format ss)
        (add_all (all_of format ss)) (λ q. read_statements-add_all format ss q)
    ∙ sym (add_all-append (rows_of format s 0 s.transactions) (all_of format ss) r)

-- The map holds the identities of the entries so far.
abbrev IsFresh : String → List Entry → Type 0
IsFresh k es = All (λ e. e.identity ≢ k) es

abbrev Fits : Reading → Type 0
Fits r = (k : String) → (seen_at k r.seen ≡ none) ↔ IsFresh k r.out

seen_at-cons :
    (k j v : String) (m : List (String × String))
    → (seen_at k ((j, v) ∷ m) ≡ none) ↔ ((j ≢ k) × (seen_at k m ≡ none))
unfolding seen_at
seen_at-cons k j v m = elim (Bool-cases (str_eq j k)) [
  | inl same ↦ rw same ((λ e. cc), λ e. absurd (e.0 ((eq_iff j k).0 same)))
  | inr other ↦ rw other ((λ e. ((λ q. ground (arith, eq_iff j k)), e)), λ e. e.1)
]

add_entry-new :
    (e : Entry) (r : Reading)
    → Fits r
    → IsFresh e.identity r.out
    → (r' : Reading) × (add_entry e r ≡ ok r') × (r'.out ≡ r.out ++ e ∷ []) × Fits r'
unfolding add_entry
add_entry-new e r f h = (
  record { seen = (e.identity, e.fingerprint) ∷ r.seen; out = r.out ++ e ∷ [] },
  rw ((f e.identity).1 h, add_entry),
  refl,
  λ k. (
    λ q.
        let (n, z) = (seen_at-cons k e.identity e.fingerprint r.seen).0 q in
        All-append (λ x. x.identity ≢ k) r.out (e ∷ []) ((f k).0 z) (n, tt),
    λ q. (seen_at-cons k e.identity e.fingerprint r.seen).1 (
      (All-right (λ x. x.identity ≢ k) r.out (e ∷ []) q).0,
      (f k).1 (All-left (λ x. x.identity ≢ k) r.out (e ∷ []) q),
    ),
  ),
)

refused :
    (e : Entry) (r r' : Reading) (before : String)
    → seen_at e.identity r.seen ≡ some before
    → add_entry e r ≢ ok r'
unfolding add_entry
refused e r r' before found h = ground (arith, found)

add_entry-old :
    (e : Entry) (r r' : Reading) → Fits r → add_entry e r ≡ ok r' → IsFresh e.identity r.out
unfolding add_entry
add_entry-old e r r' f h = elim (Option-cases (seen_at e.identity r.seen)) [
  | inl free ↦ (f e.identity).0 free
  | inr (before, found) ↦ absurd (refused e r r' before found h)
]

IsFresh-before :
    (xs : List Entry) (e : Entry) (es : List Entry)
    → Distinct (xs ++ e ∷ es)
    → IsFresh e.identity xs
IsFresh-before [] e es d = tt
IsFresh-before (x ∷ xs) e es (p, d) =
    ((All-right (λ b. x.identity ≢ b.identity) xs (e ∷ es) p).0, IsFresh-before xs e es d)

-- A list of entries whose identities are all new is taken whole.
add_all-Distinct :
    (es : List Entry) (r : Reading)
    → Fits r
    → Distinct (r.out ++ es)
    → (r' : Reading) × (add_all es r ≡ ok r') × (r'.out ≡ r.out ++ es)
unfolding add_all
add_all-Distinct [] r f d = (r, refl, sym (append-nil r.out))
add_all-Distinct (e ∷ es) r f d =
    let (r', taken, out, f') = add_entry-new e r f (IsFresh-before r.out e es d) in
    let (r'', rest, out') = add_all-Distinct es r' f' (rw (out, append_assoc) d) in
    (r'', rw (taken, add_all) rest, out' ∙ rw out (append_assoc r.out (e ∷ []) es))

out_of : Result Reading → List Entry
out_of (ok r) = r.out
out_of (err e) = []

bind-eq-ok :
    (m : Result Reading) (f : Reading → Result Reading) {b : Reading}
    → (m >>= f) ≡ ok b
    → (a : Reading) × (m ≡ ok a) × (f a ≡ ok b)
bind-eq-ok (ok a) f h = (a, refl, h)
bind-eq-ok (err e) f h = cc

add_all-ok :
    (es : List Entry) (r r' : Reading)
    → Fits r
    → Distinct r.out
    → add_all es r ≡ ok r'
    → (r'.out ≡ r.out ++ es) × Distinct (r.out ++ es)
unfolding add_all out_of
add_all-ok [] r r' f d h = (ap out_of (sym h) ∙ sym (append-nil r.out), rw append-nil d)
add_all-ok (e ∷ es) r r' f d h =
    let (q, first, rest) = bind-eq-ok (add_entry e r) (add_all es) h in
    let free = add_entry-old e r q f first in
    let (q', first', out, f') = add_entry-new e r f free in
    let same : q ≡ q' = ground (arith, first, first') in
    let (out', d') =
      add_all-ok es q r' (rw same f')
        (rw (same, out) (Pairs_snoc (λ a b. a.identity ≢ b.identity) r.out e d free)) rest in
    let regroup : q.out ++ es ≡ r.out ++ e ∷ es =
      ap (λ l. l ++ es) (ap (λ x. x.out) same ∙ out) ∙ append_assoc r.out (e ∷ []) es in
    (out' ∙ regroup, subst Distinct regroup d')

abbrev at_start : Reading
at_start = record { seen = []; out = [] }

at_start-Fits : Fits at_start
unfolding seen_at
at_start-Fits k = (λ e. tt, λ e. refl)

to_entries : Result Reading → Result (List Entry)
to_entries m = m >>= λ r. ok r.out

entries-add_all :
    (format : StatementFormat) (ss : List Statement)
    → entries format ss ≡ to_entries (add_all (all_of format ss) at_start)
unfolding entries to_entries
entries-add_all format ss = ap to_entries (read_statements-add_all format ss at_start)

out_path : {es fs : List Entry} → ok es ≡ ok fs → es ≡ fs
out_path h = cc

entries_sound :
    (format : StatementFormat) (ss : List Statement) (es : List Entry)
    → entries format ss ≡ ok es
    → (es ≡ all_of format ss) × Distinct es
unfolding to_entries
entries_sound format ss es h = taken (add_all (all_of format ss) at_start) refl
  where
    taken :
        (m : Result Reading)
        → add_all (all_of format ss) at_start ≡ m
        → (es ≡ all_of format ss) × Distinct es
    taken (err e) q =
        let wrong : err e ≡ ok es = sym (entries-add_all format ss ∙ ap to_entries q) ∙ h in cc
    taken (ok r) q =
        let (out, d) = add_all-ok (all_of format ss) at_start r at_start-Fits tt q in
        let same : r.out ≡ es = out_path (sym (entries-add_all format ss ∙ ap to_entries q) ∙ h) in
        (sym same ∙ out, subst Distinct (sym out ∙ same) d)

-- `entries` returns exactly the list of all bookings of the file, each with its identity, and it
-- does so exactly when no identity stands twice: else it refuses the file.
pub entries_iff :
    (format : StatementFormat) (ss : List Statement) (es : List Entry)
    → (entries format ss ≡ ok es) ↔ ((es ≡ all_of format ss) × Distinct es)
unfolding to_entries
entries_iff format ss es = (
  entries_sound format ss es,
  λ h.
      let (r, done, out) =
        add_all-Distinct (all_of format ss) at_start at_start-Fits (subst Distinct h.0 h.1) in
      entries-add_all format ss ∙ ap to_entries done ∙ ap ok (out ∙ sym h.0),
)
