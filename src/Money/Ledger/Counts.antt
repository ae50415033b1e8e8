-- ===== src/Money/Ledger/Counts.antt =====
-- The counts of `accounts` in integrations/money/app/ledger.ts.
use native.Mathlib.Nat.{add-zero}
use atomic_plugins.Prelude.{
  ℕ, suc, ◌+◌, ◌≡◌, ◌≢◌, refl, sym, ap, ◌∙◌, inl, inr, String, str_eq, eq_iff, none, some, List, [],
  ◌∷◌, map, keep, length, All, All-map, All_weaken, Pairs, Pairs_weaken, ◌≤◌, Bool-cases, arith,
}
use atomic_plugins.Prelude.Sorting.{
  sort_by, IsWeakOrder, InOrder, InOrder-sort_by, All-sort_by, Pairs-sort_by, total, total-sort_by,
}
use atomic_plugins.Prelude.Grouping.{
  find, put, group, gather, OnceEach, found, find-group, group-OnceEach,
}
use atomic_plugins.Money.Types.{Txn}
use atomic_plugins.Money.Ledger.{AccountOption, row_key, count_row, has_more, accounts}

abbrev pub of_key : String → List Txn → List Txn
of_key k = keep λ r. str_eq (row_key r) k

has_more-IsWeakOrder : IsWeakOrder has_more
has_more-IsWeakOrder = record { asym = λ x y h. ground arith; trans = λ x y z h k. ground arith }

InOrder-le : (a b : AccountOption) → InOrder has_more a b → b.count ≤ a.count
InOrder-le a b h = ground arith

gather-some :
    (rs : List Txn) (o : AccountOption)
    → gather row_key count_row rs (some o) ≡ some (record o { count = o.count + length rs })
unfolding gather
gather-some [] o = ap (λ n. some (record o { count = n })) (sym (add-zero o.count))
gather-some (r ∷ rs) o =
    gather-some rs (record o { count = o.count + 1 })
    ∙ ap (λ n. some (record o { count = n })) (omega arith)

-- The option that counts the rows of its key.
abbrev pub Counts : List Txn → AccountOption → Type 0
Counts rows o = o.count ≡ length (of_key o.key rows)

All-of_key : (k : String) (rows : List Txn) → All (λ r. row_key r ≡ k) (of_key k rows)
All-of_key k [] = tt
All-of_key k (r ∷ rs) = elim (Bool-cases (str_eq (row_key r) k)) [
  | inl e ↦ rw e ((eq_iff (row_key r) k).0 e, All-of_key k rs)
  | inr e ↦ rw e (All-of_key k rs)
]

option_path : {o p : AccountOption} → some o ≡ some p → o ≡ p
option_path h = cc

gathered :
    (k : String) (rs : List Txn)
    → All (λ r. row_key r ≡ k) rs
    → (o : AccountOption) → gather row_key count_row rs none ≡ some o
    → (o.key ≡ k) × (o.count ≡ length rs)
unfolding gather
gathered k [] h o e = cc
gathered k (r ∷ rs) (same, h) o e =
    let is = option_path (sym (gather-some rs (count_row r none)) ∙ e) in
    let one_more : 1 + length rs ≡ suc (length rs) = omega arith in
    (sym (ap (λ x. x.key) is) ∙ same, sym (ap (λ x. x.count) is) ∙ one_more)

counted_entry :
    (rows : List Txn) (e : String × AccountOption)
    → find e.0 (group row_key count_row rows []) ≡ some e.1
    → (e.1.key ≡ e.0) × Counts rows e.1
unfolding find
counted_entry rows e h =
    let (named, count) =
      gathered e.0 (of_key e.0 rows) (All-of_key e.0 rows) e.1
        (sym (find-group row_key count_row e.0 rows []) ∙ h) in
    (named, rw named count)

keys_apart :
    (m : List (String × AccountOption))
    → OnceEach m
    → All (λ e. e.1.key ≡ e.0) m
    → Pairs (λ a b. a.key ≢ b.key) (map (λ e. e.1) m)
keys_apart [] h n = tt
keys_apart (e ∷ m) (p, h) (q, n) = (apart m p n, keys_apart m h n)
  where
    apart :
        (l : List (String × AccountOption))
        → All (λ d. e.0 ≢ d.0) l
        → All (λ d. d.1.key ≡ d.0) l
        → All (λ b. e.1.key ≢ b.key) (map (λ d. d.1) l)
    apart [] z w = tt
    apart (d ∷ l) (z, zs) (w, ws) = ((λ same. z (sym q ∙ same ∙ w)), apart l zs ws)

sum : List (String × AccountOption) → ℕ
sum [] = 0
sum (e ∷ m) = e.1.count + sum m

sum-put :
    (r : Txn) (m : List (String × AccountOption))
    → sum (put (row_key r) (count_row r) m) ≡ sum m + 1
unfolding put sum
sum-put r [] = refl
sum-put r ((j, o) ∷ m) = elim (Bool-cases (str_eq j (row_key r))) [
  | inl e ↦ rw e (omega arith)
  | inr e ↦ rw e (omega (arith, sum-put r m))
]

sum-group :
    (rs : List Txn) (m : List (String × AccountOption))
    → sum (group row_key count_row rs m) ≡ sum m + length rs
unfolding group
sum-group [] m = omega arith
sum-group (r ∷ rs) m = omega (arith, sum-group rs (put (row_key r) (count_row r) m), sum-put r m)

sum-all : (rows : List Txn) → sum (group row_key count_row rows []) ≡ length rows
unfolding sum
sum-all rows = omega (arith, sum-group rows [])

abbrev pub total_count : List AccountOption → ℕ
total_count = total has_more λ o. o.count

total-sum : (m : List (String × AccountOption)) → total_count (map (λ e. e.1) m) ≡ sum m
unfolding sum
total-sum [] = refl
total-sum (e ∷ m) = omega (arith, total-sum m)

-- Each option of `accounts` counts the rows of its key, no key stands twice, no option counts more
-- rows than one before it, and the counts add up to the number of rows, so that no row is left out.
pub accounts_lem :
    (rows : List Txn)
    → All (Counts rows) (accounts rows)
      × Pairs (λ a b. a.key ≢ b.key) (accounts rows)
      × Pairs (λ a b. b.count ≤ a.count) (accounts rows)
      × (total_count (accounts rows) ≡ length rows)
unfolding accounts
accounts_lem rows =
    let m = group row_key count_row rows [] in
    let once = group-OnceEach row_key count_row rows [] tt in
    let both =
      All_weaken (λ e. find e.0 m ≡ some e.1) (λ e. (e.1.key ≡ e.0) × Counts rows e.1)
        (counted_entry rows) m (found m once) in
    (
      All-sort_by has_more (Counts rows) (map (λ e. e.1) m) (
          All-map (Counts rows) (λ e. e.1) m
            (All_weaken (λ e. (e.1.key ≡ e.0) × Counts rows e.1) (λ e. Counts rows e.1) (λ e h. h.1)
              m both)),
      Pairs-sort_by has_more (λ a b. a.key ≢ b.key) (λ a b n q. n (sym q)) (map (λ e. e.1) m)
          (keys_apart m once (
            All_weaken (λ e. (e.1.key ≡ e.0) × Counts rows e.1) (λ e. e.1.key ≡ e.0) (λ e h. h.0) m
              both)),
      Pairs_weaken (InOrder has_more) (λ a b. b.count ≤ a.count) InOrder-le
          (sort_by has_more (map (λ e. e.1) m))
          (InOrder-sort_by has_more has_more-IsWeakOrder (map (λ e. e.1) m)),
      total-sort_by has_more (λ o. o.count) (map (λ e. e.1) m) ∙ total-sum m ∙ sum-all rows,
    )
