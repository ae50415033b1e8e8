-- ===== src/Money/Ledger/Order.antt =====
-- The order of `sortNewestFirst` in integrations/money/app/ledger.ts.
use atomic_plugins.Prelude.{
  ℕ, suc, ◌≤◌, ◌≡◌, refl, sym, ap, ◌∙◌, inl, inr, str_eq, eq_iff, Bool, false, List, [], ◌∷◌, map,
  keep, ltb, All, Pairs, Bool-cases, arith, String,
}
use atomic_plugins.Prelude.JsText.{text_lt}
use atomic_plugins.Prelude.TextOrder.{text_lt_irrefl, text_lt_asym, text_lt_trans}
use atomic_plugins.Prelude.Sorting.{
  insert_by, sort_by, IsWeakOrder, InOrder, InOrder-sort_by, All-sort_by, insert_by_first,
  keep-sort_by,
}
use atomic_plugins.Money.Types.{Txn}
use atomic_plugins.Money.Ledger.{with_index, goes_before, sort_newest_first}

-- `b` was booked after `a`.
abbrev pub newer : Txn → Txn → Bool
newer b a = text_lt a.booking_date b.booking_date

newer-IsWeakOrder : IsWeakOrder newer
newer-IsWeakOrder = record {
  asym = λ x y h. text_lt_asym y.booking_date x.booking_date h;
  trans = λ x y z h k. text_lt_trans z.booking_date y.booking_date x.booking_date k h;
}

goes_before-newer : (i j : ℕ) (a b : Txn) → i ≤ j → goes_before (j, b) (i, a) ≡ newer b a
unfolding goes_before
goes_before-newer i j a b h = elim (Bool-cases (str_eq a.booking_date b.booking_date)) [
  | inr e ↦ rw e refl
  | inl e ↦
      let same = (eq_iff a.booking_date b.booking_date).0 e in
      let late : ltb j i ≡ false = ground arith in
      rw e (late ∙ sym (ap (text_lt a.booking_date) (sym same) ∙ text_lt_irrefl a.booking_date))
]

rows_of : List (ℕ × Txn) → List Txn
rows_of = map (λ p. p.1)

rows-insert_by :
    (i : ℕ) (a : Txn) (ps : List (ℕ × Txn))
    → All (λ p. i ≤ p.0) ps
    → rows_of (insert_by goes_before (i, a) ps) ≡ insert_by newer a (rows_of ps)
unfolding insert_by rows_of
rows-insert_by i a [] h = refl
rows-insert_by i a ((j, b) ∷ ps) (p, h) = elim (Bool-cases (newer b a)) [
  | inl e ↦ rw (goes_before-newer i j a b p ∙ e, e) (ap (λ l. b ∷ l) (rows-insert_by i a ps h))
  | inr e ↦ rw (goes_before-newer i j a b p ∙ e, e) refl
]

All-with_index : (n m : ℕ) (rows : List Txn) → n ≤ m → All (λ p. n ≤ p.0) (with_index m rows)
unfolding with_index
All-with_index n m [] h = tt
All-with_index n m (r ∷ rs) h = (h, All-with_index n (suc m) rs (omega arith))

rows-sort_by :
    (n : ℕ) (rows : List Txn)
    → rows_of (sort_by goes_before (with_index n rows)) ≡ sort_by newer rows
unfolding sort_by with_index rows_of
rows-sort_by n [] = refl
rows-sort_by n (r ∷ rs) =
    rows-insert_by n r (sort_by goes_before (with_index (suc n) rs)) (
      All-sort_by goes_before (λ p. n ≤ p.0) (with_index (suc n) rs)
        (All-with_index n (suc n) rs (omega arith)))
    ∙ ap (insert_by newer r) (rows-sort_by (suc n) rs)

-- With the places of the rows in the comparison the sort is the stable one by date.
sort_newest_first-by : (rows : List Txn) → sort_newest_first rows ≡ sort_by newer rows
unfolding sort_newest_first rows_of
sort_newest_first-by rows = rows-sort_by 0 rows

-- In the sorted rows no row was booked after an earlier one.
pub sort_newest_first-InOrder : (rows : List Txn) → Pairs (InOrder newer) (sort_newest_first rows)
sort_newest_first-InOrder rows =
    rw (sort_newest_first-by rows) (InOrder-sort_by newer newer-IsWeakOrder rows)

-- Sorting the rows that any filter keeps is filtering the sorted rows.
pub keep-sort_newest_first :
    (test : Txn → Bool) (rows : List Txn)
    → keep test (sort_newest_first rows) ≡ sort_newest_first (keep test rows)
keep-sort_newest_first test rows =
    rw (sort_newest_first-by rows, sort_newest_first-by (keep test rows))
      (keep-sort_by newer newer-IsWeakOrder test rows)

none_newer :
    (r : Txn) (day : String)
    → r.booking_date ≡ day
    → (rs : List Txn) → All (InOrder newer r) (keep (λ q. str_eq q.booking_date day) rs)
none_newer r day same [] = tt
none_newer r day same (q ∷ qs) = elim (Bool-cases (str_eq q.booking_date day)) [
  | inr e ↦ rw e (none_newer r day same qs)
  | inl e ↦
      rw e
        (rw (same, (eq_iff q.booking_date day).0 e) (text_lt_irrefl day), none_newer r day same qs)
]

same_day :
    (day : String) (rows : List Txn)
    → sort_by newer (keep (λ r. str_eq r.booking_date day) rows)
      ≡ keep (λ r. str_eq r.booking_date day) rows
unfolding sort_by
same_day day [] = refl
same_day day (r ∷ rs) = elim (Bool-cases (str_eq r.booking_date day)) [
  | inr e ↦ rw e (same_day day rs)
  | inl e ↦
      rw (e, sort_by)
        (rw (same_day day rs) (
          insert_by_first newer newer-IsWeakOrder r (keep (λ q. str_eq q.booking_date day) rs)
            (none_newer r day ((eq_iff r.booking_date day).0 e) rs)))
]

-- The rows of one day stand in the order that they had.
pub sort_newest_first-day :
    (day : String) (rows : List Txn)
    → keep (λ r. str_eq r.booking_date day) (sort_newest_first rows)
      ≡ keep (λ r. str_eq r.booking_date day) rows
sort_newest_first-day day rows =
    keep-sort_newest_first (λ r. str_eq r.booking_date day) rows
    ∙ sort_newest_first-by (keep (λ r. str_eq r.booking_date day) rows)
    ∙ same_day day rows
