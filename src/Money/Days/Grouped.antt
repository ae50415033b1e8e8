-- ===== src/Money/Days/Grouped.antt =====
-- `groupByDay` of integrations/money/app/amounts.ts.
use mathlib.Core.List.{append_assoc, append-nil}
use mathlib.Core.Option.{some-injective, none-ne-some}
use atomic_plugins.Prelude.{
  ℕ, ◌+◌, String, false, none, some, List, [], ◌∷◌, ◌++◌, map, keep, length, length-append, str_eq,
  ◌≡◌, ◌≢◌, refl, sym, ap, subst, ◌∙◌, inl, inr, Bool-cases, Option-cases, All, All_weaken, Pairs,
  arith,
}
use atomic_plugins.Prelude.Grouping.{find, put, group, gather, found, find-group, group-OnceEach}
use atomic_plugins.Prelude.JsText.{text_lt}
use atomic_plugins.Prelude.TextOrder.{text_lt_asym, text_lt_trans}
use atomic_plugins.Prelude.Sorting.{
  sort_by, IsWeakOrder, InOrder-sort_by, All-sort_by, Pairs-sort_by, total, total-sort_by,
}
use atomic_plugins.Money.Days.{
  Row, sum_by_currency, Day, day_key, add_to_day, newer_day, with_day, days_of, group_by_day,
}

abbrev pub of_day : String → List Row → List Row
of_day date = keep λ r. str_eq r.booking_date date

gather-some : (rs l : List Row) → gather day_key add_to_day rs (some l) ≡ some (l ++ rs)
unfolding gather
gather-some [] l = ap some (sym (append-nil l))
gather-some (r ∷ rs) l = gather-some rs (l ++ r ∷ []) ∙ ap some (append_assoc l (r ∷ []) rs)

gathered : (rs l : List Row) → some l ≡ gather day_key add_to_day rs none → l ≡ rs
unfolding gather
gathered [] l h = absurd (cc)
gathered (r ∷ rs) l h = some-injective _ _ (h ∙ gather-some rs (r ∷ []))

abbrev groups : List Row → List (String × List Row)
groups rows = group day_key add_to_day rows []

groups-of_day : (rows : List Row) → All (λ e. e.1 ≡ of_day e.0 rows) (groups rows)
unfolding find
groups-of_day rows =
    All_weaken (λ e. find e.0 (groups rows) ≡ some e.1) (λ e. e.1 ≡ of_day e.0 rows)
      (λ e k. gathered (of_day e.0 rows) e.1 (sym k ∙ find-group day_key add_to_day e.0 rows []))
      (groups rows) (found (groups rows) (group-OnceEach day_key add_to_day rows [] tt))

abbrev rows_in : List (String × List Row) → ℕ
rows_in = total newer_day λ e. length e.1

rows_in-put :
    (r : Row) (m : List (String × List Row))
    → rows_in (put (day_key r) (add_to_day r) m) ≡ rows_in m + 1
unfolding put
rows_in-put r [] = refl
rows_in-put r ((j, l) ∷ m) = elim (Bool-cases (str_eq j (day_key r))) [
  | inl e ↦ rw e (omega (arith, length-append l (r ∷ [])))
  | inr e ↦ rw e (omega (arith, rows_in-put r m))
]

rows_in-group :
    (rs : List Row) (m : List (String × List Row))
    → rows_in (group day_key add_to_day rs m) ≡ rows_in m + length rs
unfolding group
rows_in-group [] m = omega arith
rows_in-group (r ∷ rs) m =
    omega (arith, rows_in-group rs (put (day_key r) (add_to_day r) m), rows_in-put r m)

rows_in_all : (rows : List Row) → rows_in (groups rows) ≡ length rows
rows_in_all rows = omega (arith, rows_in-group rows [])

newer_day-IsWeakOrder : IsWeakOrder newer_day
newer_day-IsWeakOrder = record {
  asym = λ x y h. text_lt_asym y.0 x.0 h;
  trans = λ x y z h k. text_lt_trans z.0 y.0 x.0 k h;
}

abbrev pub rows_of : List Day → ℕ
rows_of [] = 0
rows_of (d ∷ days) = length d.rows + rows_of days

-- The days are made of the groups, each with its sums.
abbrev entry_of : Day → String × List Row
entry_of d = (d.date, d.rows)

abbrev HasNet : Day → Type 0
HasNet d = sum_by_currency d.rows ≡ some d.net

days_of_lem :
    (es : List (String × List Row)) (days : List Day)
    → days_of es ≡ some days
    → (map entry_of days ≡ es) × All HasNet days
unfolding days_of
days_of_lem [] days h =
    subst (λ l. (map entry_of l ≡ []) × All HasNet l) (some-injective [] days h) (refl, tt)
days_of_lem (e ∷ es) days h = elim (Option-cases (sum_by_currency e.1)) [
  | inl k ↦ absurd (none-ne-some days (sym (ap (λ o. with_day e o (days_of es)) k) ∙ h))
  | inr (net, k) ↦ elim (Option-cases (days_of es)) [
    | inl j ↦ absurd (
        none-ne-some days
          (sym (ap (λ o. with_day e o (days_of es)) k ∙ ap (with_day e (some net)) j) ∙ h))
    | inr (rest, j) ↦
        let is =
          some-injective _ days
            (sym (ap (λ o. with_day e o (days_of es)) k ∙ ap (with_day e (some net)) j) ∙ h) in
        let ih = days_of_lem es rest j in
        subst (λ l. (map entry_of l ≡ e ∷ es) × All HasNet l) is (ap (λ t. e ∷ t) ih.0, (k, ih.1))
  ]
]

module _ (P : String × List Row → Type 0) where
  All_entries : (days : List Day) → All P (map entry_of days) → All (λ d. P (entry_of d)) days
  All_entries [] h = tt
  All_entries (d ∷ days) (p, h) = (p, All_entries days h)

module _ (R : String × List Row → String × List Row → Type 0) where
  Pairs_entries :
      (days : List Day)
      → Pairs R (map entry_of days)
      → Pairs (λ c d. R (entry_of c) (entry_of d)) days
  Pairs_entries [] h = tt
  Pairs_entries (d ∷ days) (p, h) = (All_entries (R (entry_of d)) days p, Pairs_entries days h)

rows_of-rows_in : (days : List Day) → rows_of days ≡ rows_in (map entry_of days)
rows_of-rows_in [] = refl
rows_of-rows_in (d ∷ days) = ap (λ n. length d.rows + n) (rows_of-rows_in days)

-- Each day of `groupByDay` has the rows of its date in their order and their sums by currency, no
-- date stands twice, the newest comes first, and no row is left out.
pub group_by_day_lem :
    (rows : List Row) (days : List Day)
    → group_by_day rows ≡ some days
    → All (λ d. d.rows ≡ of_day d.date rows) days
      × All (λ d. sum_by_currency d.rows ≡ some d.net) days
      × Pairs (λ c d. c.date ≢ d.date) days
      × Pairs (λ c d. text_lt c.date d.date ≡ false) days
      × (rows_of days ≡ length rows)
unfolding group_by_day
group_by_day_lem rows days h =
    let sorted = sort_by newer_day (groups rows) in
    let made = days_of_lem sorted days h in
    let back = sym made.0 in
    (
      All_entries (λ e. e.1 ≡ of_day e.0 rows) days
          (subst (All λ e. e.1 ≡ of_day e.0 rows) back
            (All-sort_by newer_day _ (groups rows) (groups-of_day rows))),
      made.1,
      Pairs_entries (λ d e. d.0 ≢ e.0) days
          (subst (Pairs λ d e. d.0 ≢ e.0) back (
            Pairs-sort_by newer_day (λ d e. d.0 ≢ e.0) (λ d e k q. k (sym q)) (groups rows)
              (group-OnceEach day_key add_to_day rows [] tt))),
      Pairs_entries (λ d e. text_lt d.0 e.0 ≡ false) days
          (subst (Pairs λ d e. text_lt d.0 e.0 ≡ false) back
            (InOrder-sort_by newer_day newer_day-IsWeakOrder (groups rows))),
      rows_of-rows_in days
          ∙ ap rows_in made.0
          ∙ total-sort_by newer_day (λ e. length e.1) (groups rows)
          ∙ rows_in_all rows,
    )
