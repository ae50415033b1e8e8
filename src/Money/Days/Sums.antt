-- ===== src/Money/Days/Sums.antt =====
-- `sumByCurrency` of integrations/money/app/amounts.ts.
use atomic_plugins.Prelude.{
  String, Bool, true, false, ◌||◌, Option, none, some, List, [], ◌∷◌, map, keep, str_eq, eq_iff,
  ◌≡◌, ◌≢◌, refl, sym, ap, subst, ◌∙◌, inl, inr, Bool-cases, Option-cases, All, All-map, All_weaken,
  Pairs, Pairs-map, arith,
}
use mathlib.Core.Option.{some-injective, none-ne-some}
use atomic_plugins.Prelude.Grouping.{
  find, put, find-put_self, find-put_ne, OnceEach, found, put-OnceEach,
}
use atomic_plugins.Prelude.Sorting.{
  insert_by, sort_by, IsWeakOrder, InOrder-sort_by, All-sort_by, Pairs-sort_by,
}
use atomic_plugins.Prelude.JsText.{text_lt}
use atomic_plugins.Prelude.TextOrder.{text_lt_asym, text_lt_trans}
use atomic_plugins.Prelude.Domination.{any_of}
use atomic_plugins.Money.Amounts.{ℤ, pos, ◌+ℤ◌, units, from_units, plus, sum_units, add_amounts}
use atomic_plugins.Money.Days.{
  Row, Sum, added, sum_into, code_before, sum_of, sums_of, sum_by_currency,
}

or_weaken : (a b c : Bool) → (b ≡ true → c ≡ true) → (a || b) ≡ true → (a || c) ≡ true
or_weaken true b c f h = refl
or_weaken false b c f h = f h

or_swap : (a b c : Bool) → (a || (b || c)) ≡ true → (b || (a || c)) ≡ true
or_swap a b c h = ground arith

abbrev pub of_currency : String → List Row → List Row
of_currency c = keep λ r. str_eq r.currency c

abbrev or_zero : Option ℤ → ℤ
or_zero none = pos 0
or_zero (some s) = s

added_lem : (v : ℤ) (o : Option ℤ) → added v o ≡ or_zero o +ℤ v
added_lem v none = refl
added_lem v (some s) = refl

-- The sum of the rows after one that is there; nothing where there are no rows.
abbrev summed : List Row → Option ℤ → Option ℤ
summed [] o = o
summed (r ∷ rs) o = sum_units (some (or_zero o)) (map (λ r. r.amount) (r ∷ rs))

summed-some :
    (rs : List Row) (s : ℤ) → summed rs (some s) ≡ sum_units (some s) (map (λ r. r.amount) rs)
unfolding sum_units
summed-some [] s = refl
summed-some (r ∷ rs) s = refl

sum_into_step :
    (r : Row) (rs : List Row) (m n : List (String × ℤ))
    → sum_into (r ∷ rs) m ≡ some n
    → (v : ℤ) × (units r.amount ≡ some v) × (sum_into rs (put r.currency (added v) m) ≡ some n)
unfolding sum_into
sum_into_step r rs m n h = elim (Option-cases (units r.amount)) [
  | inl e ↦ absurd (none_found (sym (ap (next r rs m) e) ∙ h))
  | inr (v, e) ↦ (v, e, sym (ap (next r rs m) e) ∙ h)
]
  where
    none_found : none ≡ some n → ⊥
    none_found k = cc

    next : Row → List Row → List (String × ℤ) → Option ℤ → Option (List (String × ℤ))
    next r rs m none = none
    next r rs m (some v) = sum_into rs (put r.currency (added v) m)

find-sum_into :
    (c : String) (rs : List Row) (m n : List (String × ℤ))
    → sum_into rs m ≡ some n
    → find c n ≡ summed (of_currency c rs) (find c m)
unfolding sum_into sum_units
find-sum_into c [] m n h = ap (find c) (sym (some-injective m n h))
find-sum_into c (r ∷ rs) m n h =
    let s = sum_into_step r rs m n h in
    let rest = find-sum_into c rs (put r.currency (added s.0) m) n s.2 in
    elim (Bool-cases (str_eq r.currency c)) [
      | inl e ↦
          let here : find c (put r.currency (added s.0) m) ≡ some (added s.0 (find c m)) =
            subst (λ k. find c (put k (added s.0) m) ≡ some (added s.0 (find c m)))
              (sym ((eq_iff r.currency c).0 e)) (find-put_self c (added s.0) m) in
          rw e (
            rest
            ∙ ap (summed (of_currency c rs)) here
            ∙ summed-some (of_currency c rs) (added s.0 (find c m))
            ∙ ap (λ o. sum_units o (map (λ q. q.amount) (of_currency c rs)))
                (ap some (added_lem s.0 (find c m)) ∙ sym (ap (plus (or_zero (find c m))) s.1)))
      | inr e ↦ rw e (
          rest
          ∙ ap (summed (of_currency c rs))
              (find-put_ne c r.currency (added s.0) m (λ k. ground (arith, eq_iff r.currency c))))
    ]

sum_into-OnceEach :
    (rs : List Row) (m n : List (String × ℤ)) → sum_into rs m ≡ some n → OnceEach m → OnceEach n
unfolding sum_into
sum_into-OnceEach [] m n h o = subst OnceEach (some-injective m n h) o
sum_into-OnceEach (r ∷ rs) m n h o =
    let s = sum_into_step r rs m n h in
    sum_into-OnceEach rs (put r.currency (added s.0) m) n s.2
      (put-OnceEach r.currency (added s.0) m o)

-- The sum of the amounts in its currency.
abbrev pub IsSumOf : List Row → Sum → Type 0
IsSumOf rows s = add_amounts (map (λ r. r.amount) (of_currency s.currency rows)) ≡ some s.amount

added_up :
    (rs : List Row) (v : ℤ)
    → some v ≡ summed rs none
    → add_amounts (map (λ r. r.amount) rs) ≡ some (from_units v)
unfolding add_amounts
added_up [] v h = absurd (some_none v h)
  where
    some_none : (w : ℤ) → some w ≡ none → ⊥
    some_none w k = cc
added_up (r ∷ rs) v h = ap (λ o. elim o [ none ↦ none | some w ↦ some (from_units w) ]) (sym h)

entry-IsSumOf :
    (rows : List Row) (n : List (String × ℤ))
    → sum_into rows [] ≡ some n
    → All (λ e. find e.0 n ≡ some e.1) n
    → All (λ e. IsSumOf rows (sum_of e)) n
unfolding find
entry-IsSumOf rows n h f =
    All_weaken (λ e. find e.0 n ≡ some e.1) (λ e. IsSumOf rows (sum_of e))
      (λ e k. added_up (of_currency e.0 rows) e.1 (sym k ∙ find-sum_into e.0 rows [] n h)) n f

-- Whether the currency has an entry.
abbrev has_entry : String → List (String × ℤ) → Bool
has_entry c = any_of λ e. str_eq e.0 c

put-has_entry :
    (c k : String) (f : Option ℤ → ℤ) (m : List (String × ℤ))
    → has_entry c m ≡ true
    → has_entry c (put k f m) ≡ true
unfolding put
put-has_entry c k f [] h = absurd (cc)
put-has_entry c k f ((j, s) ∷ m) h = elim (Bool-cases (str_eq j k)) [
  | inl e ↦ rw e h
  | inr e ↦ rw e (or_weaken (str_eq j c) _ _ (put-has_entry c k f m) h)
]

put-has_entry_self :
    (k : String) (f : Option ℤ → ℤ) (m : List (String × ℤ)) → has_entry k (put k f m) ≡ true
unfolding put
put-has_entry_self k f [] = rw ((eq_iff k k).1 refl) refl
put-has_entry_self k f ((j, s) ∷ m) = elim (Bool-cases (str_eq j k)) [
  | inl e ↦ rw (e, e) refl
  | inr e ↦ rw (e, e) (put-has_entry_self k f m)
]

sum_into-has_entry :
    (c : String) (rs : List Row) (m n : List (String × ℤ))
    → sum_into rs m ≡ some n
    → has_entry c m ≡ true
    → has_entry c n ≡ true
unfolding sum_into
sum_into-has_entry c [] m n h k = ap (has_entry c) (sym (some-injective m n h)) ∙ k
sum_into-has_entry c (r ∷ rs) m n h k =
    let s = sum_into_step r rs m n h in
    sum_into-has_entry c rs (put r.currency (added s.0) m) n s.2
      (put-has_entry c r.currency (added s.0) m k)

sum_into-entries :
    (rs : List Row) (m n : List (String × ℤ))
    → sum_into rs m ≡ some n
    → All (λ r. has_entry r.currency n ≡ true) rs
sum_into-entries [] m n h = tt
sum_into-entries (r ∷ rs) m n h =
    let s = sum_into_step r rs m n h in
    (
      sum_into-has_entry r.currency rs (put r.currency (added s.0) m) n s.2
          (put-has_entry_self r.currency (added s.0) m),
      sum_into-entries rs (put r.currency (added s.0) m) n s.2,
    )

insert_by-has_entry :
    (c : String) (e : String × ℤ) (m : List (String × ℤ))
    → has_entry c (e ∷ m) ≡ true
    → has_entry c (insert_by code_before e m) ≡ true
unfolding insert_by
insert_by-has_entry c e [] h = h
insert_by-has_entry c e (d ∷ m) h = elim (Bool-cases (code_before d e)) [
  | inl k ↦ rw k (
      or_weaken (str_eq d.0 c) _ _ (insert_by-has_entry c e m)
        (or_swap (str_eq e.0 c) (str_eq d.0 c) _ h))
  | inr k ↦ rw k h
]

sort_by-has_entry :
    (c : String) (m : List (String × ℤ))
    → has_entry c m ≡ true
    → has_entry c (sort_by code_before m) ≡ true
unfolding sort_by
sort_by-has_entry c [] h = h
sort_by-has_entry c (e ∷ m) h =
    insert_by-has_entry c e (sort_by code_before m)
      (or_weaken (str_eq e.0 c) _ _ (sort_by-has_entry c m) h)

-- Whether the currency has a sum.
abbrev pub has_sum : List Sum → String → Bool
has_sum sums c = any_of (λ s. str_eq s.currency c) sums

has_sum-map : (m : List (String × ℤ)) (c : String) → has_sum (map sum_of m) c ≡ has_entry c m
has_sum-map [] c = refl
has_sum-map (e ∷ m) c = ap (λ b. str_eq e.0 c || b) (has_sum-map m c)

code_before-IsWeakOrder : IsWeakOrder code_before
code_before-IsWeakOrder = record {
  asym = λ x y h. text_lt_asym x.0 y.0 h;
  trans = λ x y z h k. text_lt_trans x.0 y.0 z.0 h k;
}

-- Each sum that `sumByCurrency` returns is the one of `addAmounts` for the rows in its currency, no
-- currency stands twice, they are in the order of their codes, and that of each row is there.
pub sum_by_currency_lem :
    (rows : List Row) (sums : List Sum)
    → sum_by_currency rows ≡ some sums
    → All (IsSumOf rows) sums
      × Pairs (λ a b. a.currency ≢ b.currency) sums
      × Pairs (λ a b. text_lt b.currency a.currency ≡ false) sums
      × All (λ r. has_sum sums r.currency ≡ true) rows
unfolding sum_by_currency
sum_by_currency_lem rows sums h = elim (Option-cases (sum_into rows [])) [
  | inl e ↦ absurd (none-ne-some sums (sym (ap sums_of e) ∙ h))
  | inr (n, e) ↦
      let once = sum_into-OnceEach rows [] n e tt in
      let is : map sum_of (sort_by code_before n) ≡ sums =
        some-injective _ _ (sym (ap sums_of e) ∙ h) in
      subst
        (λ l.
          All (IsSumOf rows) l
          × Pairs (λ a b. a.currency ≢ b.currency) l
          × Pairs (λ a b. text_lt b.currency a.currency ≡ false) l
          × All (λ r. has_sum l r.currency ≡ true) rows)
        is
        (
          All-map (IsSumOf rows) sum_of (sort_by code_before n)
              (All-sort_by code_before _ n (entry-IsSumOf rows n e (found n once))),
          Pairs-map (λ a b. a.currency ≢ b.currency) sum_of (sort_by code_before n)
              (Pairs-sort_by code_before (λ a b. a.0 ≢ b.0) (λ a b k q. k (sym q)) n once),
          Pairs-map (λ a b. text_lt b.currency a.currency ≡ false) sum_of (sort_by code_before n)
              (InOrder-sort_by code_before code_before-IsWeakOrder n),
          All_weaken (λ r. has_entry r.currency n ≡ true)
              (λ r. has_sum (map sum_of (sort_by code_before n)) r.currency ≡ true)
              (λ r k.
                has_sum-map (sort_by code_before n) r.currency ∙ sort_by-has_entry r.currency n k)
              rows (sum_into-entries rows [] n e),
        )
]
