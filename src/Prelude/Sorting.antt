-- ===== src/Prelude/Sorting.antt =====
-- Stable sorting by a test `before y x`: `y` must come before an earlier `x`. It is what
-- `list.sort(compare)` does where `compare x y` is positive exactly when `before y x`.
use mathlib.Core.Path.{◌≡◌, refl, sym, ap, ◌∙◌}
use mathlib.Core.Logic.{inl, inr}
use mathlib.Core.Bool.{Bool, true, false}
use mathlib.Core.List.{List, [], ◌∷◌}
use Prim.Native.Nat.{ℕ, ◌+◌}
use native.Mathlib.Omega.{arith}
use atomic_plugins.Prelude.Tests.{if◌then◌else◌, Bool-cases}
use atomic_plugins.Prelude.Lists.{keep}
use atomic_plugins.Prelude.Predicates.{All, Pairs}

module _ {ℓ} {A : Type ℓ} (before : A → A → Bool) where
  -- `x` is put in front of the entries that need not come before it.
  unfoldable pub insert_by : A → List A → List A
  insert_by x [] = x ∷ []
  insert_by x (y ∷ ys) = if before y x then y ∷ insert_by x ys else x ∷ y ∷ ys

  unfoldable pub sort_by : List A → List A
  unfolding insert_by
  sort_by [] = []
  sort_by (x ∷ xs) = insert_by x (sort_by xs)

  -- `before` as a strict order in which what does not come before can be passed on.
  pub record IsWeakOrder : Type ℓ where
    pub asym : (x y : A) → before x y ≡ true → before y x ≡ false
    pub trans : (x y z : A) → before y x ≡ false → before z y ≡ false → before z x ≡ false

  abbrev pub InOrder : A → A → Type 0
  InOrder x y = before y x ≡ false

module _ {ℓ κ} {A : Type ℓ} (before : A → A → Bool) (P : A → Type κ) where
  pub All-insert_by : (x : A) (ys : List A) → P x → All P ys → All P (insert_by before x ys)
  unfolding insert_by
  All-insert_by x [] p h = (p, tt)
  All-insert_by x (y ∷ ys) p (q, h) = elim (Bool-cases (before y x)) [
    | inl e ↦ rw e (q, All-insert_by x ys p h)
    | inr e ↦ rw e (p, (q, h))
  ]

  pub All-sort_by : (xs : List A) → All P xs → All P (sort_by before xs)
  unfolding sort_by
  All-sort_by [] h = tt
  All-sort_by (x ∷ xs) (p, h) = All-insert_by x (sort_by before xs) p (All-sort_by xs h)

module _ {ℓ κ} {A : Type ℓ} (before : A → A → Bool) (R : A → A → Type κ)
    (back : (x y : A) → R x y → R y x) where
  Pairs-insert_by :
      (x : A) (ys : List A) → All (R x) ys → Pairs R ys → Pairs R (insert_by before x ys)
  unfolding insert_by
  Pairs-insert_by x [] p h = (tt, tt)
  Pairs-insert_by x (y ∷ ys) (q, p) (r, h) = elim (Bool-cases (before y x)) [
    | inl e ↦ rw e (All-insert_by before (R y) x ys (back x y q) r, Pairs-insert_by x ys p h)
    | inr e ↦ rw e ((q, p), (r, h))
  ]

  -- A symmetric relation between all entries is kept.
  pub Pairs-sort_by : (xs : List A) → Pairs R xs → Pairs R (sort_by before xs)
  unfolding sort_by
  Pairs-sort_by [] h = tt
  Pairs-sort_by (x ∷ xs) (p, h) =
      Pairs-insert_by x (sort_by before xs) (All-sort_by before (R x) xs p) (Pairs-sort_by xs h)

module _ {ℓ} {A : Type ℓ} (before : A → A → Bool) (weight : A → ℕ) where
  abbrev pub total : List A → ℕ
  total [] = 0
  total (x ∷ xs) = weight x + total xs

  total-insert_by : (x : A) (ys : List A) → total (insert_by before x ys) ≡ weight x + total ys
  unfolding insert_by
  total-insert_by x [] = refl
  total-insert_by x (y ∷ ys) = elim (Bool-cases (before y x)) [
    | inl e ↦ rw e (omega (arith, total-insert_by x ys))
    | inr e ↦ rw e refl
  ]

  pub total-sort_by : (xs : List A) → total (sort_by before xs) ≡ total xs
  unfolding sort_by
  total-sort_by [] = refl
  total-sort_by (x ∷ xs) = omega (arith, total-insert_by x (sort_by before xs), total-sort_by xs)

module _ {ℓ} {A : Type ℓ} (before : A → A → Bool) (w : IsWeakOrder before) where
  from_there :
      (x y : A) (ys : List A)
      → before y x ≡ false
      → All (InOrder before y) ys
      → All (InOrder before x) ys
  from_there x y [] e h = tt
  from_there x y (z ∷ zs) e (p, h) = (w.trans x y z e p, from_there x y zs e h)

  InOrder-insert_by :
      (x : A) (ys : List A)
      → Pairs (InOrder before) ys
      → Pairs (InOrder before) (insert_by before x ys)
  unfolding insert_by
  InOrder-insert_by x [] h = (tt, tt)
  InOrder-insert_by x (y ∷ ys) (p, h) = elim (Bool-cases (before y x)) [
    | inl e ↦
        rw e
          (All-insert_by before (InOrder before y) x ys (w.asym y x e) p, InOrder-insert_by x ys h)
    | inr e ↦ rw e ((e, from_there x y ys e p), (p, h))
  ]

  -- The sorted list is in order.
  pub InOrder-sort_by : (xs : List A) → Pairs (InOrder before) (sort_by before xs)
  unfolding sort_by
  InOrder-sort_by [] = tt
  InOrder-sort_by (x ∷ xs) = InOrder-insert_by x (sort_by before xs) (InOrder-sort_by xs)

  -- An entry in front of all others stays there.
  pub insert_by_first :
      (x : A) (ys : List A) → All (InOrder before x) ys → insert_by before x ys ≡ x ∷ ys
  unfolding insert_by
  insert_by_first x [] h = refl
  insert_by_first x (y ∷ ys) (e, h) = rw e refl

  All-keep_front :
      (test : A → Bool) (x : A) (ys : List A)
      → All (InOrder before x) ys
      → All (InOrder before x) (keep test ys)
  All-keep_front test x [] h = tt
  All-keep_front test x (y ∷ ys) (e, h) = elim (Bool-cases (test y)) [
    | inl q ↦ rw q (e, All-keep_front test x ys h)
    | inr q ↦ rw q (All-keep_front test x ys h)
  ]

  keep_front :
      (test : A → Bool) (x y : A) (ys : List A)
      → before y x ≡ false
      → All (InOrder before x) ys
      → keep test (insert_by before x (y ∷ ys))
        ≡ (if test x then insert_by before x (keep test (y ∷ ys)) else keep test (y ∷ ys))
  unfolding insert_by
  keep_front test x y ys e h = elim (Bool-cases (test x)) [
    | inl q ↦
        rw (e, q)
          (sym (insert_by_first x (keep test (y ∷ ys)) (All-keep_front test x (y ∷ ys) (e, h))))
    | inr q ↦ rw (e, q) refl
  ]

  keep_past :
      (test : A → Bool) (x y : A) (ys : List A)
      → before y x ≡ true
      → keep test (insert_by before x ys)
        ≡ (if test x then insert_by before x (keep test ys) else keep test ys)
      → keep test (insert_by before x (y ∷ ys))
        ≡ (if test x then insert_by before x (keep test (y ∷ ys)) else keep test (y ∷ ys))
  unfolding insert_by
  keep_past test x y ys e rest = elim (Bool-cases (test y)) [
    | inr q ↦ rw (e, q) rest
    | inl q ↦
        rw (e, q)
          (elim (Bool-cases (test x)) [
            | inl r ↦ rw (r, e, insert_by) (ap (λ l. y ∷ l) (rest ∙ rw r refl))
            | inr r ↦ rw r (ap (λ l. y ∷ l) (rest ∙ rw r refl))
          ])
  ]

  keep-insert_by :
      (test : A → Bool) (x : A) (ys : List A)
      → Pairs (InOrder before) ys
      → keep test (insert_by before x ys)
        ≡ (if test x then insert_by before x (keep test ys) else keep test ys)
  unfolding insert_by
  keep-insert_by test x [] h = elim (Bool-cases (test x)) [ inl e ↦ rw e refl | inr e ↦ rw e refl ]
  keep-insert_by test x (y ∷ ys) (p, h) =
      let rest = keep-insert_by test x ys h in
      elim (Bool-cases (before y x)) [
        | inl e ↦ keep_past test x y ys e rest
        | inr e ↦ keep_front test x y ys e (from_there x y ys e p)
      ]

  -- Sorting a selection is selecting from the sorted list.
  pub keep-sort_by :
      (test : A → Bool) (xs : List A)
      → keep test (sort_by before xs) ≡ sort_by before (keep test xs)
  unfolding sort_by
  keep-sort_by test [] = refl
  keep-sort_by test (x ∷ xs) = elim (Bool-cases (test x)) [
    | inl e ↦ rw e (
        keep-insert_by test x (sort_by before xs) (InOrder-sort_by xs)
        ∙ rw e (ap (insert_by before x) (keep-sort_by test xs)))
    | inr e ↦ rw e (
        keep-insert_by test x (sort_by before xs) (InOrder-sort_by xs)
        ∙ rw e (keep-sort_by test xs))
  ]
