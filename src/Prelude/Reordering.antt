-- ===== src/Prelude/Reordering.antt =====
-- Sorting lists that differ in the order of their entries only.
use mathlib.Core.Path.{◌≡◌, refl, sym, ap, ◌∙◌, subst}
use mathlib.Core.Logic.{◌⊎◌, inl, inr}
use mathlib.Core.Bool.{Bool, true, false}
use mathlib.Core.List.{List, [], ◌∷◌, ◌++◌}
use mathlib.Core.List.{Permᴰ}
use mathlib.Core.List.Permᴰ.{nil, cons, swap, trans}
use atomic_plugins.Prelude.Tests.{Bool-cases, if◌then◌else◌}
use atomic_plugins.Prelude.Predicates.{All, Pairs}
use atomic_plugins.Prelude.Sorting.{
  insert_by, sort_by, IsWeakOrder, InOrder, insert_by_first, All-sort_by,
}

module _ {ℓ κ} {A : Type ℓ} (P : A → Type κ) where
  All_reordered : {xs ys : List A} → Permᴰ xs ys → All P xs → All P ys
  All_reordered nil h = tt
  All_reordered (cons e d) (p, h) = (subst P e p, All_reordered d h)
  All_reordered (swap e f) (p, (q, h)) = (subst P f q, (subst P e p, h))
  All_reordered (trans d c) h = All_reordered c (All_reordered d h)

module _ {ℓ κ} {A : Type ℓ} (R : A → A → Type κ) (back : (x y : A) → R x y → R y x) where
  Pairs_reordered : {xs ys : List A} → Permᴰ xs ys → Pairs R xs → Pairs R ys
  Pairs_reordered nil h = tt
  Pairs_reordered (cons {a} {b} {l₁} {l₂} e d) (q, h) =
      (subst (λ x. All (R x) l₂) e (All_reordered (R a) d q), Pairs_reordered d h)
  Pairs_reordered (swap {a} {b} {a'} {b'} {l} e f) ((r, q), (p, h)) = (
    (subst (λ x. R x b') f (subst (λ x. R b x) e (back a b r)), subst (λ x. All (R x) l) f p),
    (subst (λ x. All (R x) l) e q, h),
  )
  Pairs_reordered (trans d c) h = Pairs_reordered c (Pairs_reordered d h)

module _ {ℓ} {A : Type ℓ} (before : A → A → Bool) where
  -- One of the two must come before the other.
  abbrev pub AreApart : A → A → Type 0
  AreApart x y = (before x y ≡ true) ⊎ (before y x ≡ true)

  AreApart-back : (x y : A) → AreApart x y → AreApart y x
  AreApart-back x y (inl e) = inr e
  AreApart-back x y (inr e) = inl e

module _ {ℓ} {A : Type ℓ} (before : A → A → Bool) (w : IsWeakOrder before) where
  insert_past :
      (x y : A) (l : List A)
      → before y x ≡ true
      → insert_by before x (y ∷ l) ≡ y ∷ insert_by before x l
  unfolding insert_by
  insert_past x y l e = rw e refl

  insert_here : (x y : A) (l : List A) → before y x ≡ false → insert_by before x (y ∷ l) ≡ x ∷ y ∷ l
  unfolding insert_by
  insert_here x y l e = rw e refl

  -- An entry that comes before `x` stays in front of it.
  insert_by_behind :
      (x y : A) (l : List A)
      → before x y ≡ true
      → insert_by before x (insert_by before y l) ≡ insert_by before y (insert_by before x l)
  unfolding insert_by
  insert_by_behind x y [] e = rw (e, w.asym x y e) refl
  insert_by_behind x y (z ∷ l) e =
      let e' = w.asym x y e in
      elim (Bool-cases (before z x)) [
        | inl f ↦ elim (Bool-cases (before z y)) [
          | inl g ↦
              ap (insert_by before x) (insert_past y z l g)
              ∙ (insert_past x z (insert_by before y l) f
                  ∙ (ap (λ l. z ∷ l) (insert_by_behind x y l e)
                      ∙ (sym (insert_past y z (insert_by before x l) g)
                          ∙ ap (insert_by before y) (sym (insert_past x z l f)))))
          | inr g ↦ absurd (let no = w.trans x y z e' g in cc)
        ]
        | inr f ↦
            let right = ap (insert_by before y) (insert_here x z l f) ∙ insert_past y x (z ∷ l) e in
            elim (Bool-cases (before z y)) [
              | inl g ↦
                  ap (insert_by before x) (insert_past y z l g)
                  ∙ (insert_here x z (insert_by before y l) f
                      ∙ (ap (λ l. x ∷ l) (sym (insert_past y z l g)) ∙ sym right))
              | inr g ↦
                  ap (insert_by before x) (insert_here y z l g)
                  ∙ (insert_here x y (z ∷ l) e'
                      ∙ (ap (λ l. x ∷ l) (sym (insert_here y z l g)) ∙ sym right))
            ]
      ]

  insert_by_comm :
      (x y : A) (l : List A)
      → AreApart before x y
      → insert_by before x (insert_by before y l) ≡ insert_by before y (insert_by before x l)
  insert_by_comm x y l (inl e) = insert_by_behind x y l e
  insert_by_comm x y l (inr e) = sym (insert_by_behind y x l e)

  -- Where any two entries are apart, sorting forgets their order.
  pub sort_by_reordered :
      {xs ys : List A}
      → Permᴰ xs ys
      → Pairs (AreApart before) xs
      → sort_by before xs ≡ sort_by before ys
  unfolding sort_by
  sort_by_reordered nil h = refl
  sort_by_reordered (cons {a} {b} {l₁} {l₂} e d) (q, h) =
      ap (insert_by before a) (sort_by_reordered d h)
      ∙ ap (λ x. insert_by before x (sort_by before l₂)) e
  sort_by_reordered (swap {a} {b} {a'} {b'} {l} e f) ((r, q), h) =
      insert_by_comm a b (sort_by before l) r
      ∙ (ap (λ x. insert_by before b (insert_by before x (sort_by before l))) e
          ∙ ap (λ x. insert_by before x (insert_by before b' (sort_by before l))) f)
  sort_by_reordered (trans d c) h =
      sort_by_reordered d h
      ∙ sort_by_reordered c (Pairs_reordered (AreApart before) (AreApart-back before) d h)

  insert_by-append :
      (x : A) (xs ys : List A)
      → All (InOrder before x) ys
      → insert_by before x (xs ++ ys) ≡ insert_by before x xs ++ ys
  unfolding insert_by
  insert_by-append x [] ys h = insert_by_first before w x ys h
  insert_by-append x (y ∷ xs) ys h = elim (Bool-cases (before y x)) [
    | inl e ↦ rw e (ap (λ l. y ∷ l) (insert_by-append x xs ys h))
    | inr e ↦ rw e refl
  ]

  -- Where nothing of the second list must come before an entry of the first, each is sorted by itself.
  pub sort_by-append :
      (xs ys : List A)
      → All (λ x. All (InOrder before x) ys) xs
      → sort_by before (xs ++ ys) ≡ sort_by before xs ++ sort_by before ys
  unfolding sort_by
  sort_by-append [] ys h = refl
  sort_by-append (x ∷ xs) ys (p, h) =
      ap (insert_by before x) (sort_by-append xs ys h)
      ∙ insert_by-append x (sort_by before xs) (sort_by before ys)
          (All-sort_by before (InOrder before x) ys p)

  -- A list in order is left as it is.
  pub sort_by-InOrder : (xs : List A) → Pairs (InOrder before) xs → sort_by before xs ≡ xs
  unfolding sort_by
  sort_by-InOrder [] h = refl
  sort_by-InOrder (x ∷ xs) (p, h) =
      ap (insert_by before x) (sort_by-InOrder xs h) ∙ insert_by_first before w x xs p

  sort_by-insert_by :
      (x : A) (xs ys : List A)
      → sort_by before (insert_by before x xs ++ ys)
        ≡ insert_by before x (sort_by before (xs ++ ys))
  unfolding sort_by insert_by
  sort_by-insert_by x [] ys = refl
  sort_by-insert_by x (y ∷ xs) ys = elim (Bool-cases (before y x)) [
    | inl e ↦
        subst
          (λ b.
            sort_by before ((if b then y ∷ insert_by before x xs else x ∷ y ∷ xs) ++ ys)
            ≡ insert_by before x (sort_by before (y ∷ xs ++ ys)))
          (sym e)
          (ap (insert_by before y) (sort_by-insert_by x xs ys)
            ∙ insert_by_behind y x (sort_by before (xs ++ ys)) e)
    | inr e ↦
        subst
          (λ b.
            sort_by before ((if b then y ∷ insert_by before x xs else x ∷ y ∷ xs) ++ ys)
            ≡ insert_by before x (sort_by before (y ∷ xs ++ ys)))
          (sym e) refl
  ]

  -- Sorting a part beforehand makes no difference.
  pub sort_by-sort_by :
      (xs ys : List A) → sort_by before (sort_by before xs ++ ys) ≡ sort_by before (xs ++ ys)
  unfolding sort_by
  sort_by-sort_by [] ys = refl
  sort_by-sort_by (x ∷ xs) ys =
      sort_by-insert_by x (sort_by before xs) ys ∙ ap (insert_by before x) (sort_by-sort_by xs ys)
