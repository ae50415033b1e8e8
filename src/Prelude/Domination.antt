-- ===== src/Prelude/Domination.antt =====
-- The entries of a list that no other dominates, for a strict order that a test decides; and the same
-- entries kept one at a time.
use mathlib.Core.List.{append_assoc, append-nil}
use mathlib.Core.Path.{◌≡◌, refl, sym, ap, ◌∙◌, subst}
use mathlib.Core.Logic.{◌⊎◌, inl, inr}
use mathlib.Core.Bool.{Bool, true, false, not, ◌&&◌, ◌||◌}
use mathlib.Core.List.{List, [], ◌∷◌, ◌++◌}
use atomic_plugins.Prelude.Tests.{if◌then◌else◌, Bool-cases}
use atomic_plugins.Prelude.Lists.{keep}
use atomic_plugins.Prelude.Predicates.{All, All-append, All_weaken}

abbrev pub any_of {ℓ} : {A : Type ℓ} → (A → Bool) → List A → Bool
any_of test [] = false
any_of test (x ∷ xs) = test x || any_of test xs

abbrev IsIn : {A : Type 0} → A → List A → Type 0
IsIn x [] = ⊥
IsIn x (y ∷ ys) = (y ≡ x) ⊎ IsIn x ys

true-not-false : ¬ (true ≡ false)
true-not-false h = cc

true-or-left : (a b : Bool) → a ≡ true → (a || b) ≡ true
true-or-left true b h = refl
true-or-left false b h = cc

true-or-right : (a b : Bool) → b ≡ true → (a || b) ≡ true
true-or-right true b h = refl
true-or-right false b h = h

module _ {A : Type 0} (test : A → Bool) where
  any_of-IsIn : (x : A) (xs : List A) → IsIn x xs → test x ≡ true → any_of test xs ≡ true
  any_of-IsIn x [] i h = elim i [ ]
  any_of-IsIn x (y ∷ ys) (inl e) h = true-or-left (test y) (any_of test ys) (ap test e ∙ h)
  any_of-IsIn x (y ∷ ys) (inr i) h = true-or-right (test y) (any_of test ys) (any_of-IsIn x ys i h)

  any_of-found : (xs : List A) → any_of test xs ≡ true → (x : A) × IsIn x xs × (test x ≡ true)
  any_of-found [] h = cc
  any_of-found (y ∷ ys) h = elim (Bool-cases (test y)) [
    | inl e ↦ (y, inl refl, e)
    | inr e ↦
        let rest : any_of test ys ≡ true = sym (ap (λ b. b || any_of test ys) e) ∙ h in
        let (x, i, t) = any_of-found ys rest in (x, inr i, t)
  ]

  any_of-none : (xs : List A) → All (λ x. test x ≡ false) xs → any_of test xs ≡ false
  any_of-none [] h = refl
  any_of-none (y ∷ ys) (p, h) = ap (λ b. b || any_of test ys) p ∙ any_of-none ys h

  any_of-append : (xs ys : List A) → any_of test (xs ++ ys) ≡ (any_of test xs || any_of test ys)
  any_of-append [] ys = refl
  any_of-append (x ∷ xs) ys = elim (Bool-cases (test x)) [
    | inl e ↦ rw e refl
    | inr e ↦ rw e (any_of-append xs ys)
  ]

  IsIn-keep : (x : A) (xs : List A) → IsIn x xs → test x ≡ true → IsIn x (keep test xs)
  IsIn-keep x [] i h = elim i [ ]
  IsIn-keep x (y ∷ ys) (inl e) h = rw (ap test e ∙ h) (inl e)
  IsIn-keep x (y ∷ ys) (inr i) h = elim (Bool-cases (test y)) [
    | inl e ↦ rw e (inr (IsIn-keep x ys i h))
    | inr e ↦ rw e (IsIn-keep x ys i h)
  ]

  keep-IsIn : (x : A) (xs : List A) → IsIn x (keep test xs) → IsIn x xs
  keep-IsIn x [] i = i
  keep-IsIn x (y ∷ ys) i = elim (Bool-cases (test y)) [
    | inl e ↦ elim (subst (IsIn x) (ap (λ b. if b then y ∷ keep test ys else keep test ys) e) i) [
      | inl same ↦ inl same
      | inr j ↦ inr (keep-IsIn x ys j)
    ]
    | inr e ↦ inr (
        keep-IsIn x ys
          (subst (IsIn x) (ap (λ b. if b then y ∷ keep test ys else keep test ys) e) i))
  ]

  keep-append : (xs ys : List A) → keep test (xs ++ ys) ≡ keep test xs ++ keep test ys
  keep-append [] ys = refl
  keep-append (x ∷ xs) ys = elim (Bool-cases (test x)) [
    | inl e ↦ rw e (ap (λ l. x ∷ l) (keep-append xs ys))
    | inr e ↦ rw e (keep-append xs ys)
  ]

not_or : (a b : Bool) → not (a || (b || false)) ≡ (not a && not b)
not_or true b = refl
not_or false true = refl
not_or false false = refl

or-false : (b : Bool) → (b || false) ≡ b
or-false true = refl
or-false false = refl

module _ {A : Type 0} (P Q : A → Bool) where
  keep_same : ((x : A) → P x ≡ Q x) → (xs : List A) → keep P xs ≡ keep Q xs
  keep_same same [] = refl
  keep_same same (x ∷ xs) =
      ap (λ b. if b then x ∷ keep P xs else keep P xs) (same x)
      ∙ ap (λ l. if Q x then x ∷ l else l) (keep_same same xs)

  keep-keep : (xs : List A) → keep P (keep Q xs) ≡ keep (λ x. Q x && P x) xs
  keep-keep [] = refl
  keep-keep (x ∷ xs) = elim (Bool-cases (Q x)) [
    | inl e ↦ elim (Bool-cases (P x)) [
      | inl d ↦ rw (e, d) (ap (λ l. x ∷ l) (keep-keep xs))
      | inr d ↦ rw (e, d) (keep-keep xs)
    ]
    | inr e ↦ rw e (keep-keep xs)
  ]

module _ {A : Type 0} (over : A → A → Bool) (irreflexive : (a : A) → over a a ≡ false)
    (transitive : (a b c : A) → over a b ≡ true → over b c ≡ true → over a c ≡ true) where
  abbrev pub undominated : List A → List A
  undominated xs = keep (λ e. not (any_of (λ o. over o e) xs)) xs

  -- From `m`, over the entries of `xs` that dominate it or one another, to one that none dominates.
  climb :
      (m : A) (seen xs : List A)
      → All (λ y. over y m ≡ false) seen
      → (f : A) × IsIn f (m ∷ xs)
        × ((e : A) → over m e ≡ true → over f e ≡ true)
        × All (λ y. over y f ≡ false) (seen ++ xs)
  climb m seen [] h = (m, inl refl, (λ e t. t), All-append (λ y. over y m ≡ false) seen [] h tt)
  climb m seen (x ∷ xs) h = elim (Bool-cases (over x m)) [
    | inl above ↦
        let now : All (λ y. over y x ≡ false) (seen ++ x ∷ []) =
          All-append (λ y. over y x ≡ false) seen (x ∷ [])
            (All_weaken (λ y. over y m ≡ false) (λ y. over y x ≡ false)
              (λ y below. below_too x m y above below) seen h)
            (irreflexive x, tt) in
        let (f, i, over_all, none_above) = climb x (seen ++ x ∷ []) xs now in
        (
          f,
          inr i,
          (λ e t. over_all e (transitive x m e above t)),
          subst (All (λ y. over y f ≡ false)) (append_assoc seen (x ∷ []) xs) none_above,
        )
    | inr beside ↦
        let now : All (λ y. over y m ≡ false) (seen ++ x ∷ []) =
          All-append (λ y. over y m ≡ false) seen (x ∷ []) h (beside, tt) in
        let (f, i, over_all, none_above) = climb m (seen ++ x ∷ []) xs now in
        (
          f,
          later f m x xs i,
          over_all,
          subst (All (λ y. over y f ≡ false)) (append_assoc seen (x ∷ []) xs) none_above,
        )
  ]
    where
      below_too : (x m y : A) → over x m ≡ true → over y m ≡ false → over y x ≡ false
      below_too x m y above below = elim (Bool-cases (over y x)) [
        | inl e ↦ absurd (true-not-false (sym (transitive y x m e above) ∙ below))
        | inr e ↦ e
      ]

      later : (f m x : A) (xs : List A) → IsIn f (m ∷ xs) → IsIn f (m ∷ x ∷ xs)
      later f m x xs (inl e) = inl e
      later f m x xs (inr i) = inr (inr i)

  kept_dominates :
      (e : A) (xs : List A)
      → any_of (λ o. over o e) xs ≡ true
      → any_of (λ o. over o e) (undominated xs) ≡ true
  kept_dominates e xs h =
      let (m, i, t) = any_of-found (λ o. over o e) xs h in
      let (f, j, over_all, none_above) = climb m [] xs tt in
      let within : IsIn f xs = elim j [ inl same ↦ subst (λ x. IsIn x xs) same i | inr k ↦ k ] in
      let free = ap not (any_of-none (λ o. over o f) xs none_above) in
      any_of-IsIn (λ o. over o e) f (undominated xs)
        (IsIn-keep (λ x. not (any_of (λ o. over o x) xs)) f xs within free) (over_all e t)

  -- What an entry of the list dominates, one that none dominates does.
  pub any_of-undominated :
      (e : A) (xs : List A) → any_of (λ o. over o e) (undominated xs) ≡ any_of (λ o. over o e) xs
  any_of-undominated e xs = elim (Bool-cases (any_of (λ o. over o e) xs)) [
    | inl h ↦ kept_dominates e xs h ∙ sym h
    | inr h ↦ elim (Bool-cases (any_of (λ o. over o e) (undominated xs))) [
      | inl k ↦
          let (m, i, t) = any_of-found (λ o. over o e) (undominated xs) k in
          absurd (
            true-not-false (
              sym (
                any_of-IsIn (λ o. over o e) m xs
                  (keep-IsIn (λ x. not (any_of (λ o. over o x) xs)) m xs i) t)
              ∙ h))
      | inr k ↦ k ∙ sym h
    ]
  ]

  -- A store takes one entry: not if one of its own dominates it, else in place of those it dominates.
  abbrev pub join : List A → A → List A
  join store e =
      if any_of (λ o. over o e) store then store else keep (λ o. not (over e o)) store ++ e ∷ []

  abbrev pub join_all : List A → List A → List A
  join_all store [] = store
  join_all store (e ∷ es) = join_all (join store e) es

  still_free :
      (e x : A) (xs : List A)
      → any_of (λ o. over o e) xs ≡ true
      → not (any_of (λ o. over o x) (xs ++ e ∷ [])) ≡ not (any_of (λ o. over o x) xs)
  still_free e x xs h =
      ap not (any_of-append (λ o. over o x) xs (e ∷ []) ∙ covered (Bool-cases (over e x)))
    where
      covered :
          ((over e x ≡ true) ⊎ (over e x ≡ false))
          → (any_of (λ o. over o x) xs || (over e x || false)) ≡ any_of (λ o. over o x) xs
      covered (inr d) = rw d (or-false (any_of (λ o. over o x) xs))
      covered (inl d) =
          let (m, i, t) = any_of-found (λ o. over o e) xs h in
          let above = any_of-IsIn (λ o. over o x) m xs i (transitive m e x t d) in rw above refl

  join-undominated : (xs : List A) (e : A) → join (undominated xs) e ≡ undominated (xs ++ e ∷ [])
  join-undominated xs e =
      ap (λ b. if b then undominated xs else keep (λ o. not (over e o)) (undominated xs) ++ e ∷ [])
        (any_of-undominated e xs)
      ∙ sym (
          keep-append (λ x. not (any_of (λ o. over o x) (xs ++ e ∷ []))) xs (e ∷ [])
          ∙ joined (Bool-cases (any_of (λ o. over o e) xs)))
    where
      last_test : any_of (λ o. over o e) (xs ++ e ∷ []) ≡ any_of (λ o. over o e) xs
      last_test =
          any_of-append (λ o. over o e) xs (e ∷ [])
          ∙ ap (λ d. any_of (λ o. over o e) xs || (d || false)) (irreflexive e)
          ∙ or-false (any_of (λ o. over o e) xs)

      joined :
          ((any_of (λ o. over o e) xs ≡ true) ⊎ (any_of (λ o. over o e) xs ≡ false))
          → keep (λ x. not (any_of (λ o. over o x) (xs ++ e ∷ []))) xs
              ++ keep (λ x. not (any_of (λ o. over o x) (xs ++ e ∷ []))) (e ∷ [])
            ≡ (if any_of (λ o. over o e) xs
                then undominated xs
                else keep (λ o. not (over e o)) (undominated xs) ++ e ∷ [])
      joined (inl h) =
          ap
            (λ b.
              keep (λ x. not (any_of (λ o. over o x) (xs ++ e ∷ []))) xs
              ++ (if not b then e ∷ [] else []))
            (last_test ∙ h)
          ∙ append-nil (keep (λ x. not (any_of (λ o. over o x) (xs ++ e ∷ []))) xs)
          ∙ keep_same (λ x. not (any_of (λ o. over o x) (xs ++ e ∷ [])))
              (λ x. not (any_of (λ o. over o x) xs)) (λ x. still_free e x xs h) xs
          ∙ sym (
              ap
                (λ b.
                  if b
                  then undominated xs
                  else keep (λ o. not (over e o)) (undominated xs) ++ e ∷ [])
                h)
      joined (inr h) =
          ap
            (λ b.
              keep (λ x. not (any_of (λ o. over o x) (xs ++ e ∷ []))) xs
              ++ (if not b then e ∷ [] else []))
            (last_test ∙ h)
          ∙ ap (λ l. l ++ e ∷ [])
              (keep_same (λ x. not (any_of (λ o. over o x) (xs ++ e ∷ [])))
                  (λ x. not (any_of (λ o. over o x) xs) && not (over e x))
                  (λ x.
                    ap not (any_of-append (λ o. over o x) xs (e ∷ []))
                    ∙ not_or (any_of (λ o. over o x) xs) (over e x))
                  xs
                ∙ sym (keep-keep (λ o. not (over e o)) (λ x. not (any_of (λ o. over o x) xs)) xs))
          ∙ sym (
              ap
                (λ b.
                  if b
                  then undominated xs
                  else keep (λ o. not (over e o)) (undominated xs) ++ e ∷ [])
                h)

  -- Entry by entry, a store comes to hold the entries that none dominates.
  pub join_all-undominated :
      (xs es : List A) → join_all (undominated xs) es ≡ undominated (xs ++ es)
  join_all-undominated xs [] = sym (ap undominated (append-nil xs))
  join_all-undominated xs (e ∷ es) =
      ap (λ store. join_all store es) (join-undominated xs e)
      ∙ join_all-undominated (xs ++ e ∷ []) es
      ∙ ap undominated (append_assoc xs (e ∷ []) es)
