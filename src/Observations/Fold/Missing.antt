-- ===== src/Observations/Fold/Missing.antt =====
-- The records that `diffObservation` finds missing, and the list of their ids.
use atomic_plugins.Prelude.{
  keep, ℕ, String, str_eq, eq_iff, Bool-cases, All, true, false, ◌||◌, List, [], ◌∷◌, map, ◌≡◌,
  refl, ap, sym, subst, ◌∙◌, inl, inr, if◌then◌else◌, arith,
}
use atomic_plugins.Prelude.Sorting.{insert_by, sort_by}
use atomic_plugins.Observations.Types.{
  collection_of, Scope, range_scope, id_scope, MirrorRecord, Records,
}
use atomic_plugins.Observations.Diff.{includes, text_before, in_scope, is_missing}

includes-insert_by :
    (x y : String) (ys : List String)
    → includes x (insert_by text_before y ys) ≡ (str_eq y x || includes x ys)
unfolding includes insert_by
includes-insert_by x y [] = refl
includes-insert_by x y (z ∷ zs) = ground (arith, includes-insert_by x y zs)

pub includes-sort_by :
    (x : String) (ys : List String) → includes x (sort_by text_before ys) ≡ includes x ys
unfolding includes sort_by
includes-sort_by x [] = refl
includes-sort_by x (y ∷ ys) =
    includes-insert_by x y (sort_by text_before ys)
    ∙ ap (λ b. str_eq y x || b) (includes-sort_by x ys)

pub in_scope_collection :
    (ms : String → ℕ) (scope : Scope) (r : MirrorRecord)
    → in_scope ms scope r ≡ true
    → r.collection ≡ collection_of scope
unfolding in_scope
in_scope_collection ms (range_scope s) r h = ground (arith, eq_iff r.collection s.collection)
in_scope_collection ms (id_scope s) r h = ground (arith, eq_iff r.collection s.collection)

module _ (ms : String → ℕ) (scope : Scope) (returned : List String) where
  -- Where a record is missing, its id is still to be marked.
  abbrev pub IsListed : List String → String × MirrorRecord → Type 0
  IsListed ids e = is_missing ms scope returned e.1 ≡ true → includes e.1.id ids ≡ true

  IsListed-front :
      (i : String) (ids : List String) (m : Records)
      → All (IsListed ids) m
      → All (IsListed (i ∷ ids)) m
  unfolding includes
  IsListed-front i ids [] h = tt
  IsListed-front i ids (e ∷ m) (p, h) = (λ q. ground (arith, p q), IsListed-front i ids m h)

  pub all-IsListed :
      (m : Records)
      → All (IsListed (map (λ e. e.1.id) (keep (λ e. is_missing ms scope returned e.1) m))) m
  unfolding includes
  all-IsListed [] = tt
  all-IsListed (e ∷ m) = elim (Bool-cases (is_missing ms scope returned e.1)) [
    | inl p ↦
        subst
          (λ b.
            All
              (IsListed (
                map (λ e. e.1.id)
                  (if b
                    then e ∷ keep (λ e. is_missing ms scope returned e.1) m
                    else keep (λ e. is_missing ms scope returned e.1) m)))
              (e ∷ m))
          (sym p)
          (λ q. ground (arith, eq_iff e.1.id e.1.id), IsListed-front e.1.id _ m (all-IsListed m))
    | inr p ↦
        subst
          (λ b.
            All
              (IsListed (
                map (λ e. e.1.id)
                  (if b
                    then e ∷ keep (λ e. is_missing ms scope returned e.1) m
                    else keep (λ e. is_missing ms scope returned e.1) m)))
              (e ∷ m))
          (sym p) (λ q. absurd (cc), all-IsListed m)
  ]

  pub none_missing :
      (m : Records) → All (IsListed []) m → keep (λ e. is_missing ms scope returned e.1) m ≡ []
  unfolding includes
  none_missing [] h = refl
  none_missing (e ∷ m) (p, h) = elim (Bool-cases (is_missing ms scope returned e.1)) [
    | inl q ↦ absurd (let r = p q in cc)
    | inr q ↦ rw q (none_missing m h)
  ]

  -- What was returned is not missing.
  pub returned-not_missing :
      (r : MirrorRecord) → includes r.id returned ≡ true → is_missing ms scope returned r ≡ false
  unfolding is_missing
  returned-not_missing r h = ground arith

  pub missing-in_scope :
      (r : MirrorRecord) → is_missing ms scope returned r ≡ true → in_scope ms scope r ≡ true
  unfolding is_missing
  missing-in_scope r h = ground arith
