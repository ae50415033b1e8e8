-- ===== src/Devonian/Reconcile/Visited.antt =====
-- The properties that the loop of devonian/src/reconcileRecord.ts visits.
use atomic_plugins.Prelude.{
  ◌≡◌, refl, sym, ap, ◌∙◌, inl, inr, String, Bool, true, false, ◌||◌, none, List, [], ◌∷◌, ◌++◌,
  map, str_eq, eq_iff, Bool-cases, arith,
}
use atomic_plugins.Prelude.Grouping.{find}
use atomic_plugins.Devonian.Reconcile.{
  SyncRecord, unseen, deleted, projection, property_of, keys_of, includes, distinct_after,
  properties,
}

includes-append :
    (qs rs : List String) (p : String) → includes (qs ++ rs) p ≡ (includes qs p || includes rs p)
includes-append [] rs p = refl
includes-append (q ∷ qs) rs p = ground (arith, includes-append qs rs p)

pub true-not-false : ¬ (true ≡ false)
true-not-false h = cc

or-right : (a b : Bool) → a ≡ false → (a || b) ≡ true → b ≡ true
or-right true b e h = cc
or-right false b e h = h

distinct_after-includes :
    (ks met : List String) (p : String)
    → includes ks p ≡ true
    → includes met p ≡ false
    → includes (distinct_after met ks) p ≡ true
unfolding distinct_after
distinct_after-includes [] met p h k = h
distinct_after-includes (q ∷ ks) met p h k = elim (Bool-cases (includes met q)) [
  | inl e ↦ rw e (elim (Bool-cases (str_eq q p)) [
    | inl f ↦ absurd (true-not-false (sym e ∙ ap (includes met) ((eq_iff q p).0 f) ∙ k))
    | inr f ↦ distinct_after-includes ks met p (or-right _ _ f h) k
  ])
  | inr e ↦ rw e (elim (Bool-cases (str_eq q p)) [
    | inl f ↦ rw f refl
    | inr f ↦ rw f (distinct_after-includes ks (q ∷ met) p (or-right _ _ f h) (rw f k))
  ])
]

or-none : (a b : Bool) → (a || b) ≡ false → (a ≡ false) × (b ≡ false)
or-none true b h = cc
or-none false b h = (refl, h)

module _ {Value : Type 0} where
  find-keys :
      (fields : List (String × Value)) (p : String)
      → includes (map (λ f. f.0) fields) p ≡ false
      → find p fields ≡ none
  unfolding find
  find-keys [] p h = refl
  find-keys ((q, v) ∷ fields) p h = elim (Bool-cases (str_eq q p)) [
    | inl e ↦
        absurd (true-not-false (sym (ap (λ b. b || includes (map (λ f. f.0) fields) p) e) ∙ h))
    | inr e ↦
        rw e (find-keys fields p (sym (ap (λ b. b || includes (map (λ f. f.0) fields) p) e) ∙ h))
  ]

  property_of-keys :
      (r : SyncRecord Value) (p : String) → includes (keys_of r) p ≡ false → property_of r p ≡ none
  unfolding property_of
  property_of-keys unseen p h = refl
  property_of-keys deleted p h = refl
  property_of-keys (projection fields) p h = find-keys fields p h

  -- A property that is not visited is missing everywhere.
  pub properties-none :
      (base local remote : SyncRecord Value) (p : String)
      → includes (properties base local remote) p ≡ false
      → (property_of base p ≡ none) × (property_of local p ≡ none) × (property_of remote p ≡ none)
  unfolding properties
  properties-none base local remote p h =
      elim (Bool-cases (includes (keys_of base ++ (keys_of local ++ keys_of remote)) p)) [
        | inl e ↦ absurd (
            true-not-false (
              sym (
                distinct_after-includes (keys_of base ++ (keys_of local ++ keys_of remote)) [] p e
                  refl)
              ∙ h))
        | inr e ↦
            let f =
              or-none _ _
                (sym (includes-append (keys_of base) (keys_of local ++ keys_of remote) p) ∙ e) in
            let g = or-none _ _ (sym (includes-append (keys_of local) (keys_of remote) p) ∙ f.1) in
            (
              property_of-keys base p f.0,
              property_of-keys local p g.0,
              property_of-keys remote p g.1,
            )
      ]
