-- ===== src/Observations/Fold/Absent.antt =====
-- The records that an observation did not return: what the fold of its difference leaves of them.
use atomic_plugins.Prelude.{
  keep, ℕ, String, Bool-cases, All, All_weaken, true, false, List, [], ◌∷◌, map, ◌≡◌, refl, ap, ◌∙◌,
  inl, inr, arith,
}
use atomic_plugins.Prelude.Sorting.{sort_by, All-sort_by}
use atomic_plugins.Observations.Types.{Scope, Observation, Records}
use atomic_plugins.Observations.Diff.{includes, text_before, is_missing, absent_ids}
use atomic_plugins.Observations.Fold.Missing.{
  includes-sort_by, IsListed, all-IsListed, none_missing,
}
use atomic_plugins.Observations.Fold.Marked.{IsPending}
use atomic_plugins.Observations.Fold.Sound.{IsKeyed}

module _ (ms : String → ℕ) (scope : Scope) (returned : List String) where
  -- The ids that the difference lists were not returned.
  missing-not_returned :
      (m : Records)
      → All
          (λ i. includes i returned ≡ false)
          (map (λ e. e.1.id) (keep (λ e. is_missing ms scope returned e.1) m))
  unfolding is_missing
  missing-not_returned [] = tt
  missing-not_returned (e ∷ m) = ground (arith, missing-not_returned m)

sort_nil : sort_by text_before [] ≡ []
unfolding sort_by
sort_nil = refl

module _ (ms : String → ℕ) (obs : Observation) where
  abbrev returned_by : List String
  returned_by = map (λ r. r.id) obs.records

  pub absent_ids-not_returned :
      (m : Records) → All (λ i. includes i returned_by ≡ false) (absent_ids ms obs m)
  absent_ids-not_returned m = elim (Bool-cases obs.header.complete) [
    | inl e ↦ rw e (
        All-sort_by text_before (λ i. includes i returned_by ≡ false)
          (map (λ e. e.1.id) (keep (λ e. is_missing ms obs.header.scope returned_by e.1) m))
          (missing-not_returned ms obs.header.scope returned_by m))
    | inr e ↦ rw e tt
  ]

  listed_sorted :
      (ids : List String) (m : Records)
      → All IsKeyed m
      → All (IsListed ms obs.header.scope returned_by ids) m
      → All (IsPending ms obs.header returned_by (sort_by text_before ids)) m
  listed_sorted ids [] k h = tt
  listed_sorted ids (e ∷ m) (k, ks) (p, h) =
      ((k, λ q. includes-sort_by e.1.id ids ∙ p q), listed_sorted ids m ks h)

  -- A complete observation lists every record that is missing.
  pub absent_ids-IsPending :
      (m : Records)
      → obs.header.complete ≡ true
      → All IsKeyed m
      → All (IsPending ms obs.header returned_by (absent_ids ms obs m)) m
  absent_ids-IsPending m e k = rw e (
      listed_sorted
        (map (λ e. e.1.id) (keep (λ e. is_missing ms obs.header.scope returned_by e.1) m)) m k
        (all-IsListed ms obs.header.scope returned_by m))

  -- Where no record is missing, none is listed.
  pub absent_ids-nil :
      (m : Records)
      → (obs.header.complete ≡ true → All (IsPending ms obs.header returned_by []) m)
      → absent_ids ms obs m ≡ []
  absent_ids-nil m h = elim (Bool-cases obs.header.complete) [
    | inl e ↦ rw e (
        ap (λ l. sort_by text_before (map (λ e. e.1.id) l))
          (none_missing ms obs.header.scope returned_by m (
            All_weaken (IsPending ms obs.header returned_by [])
              (IsListed ms obs.header.scope returned_by []) (λ e p. p.1) m (h e)))
        ∙ sort_nil)
    | inr e ↦ rw e refl
  ]
