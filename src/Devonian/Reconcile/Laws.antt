-- ===== src/Devonian/Reconcile/Laws.antt =====
-- The decision of devonian/src/reconcileRecord.ts: what each side holds once it is carried out.
use atomic_plugins.Prelude.{
  ◌≡◌, refl, sym, ap, ◌∙◌, inl, inr, String, Bool, true, false, not, ◌&&◌, ◌||◌, Option, none, some,
  List, if◌then◌else◌, Bool-cases,
}
use atomic_plugins.Prelude.Grouping.{find}
use atomic_plugins.Devonian.Reconcile.{
  SyncRecord, SyncDecision, same_text, property_of, is_unseen, is_deleted, includes, equal,
  properties, created, reconcile_properties, equal_records, reconcile_record,
}
use atomic_plugins.Devonian.Reconcile.Loop.{
  in_conflict, takes, gives, clashes, reconcile_properties-local, reconcile_properties-remote,
  reconcile_properties-conflict,
}
use atomic_plugins.Devonian.Reconcile.Visited.{properties-none}
use atomic_plugins.Devonian.Reconcile.Sides.{if_true, held, agreement, change_kept, clash_only}

module _ {Value : Type 0} where
  -- What a side holds once its writes are made.
  unfoldable pub after : List (String × Option Value) → SyncRecord Value → String → Option Value
  after writes r p = elim (find p writes) [ some v ↦ v | none ↦ property_of r p ]

module _ {Value : Type 0} (stringify : Value → String)
    (stringify_object : List (String × Value) → String) (base local remote : SyncRecord Value) where
  -- The two sides differ, neither is deleted, and none is unseen where there is a baseline.
  abbrev pub AreMerged : Type 0
  AreMerged =
      (equal_records stringify_object local remote ≡ false)
      × ((is_deleted local || is_deleted remote) ≡ false)
      × ((not (is_unseen base) && (is_unseen local || is_unseen remote)) ≡ false)

  abbrev decision : SyncDecision Value
  decision = reconcile_record stringify stringify_object base local remote

  merged :
      AreMerged
      → decision
        ≡ reconcile_properties stringify base local remote
            (properties base local remote)
            (created base local remote)
  unfolding reconcile_record
  merged (e, f, g) = rw (e, f, g) refl

  visited :
      (test : Option Value → Option Value → Option Value → Bool) (p : String)
      → test none none none ≡ false
      → (includes (properties base local remote) p
          && test (property_of base p) (property_of local p) (property_of remote p))
        ≡ test (property_of base p) (property_of local p) (property_of remote p)
  visited test p h = elim (Bool-cases (includes (properties base local remote) p)) [
    | inl e ↦ rw e refl
    | inr e ↦ let n = properties-none base local remote p e in rw (e, n.0, n.1, n.2, h) refl
  ]

  local_lem :
      AreMerged
      → (p : String)
      → find p decision.local
        ≡ (if takes stringify base local remote p then some (property_of remote p) else none)
  unfolding find equal same_text
  local_lem m p =
      ap (λ d. find p d.local) (merged m)
      ∙ reconcile_properties-local stringify base local remote (properties base local remote) p
          (created base local remote)
      ∙ ap (λ b. if b then some (property_of remote p) else none)
          (visited
            (λ before here there. not (equal stringify here there) && equal stringify here before) p
            refl)

  remote_lem :
      AreMerged
      → (p : String)
      → find p decision.remote
        ≡ (if gives stringify base local remote p then some (property_of local p) else none)
  unfolding find equal same_text
  remote_lem m p =
      ap (λ d. find p d.remote) (merged m)
      ∙ reconcile_properties-remote stringify base local remote (properties base local remote) p
          (created base local remote)
      ∙ ap (λ b. if b then some (property_of local p) else none)
          (visited
            (λ before here there.
              not (equal stringify here there)
              && (not (equal stringify here before) && equal stringify there before))
            p refl)

  conflict_lem :
      AreMerged → (p : String) → in_conflict p decision ≡ clashes stringify base local remote p
  unfolding equal same_text
  conflict_lem m p =
      ap (in_conflict p) (merged m)
      ∙ reconcile_properties-conflict stringify base local remote (properties base local remote) p
          (created base local remote)
      ∙ ap (λ b. if b then true else false)
          (visited
            (λ before here there.
              not (equal stringify here there)
              && (not (equal stringify here before) && not (equal stringify there before)))
            p refl)
      ∙ if_true (clashes stringify base local remote p)

  abbrev here_after : String → Option Value
  here_after = after decision.local local

  abbrev there_after : String → Option Value
  there_after = after decision.remote remote

  here_lem :
      AreMerged
      → (p : String)
      → here_after p ≡ (
          if takes stringify base local remote p then property_of remote p else property_of local p)
  unfolding after
  here_lem m p = held (takes stringify base local remote p) _ _ _ (local_lem m p)

  there_lem :
      AreMerged
      → (p : String)
      → there_after p ≡ (
          if gives stringify base local remote p then property_of local p else property_of remote p)
  unfolding after
  there_lem m p = held (gives stringify base local remote p) _ _ _ (remote_lem m p)

  -- Where the two sides differ, neither is deleted, and none is unseen if there is a baseline, they
  -- hold the same of a property that is not in conflict, once the writes of the decision are made
  -- on both.
  pub reconcile_record-Agree :
      AreMerged
      → (p : String) → in_conflict p decision ≡ false
      → equal stringify (here_after p) (there_after p) ≡ true
  reconcile_record-Agree m p n =
      agreement stringify (equal stringify (property_of local p) (property_of remote p))
        (equal stringify (property_of local p) (property_of base p))
        (equal stringify (property_of remote p) (property_of base p)) _ _ _ _ refl (here_lem m p)
        (there_lem m p) (sym (conflict_lem m p) ∙ n)

  -- Where the two sides differ, neither is deleted, and none is unseen if there is a baseline, a
  -- property that the remote side holds as the baseline does stays on the local side, and the remote
  -- side holds the same of it once the writes are made.
  pub reconcile_record-kept :
      AreMerged
      → (p : String) → equal stringify (property_of remote p) (property_of base p) ≡ true
      → (here_after p ≡ property_of local p)
        × (equal stringify (there_after p) (property_of local p) ≡ true)
  reconcile_record-kept m p t =
      change_kept stringify (property_of base p) _ _ _ _ t (here_lem m p) (there_lem m p)

  -- Where two sides are merged, a property in conflict is written on neither side.
  pub reconcile_record-conflict :
      AreMerged
      → (p : String) → in_conflict p decision ≡ true
      → (find p decision.local ≡ none) × (find p decision.remote ≡ none)
  reconcile_record-conflict m p h =
      let n =
        clash_only (equal stringify (property_of local p) (property_of remote p))
          (equal stringify (property_of local p) (property_of base p))
          (equal stringify (property_of remote p) (property_of base p))
          (sym (conflict_lem m p) ∙ h) in
      (
        local_lem m p ∙ ap (λ k. if k then some (property_of remote p) else none) n.0,
        remote_lem m p ∙ ap (λ k. if k then some (property_of local p) else none) n.1,
      )
