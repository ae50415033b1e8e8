-- ===== src/Devonian/Reconcile/Deletion.antt =====
-- Deletions in devonian/src/reconcileRecord.ts.
use atomic_plugins.Prelude.{
  ◌≡◌, refl, sym, ap, ◌∙◌, String, Bool, true, false, not, ◌&&◌, ◌||◌, List, [], ◌∷◌, if◌then◌else◌,
  arith,
}
use atomic_plugins.Devonian.Reconcile.Visited.{true-not-false}
use atomic_plugins.Devonian.Reconcile.{
  SyncRecord, unseen, deleted, projection, at_record, SyncDecision, empty_decision, is_unseen,
  is_deleted, equal, property_of, properties, created, reconcile_property, reconcile_properties,
  equal_records, reconcile_deletion, reconcile_record,
}

module _ {Value : Type 0} where
  abbrev deletes : SyncDecision Value → Bool × Bool
  deletes d = (d.delete_local, d.delete_remote)

  turn_deletes :
      (s h t : Bool) (d e f g : SyncDecision Value)
      → deletes e ≡ deletes d
      → deletes f ≡ deletes d
      → deletes g ≡ deletes d
      → deletes (if s then d else if h then e else if t then f else g) ≡ deletes d
  turn_deletes true h t d e f g p q r = refl
  turn_deletes false true t d e f g p q r = p
  turn_deletes false false true d e f g p q r = q
  turn_deletes false false false d e f g p q r = r

  first_only :
      (a b : Bool) (x y z : SyncDecision Value)
      → y.delete_local ≡ false
      → z.delete_local ≡ false
      → (if a then x else if b then y else z).delete_local ≡ true
      → a ≡ true
  first_only true b x y z p q h = refl
  first_only false true x y z p q h = sym p ∙ h
  first_only false false x y z p q h = sym q ∙ h

  second_only :
      (a b c : Bool) (x y z w : SyncDecision Value)
      → x.delete_local ≡ false
      → z.delete_local ≡ false
      → w.delete_local ≡ false
      → (if a then x else if b then y else if c then z else w).delete_local ≡ true
      → y.delete_local ≡ true
  second_only true b c x y z w p q r h = absurd (true-not-false (sym h ∙ p))
  second_only false true c x y z w p q r h = h
  second_only false false true x y z w p q r h = absurd (true-not-false (sym h ∙ q))
  second_only false false false x y z w p q r h = absurd (true-not-false (sym h ∙ r))

  is_deleted-deleted : (r : SyncRecord Value) → is_deleted r ≡ true → r ≡ deleted
  is_deleted-deleted unseen h = absurd (true-not-false (sym h))
  is_deleted-deleted deleted h = refl
  is_deleted-deleted (projection fields) h = absurd (true-not-false (sym h))

and_left : (a b : Bool) → (a && b) ≡ true → a ≡ true
and_left a b h = ground arith

and_right : (a b : Bool) → (a && b) ≡ true → b ≡ true
and_right a b h = ground arith

module _ {Value : Type 0} (stringify : Value → String)
    (stringify_object : List (String × Value) → String) (base local remote : SyncRecord Value) where
  loop_deletes :
      (ps : List String) (d : SyncDecision Value)
      → deletes (reconcile_properties stringify base local remote ps d) ≡ deletes d
  unfolding reconcile_properties reconcile_property
  loop_deletes [] d = refl
  loop_deletes (p ∷ ps) d =
      loop_deletes ps (reconcile_property stringify base local remote p d)
      ∙ turn_deletes (equal stringify (property_of local p) (property_of remote p))
          (equal stringify (property_of local p) (property_of base p))
          (equal stringify (property_of remote p) (property_of base p)) d _ _ _ refl refl refl

  deletion_only :
      (reconcile_deletion stringify_object base local remote).delete_local ≡ true
      → (equal_records stringify_object local base && is_deleted remote) ≡ true
  unfolding reconcile_deletion
  deletion_only h =
      first_only (equal_records stringify_object local base && is_deleted remote)
        (equal_records stringify_object remote base && is_deleted local)
        (record empty_decision { delete_local = true })
        (record empty_decision { delete_remote = true })
        (record empty_decision { conflicts = at_record base local remote ∷ [] }) refl refl h

  -- A decision deletes the local record only where the remote one is deleted and the local one is
  -- as in the baseline.
  pub reconcile_record-deletes :
      (reconcile_record stringify stringify_object base local remote).delete_local ≡ true
      → (remote ≡ deleted) × (equal_records stringify_object local base ≡ true)
  unfolding reconcile_record
  reconcile_record-deletes h =
      let k = deletion_only (
        second_only (equal_records stringify_object local remote)
          (is_deleted local || is_deleted remote)
          (not (is_unseen base) && (is_unseen local || is_unseen remote)) _
          (reconcile_deletion stringify_object base local remote) empty_decision _ refl refl
          (ap (λ f. f.0) (loop_deletes (properties base local remote) (created base local remote)))
          h) in
      (is_deleted-deleted remote (and_right _ _ k), and_left _ _ k)
