-- ===== src/Devonian/Reconcile.antt =====
-- devonian/src/reconcileRecord.ts. A property's value is of any type, as the code only copies it
-- and compares its text; the package's `stringify` is a parameter, for a value and for an object.
pub mod Loop
mod Visited
mod Sides
pub mod Laws
pub mod Deletion
mod Tests
use atomic_plugins.Prelude.{
  String, Bool, true, false, not, ◌&&◌, ◌||◌, Option, none, some, List, [], ◌∷◌, ◌++◌, map, str_eq,
  if◌then◌else◌,
}
use atomic_plugins.Prelude.Grouping.{find, put}

-- `undefined`, `null`, or an object.
pub data SyncRecord (Value : Type 0) : Type 0 where
  unseen : SyncRecord Value
  deleted : SyncRecord Value
  projection : List (String × Value) → SyncRecord Value

pub data SyncConflict (Value : Type 0) : Type 0 where
  at_record : SyncRecord Value → SyncRecord Value → SyncRecord Value → SyncConflict Value
  at_property : String → Option Value → Option Value → Option Value → SyncConflict Value

pub record SyncDecision (Value : Type 0) : Type 0 where
  pub local : List (String × Option Value)
  pub remote : List (String × Option Value)
  pub create_local : Bool
  pub create_remote : Bool
  pub delete_local : Bool
  pub delete_remote : Bool
  pub conflicts : List (SyncConflict Value)
  pub agreed : Option (SyncRecord Value)

abbrev pub empty_decision : {Value : Type 0} → SyncDecision Value
empty_decision = record {
  local = [];
  remote = [];
  create_local = false;
  create_remote = false;
  delete_local = false;
  delete_remote = false;
  conflicts = [];
  agreed = none;
}

-- `===` on texts that may be `undefined`
unfoldable pub same_text : Option String → Option String → Bool
same_text none none = true
same_text none (some t) = false
same_text (some s) none = false
same_text (some s) (some t) = str_eq s t

module _ {Value : Type 0} where
  -- `record?.[property]`
  unfoldable pub property_of : SyncRecord Value → String → Option Value
  property_of unseen p = none
  property_of deleted p = none
  property_of (projection fields) p = find p fields

  -- `Object.keys(record ?? {})`
  abbrev pub keys_of : SyncRecord Value → List String
  keys_of unseen = []
  keys_of deleted = []
  keys_of (projection fields) = map (λ f. f.0) fields

  abbrev pub is_unseen : SyncRecord Value → Bool
  is_unseen unseen = true
  is_unseen deleted = false
  is_unseen (projection fields) = false

  abbrev pub is_deleted : SyncRecord Value → Bool
  is_deleted unseen = false
  is_deleted deleted = true
  is_deleted (projection fields) = false

  -- `if (local !== undefined) result.agreed = structuredClone(local)`
  abbrev pub agreed_on : SyncRecord Value → Option (SyncRecord Value)
  agreed_on local = if is_unseen local then none else some local

abbrev pub includes : List String → String → Bool
includes [] p = false
includes (q ∷ qs) p = str_eq q p || includes qs p

-- `[...new Set(keys)]`, after the keys that were met
unfoldable pub distinct_after : List String → List String → List String
distinct_after met [] = []
distinct_after met (p ∷ ps) =
    let further = distinct_after (p ∷ met) ps in
    let known = distinct_after met ps in if includes met p then known else p ∷ further

module _ {Value : Type 0} where
  unfoldable pub properties : SyncRecord Value → SyncRecord Value → SyncRecord Value → List String
  unfolding distinct_after
  properties base local remote =
      distinct_after [] (keys_of base ++ (keys_of local ++ keys_of remote))

  -- The record that is created where there is no baseline.
  abbrev pub created : SyncRecord Value → SyncRecord Value → SyncRecord Value → SyncDecision Value
  created base local remote = record empty_decision {
    create_local = is_unseen base && is_unseen local && not (is_unseen remote);
    create_remote = is_unseen base && is_unseen remote && not (is_unseen local);
  }

module _ {Value : Type 0} (stringify : Value → String) where
  abbrev pub text_of : Option Value → Option String
  text_of none = none
  text_of (some v) = some (stringify v)

  unfoldable pub equal : Option Value → Option Value → Bool
  equal v w = same_text (text_of v) (text_of w)

  -- One turn of the loop over the properties.
  unfoldable pub reconcile_property :
      SyncRecord Value
      → SyncRecord Value
      → SyncRecord Value
      → String
      → SyncDecision Value
      → SyncDecision Value
  reconcile_property base local remote p d =
      let before = property_of base p in
      let here = property_of local p in
      let there = property_of remote p in
      if equal here there
      then d
      else if equal here before
      then record d { local = put p (λ _. there) d.local }
      else if equal there before
      then record d { remote = put p (λ _. here) d.remote }
      else record d { conflicts = d.conflicts ++ at_property p before here there ∷ [] }

  unfoldable pub reconcile_properties :
      SyncRecord Value
      → SyncRecord Value
      → SyncRecord Value
      → List String
      → SyncDecision Value
      → SyncDecision Value
  reconcile_properties base local remote [] d = d
  reconcile_properties base local remote (p ∷ ps) d =
      reconcile_properties base local remote ps (reconcile_property base local remote p d)

module _ {Value : Type 0} (stringify_object : List (String × Value) → String) where
  abbrev pub record_text : SyncRecord Value → Option String
  record_text unseen = none
  record_text deleted = some "null"
  record_text (projection fields) = some (stringify_object fields)

  unfoldable pub equal_records : SyncRecord Value → SyncRecord Value → Bool
  equal_records r s = same_text (record_text r) (record_text s)

  unfoldable pub reconcile_deletion :
      SyncRecord Value → SyncRecord Value → SyncRecord Value → SyncDecision Value
  reconcile_deletion base local remote =
      if equal_records local base && is_deleted remote
      then record empty_decision { delete_local = true }
      else if equal_records remote base && is_deleted local
      then record empty_decision { delete_remote = true }
      else record empty_decision { conflicts = at_record base local remote ∷ [] }

module _ {Value : Type 0} (stringify : Value → String)
    (stringify_object : List (String × Value) → String) where
  unfoldable pub reconcile_record :
      SyncRecord Value → SyncRecord Value → SyncRecord Value → SyncDecision Value
  reconcile_record base local remote =
      if equal_records stringify_object local remote
      then record empty_decision { agreed = agreed_on local }
      else if is_deleted local || is_deleted remote
      then reconcile_deletion stringify_object base local remote
      else if not (is_unseen base) && (is_unseen local || is_unseen remote)
      then empty_decision
      else reconcile_properties stringify base local remote (properties base local remote)
          (created base local remote)

module _ {Value : Type 0} (stringify_object : List (String × Value) → String) where
  -- `none` is the error that the two still differ.
  unfoldable pub acknowledged_baseline :
      SyncRecord Value → SyncRecord Value → Option (SyncRecord Value)
  acknowledged_baseline local remote =
      if equal_records stringify_object local remote then some local else none
