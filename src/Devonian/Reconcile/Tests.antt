-- ===== src/Devonian/Reconcile/Tests.antt =====
-- An issue with a baseline: the title changes on one side and the labels on the other; then both
-- sides change the title; then one side is deleted. Values are texts here, and their own JSON.
use atomic_plugins.Prelude.{◌≡◌, refl, String, true, none, some, List, [], ◌∷◌}
use atomic_plugins.Prelude.JsText.{◌+++◌}
use atomic_plugins.Prelude.Grouping.{find, put}
use atomic_plugins.Devonian.Reconcile.{
  SyncRecord, unseen, deleted, projection, SyncDecision, equal, equal_records, reconcile_record,
  reconcile_properties, reconcile_property, properties, distinct_after, same_text,
  reconcile_deletion, property_of, acknowledged_baseline,
}
use atomic_plugins.Devonian.Reconcile.Loop.{in_conflict}
use atomic_plugins.Devonian.Reconcile.Laws.{after, reconcile_record-Agree, reconcile_record-kept}
use atomic_plugins.Devonian.Reconcile.Deletion.{reconcile_record-deletes}

abbrev own_text : String → String
own_text s = s

abbrev object_text : List (String × String) → String
object_text [] = "."
object_text ((p, v) ∷ fields) = p +++ "=" +++ v +++ ";" +++ object_text fields

abbrev issue : String → String → SyncRecord String
issue title label = projection (("title", title) ∷ ("label", label) ∷ [])

abbrev both : SyncDecision String
both =
    reconcile_record own_text object_text (issue "Bug" "new") (issue "A bug" "new")
      (issue "Bug" "done")

both_written :
    (both.local ≡ ("label", some "done") ∷ []) × (both.remote ≡ ("title", some "A bug") ∷ [])
unfolding reconcile_record reconcile_properties reconcile_property properties distinct_after equal
    equal_records same_text property_of find put
both_written = (refl, refl)

reconcile_record-Agree_example :
    equal own_text
      (after both.local (issue "A bug" "new") "title")
      (after both.remote (issue "Bug" "done") "title")
    ≡ true
unfolding reconcile_record reconcile_properties reconcile_property properties distinct_after equal
    equal_records same_text property_of find put
reconcile_record-Agree_example =
    reconcile_record-Agree own_text object_text (issue "Bug" "new") (issue "A bug" "new")
      (issue "Bug" "done") (refl, refl, refl) "title" refl

reconcile_record-kept_example :
    (after both.local (issue "A bug" "new") "title" ≡ some "A bug")
    × (equal own_text (after both.remote (issue "Bug" "done") "title") (some "A bug") ≡ true)
unfolding equal equal_records same_text property_of find
reconcile_record-kept_example =
    reconcile_record-kept own_text object_text (issue "Bug" "new") (issue "A bug" "new")
      (issue "Bug" "done") (refl, refl, refl) "title" refl

abbrev conflicting : SyncDecision String
conflicting =
    reconcile_record own_text object_text (issue "Bug" "new") (issue "A bug" "new")
      (issue "The bug" "new")

-- Both changed the title, and it is written on neither side.
title_in_conflict : in_conflict "title" conflicting ≡ true
unfolding reconcile_record reconcile_properties reconcile_property properties distinct_after equal
    equal_records same_text property_of find
title_in_conflict = refl

abbrev gone : SyncRecord String
gone = deleted

reconcile_record-deletes_example :
    (gone ≡ deleted) × (equal_records object_text (issue "Bug" "new") (issue "Bug" "new") ≡ true)
unfolding reconcile_record reconcile_deletion equal_records same_text
reconcile_record-deletes_example =
    reconcile_record-deletes own_text object_text (issue "Bug" "new") (issue "Bug" "new") gone refl

-- A record that one side has not seen is created from the other where there is no baseline.
missing_created :
    (reconcile_record own_text object_text unseen unseen (issue "Bug" "new")).create_local ≡ true
unfolding reconcile_record reconcile_properties reconcile_property properties distinct_after equal
    equal_records same_text property_of find
missing_created = refl

still_differ : acknowledged_baseline object_text (issue "Bug" "new") (issue "Bug" "done") ≡ none
unfolding acknowledged_baseline equal_records same_text
still_differ = refl
