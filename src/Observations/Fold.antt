-- ===== src/Observations/Fold.antt =====
-- `fold` in integrations/timesheets/app/observations.ts: the mirror that the stored differences make.
-- `ms` is the code's `Date.parse`; instants are taken to parse.
pub mod Sound
pub mod Written
pub mod Returned
mod Missing
mod Marked
mod Absent
pub mod Again
pub mod Order
mod Alike
pub mod Snapshot
mod Tests
use atomic_plugins.Prelude.{
  ℕ, String, str_eq, Bool, true, false, not, ◌&&◌, ◌||◌, Option, none, some, List, [], ◌∷◌, map,
  ltb, if◌then◌else◌,
}
use atomic_plugins.Prelude.JsText.{text_lt, ◌+++◌}
use atomic_plugins.Prelude.Grouping.{put}
use atomic_plugins.Prelude.Sorting.{sort_by}
use atomic_plugins.Observations.Coverage.{CoverageSegment, add_coverage}
use atomic_plugins.Observations.Json.{
  Json, string, items, object, Fields, field, no_fields, Items, item, no_items, object_of,
  stable_stringify,
}
use atomic_plugins.Observations.Types.{
  key_of, Values, RangeScope, Scope, range_scope, id_scope, collection_of, is_id_scope,
  CanonicalRecord, ObservationHeader, Incremental, MirrorRecord, Records, Mirror, record_key,
  is_set,
}

-- A change of the record at a key, if there is one.
unfoldable pub adjust : String → (MirrorRecord → MirrorRecord) → Records → Records
adjust k change [] = []
adjust k change ((j, r) ∷ m) = if str_eq j k then (j, change r) ∷ m else (j, r) ∷ adjust k change m

-- `{ ...fields, ...more }`
unfoldable pub merged : Values → Values → Values
merged fields [] = fields
merged fields ((f, v) ∷ more) = merged (put f (λ _. v) fields) more

abbrev pub fields_of : Option MirrorRecord → Values
fields_of none = []
fields_of (some r) = r.fields

unfoldable pub upserted : ObservationHeader → CanonicalRecord → Option MirrorRecord → MirrorRecord
unfolding merged
upserted h u previous = record {
  id = u.id;
  collection = collection_of h.scope;
  fields = merged (fields_of previous) u.fields;
  last_seen_at = h.received_at;
  absent_since = none;
  deleted_at = none;
}

unfoldable pub upsert_all : ObservationHeader → List CanonicalRecord → Records → Records
unfolding upserted
upsert_all h [] m = m
upsert_all h (u ∷ us) m = upsert_all h us (put (key_of h u) (upserted h u) m)

-- A read of one record that finds nothing confirms that it is gone.
unfoldable pub marked : ObservationHeader → MirrorRecord → MirrorRecord
marked h r =
    if is_id_scope h.scope
    then record r { deleted_at = some h.received_at; absent_since = none }
    else if not (is_set r.deleted_at) && not (is_set r.absent_since)
    then record r { absent_since = some h.received_at }
    else r

unfoldable pub mark_all : ObservationHeader → List String → Records → Records
unfolding marked adjust
mark_all h [] m = m
mark_all h (i ∷ is) m = mark_all h is (adjust (record_key (collection_of h.scope) i) (marked h) m)

abbrev param_before : String × String → String × String → Bool
param_before y x = text_lt y.0 x.0

ampersands : List String → String
ampersands [] = ""
ampersands (s ∷ []) = s
ampersands (s ∷ t ∷ ss) = s +++ "&" +++ ampersands (t ∷ ss)

unfoldable pub coverage_key : RangeScope → String
unfolding ampersands
coverage_key s =
    s.collection
    +++ "?"
    +++ ampersands (map (λ p. p.0 +++ "=" +++ p.1) (sort_by param_before s.params))
    +++ "#"
    +++ s.field_name

module _ (ms : String → ℕ) where
  -- Does `y` come before `x` in the order of the fold? Of two texts that differ one is less.
  unfoldable pub position_before : ObservationHeader → ObservationHeader → Bool
  unfolding text_lt
  position_before y x =
      if ltb (ms y.received_at) (ms x.received_at)
      then true
      else if ltb (ms x.received_at) (ms y.received_at)
      then false
      else if str_eq y.received_at x.received_at
      then text_lt y.id x.id
      else text_lt y.received_at x.received_at

  unfoldable pub covered : ObservationHeader → Scope → List CoverageSegment → List CoverageSegment
  unfolding coverage_key
  covered h (id_scope s) cs = cs
  covered h (range_scope s) cs =
      if h.complete then add_coverage ms cs (coverage_key s) s.from s.to h.received_at else cs

  unfoldable pub apply_incremental : Mirror → Incremental → Mirror
  unfolding upsert_all mark_all covered
  apply_incremental m i = record {
    records = mark_all i.header i.absent (upsert_all i.header i.upserts m.records);
    coverage = covered i.header i.header.scope m.coverage;
  }

  unfoldable pub apply_all : Mirror → List Incremental → Mirror
  apply_all m [] = m
  apply_all m (i ∷ is) = apply_all (apply_incremental m i) is

  abbrev pub segment_before : CoverageSegment → CoverageSegment → Bool
  segment_before y x =
      text_lt y.key x.key || (not (text_lt x.key y.key) && ltb (ms y.from) (ms x.from))

  abbrev pub incremental_before : Incremental → Incremental → Bool
  incremental_before y x = position_before y.header x.header

  unfoldable pub fold : Mirror → List Incremental → Mirror
  unfolding apply_all
  fold base is =
      let m = apply_all base (sort_by incremental_before is) in
      record m { coverage = sort_by segment_before m.coverage }

-- The JSON of a mirror, for its digest: a field that is missing is left out.
abbrev optional_field : String → Option String → Fields → Fields
optional_field name none rest = rest
optional_field name (some t) rest = field name (string t) rest

abbrev record_json : MirrorRecord → Json
record_json r = object (
    field "id" (string r.id) (
      field "collection" (string r.collection) (
        field "fields" (object (object_of r.fields)) (
          field "lastSeenAt" (string r.last_seen_at) (
            optional_field "absentSince" r.absent_since
              (optional_field "deletedAt" r.deleted_at no_fields))))))

abbrev segment_json : CoverageSegment → Json
segment_json c = object (
    field "key" (string c.key) (
      field "from" (string c.from)
        (field "to" (string c.to) (field "confirmedAt" (string c.confirmed_at) no_fields))))

segments_json : List CoverageSegment → Items
segments_json [] = no_items
segments_json (c ∷ cs) = item (segment_json c) (segments_json cs)

unfoldable pub mirror_digest : (String → ℕ) → Mirror → String
unfolding segments_json
mirror_digest ms m = stable_stringify (
    object (
      field "records" (object (object_of (map (λ e. (e.0, record_json e.1)) m.records))) (
        field "coverage" (items (segments_json (sort_by (segment_before ms) m.coverage)))
          no_fields)))
