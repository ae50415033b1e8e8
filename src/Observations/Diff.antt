-- ===== src/Observations/Diff.antt =====
-- `diffObservation` in integrations/timesheets/app/observations.ts: what is new in an observation.
-- `ms` is the code's `Date.parse`; instants are taken to parse.
use atomic_plugins.Prelude.{
  keep, ℕ, String, str_eq, Bool, true, false, not, ◌&&◌, ◌||◌, Option, none, some, List, [], ◌∷◌,
  map, length, ltb, leb, ◌==◌, if◌then◌else◌,
}
use atomic_plugins.Prelude.JsText.{text_lt}
use atomic_plugins.Prelude.Grouping.{find, put}
use atomic_plugins.Prelude.Sorting.{sort_by}
use atomic_plugins.Observations.Json.{
  Json, string, items, object, field, no_fields, item, no_items, Items, object_of, stable_stringify,
  fnv1a,
}
use atomic_plugins.Observations.Types.{
  key_of, Values, RangeScope, Scope, range_scope, id_scope, is_id_scope, CanonicalRecord,
  ObservationHeader, Observation, Incremental, MirrorRecord, Records, Mirror, is_set, value_at,
}

unfoldable pub includes : String → List String → Bool
includes x [] = false
includes x (y ∷ ys) = str_eq y x || includes x ys

unfoldable pub all_of : (String → Bool) → List String → Bool
all_of test [] = true
all_of test (x ∷ xs) = test x && all_of test xs

-- `pick`: the loop over the mask, from the object made so far
unfoldable pub pick : Values → List String → Values → Values
pick fields [] out = out
pick fields (f ∷ mask) out = pick fields mask (put f (λ _. value_at f fields) out)

-- Is the value this text?
unfoldable pub is_text : String → Option Json → Bool
is_text s (some (string t)) = str_eq t s
is_text s _ = false

unfoldable pub has_params : List (String × String) → Values → Bool
unfolding is_text
has_params [] fields = true
has_params ((name, value) ∷ ps) fields = is_text value (find name fields) && has_params ps fields

abbrev pub text_before : String → String → Bool
text_before y x = text_lt y x

-- The digest's list of records, in the order of their ids.
abbrev pub record_before : CanonicalRecord → CanonicalRecord → Bool
record_before y x = text_lt y.id x.id

canonical : List CanonicalRecord → Items
canonical [] = no_items
canonical (r ∷ rs) =
    item
      (object (field "id" (string r.id) (field "fields" (object (object_of r.fields)) no_fields)))
      (canonical rs)

-- Does the mirror hold the record as it was returned, where the mask reads?
unfoldable pub is_same : List String → Values → Option MirrorRecord → Bool
unfolding is_set all_of find
is_same mask masked none = false
is_same mask masked (some previous) =
    not (is_set previous.absent_since)
    && not (is_set previous.deleted_at)
    && all_of
        (λ f.
          str_eq (stable_stringify (value_at f previous.fields))
            (stable_stringify (value_at f masked)))
        mask

abbrev pub masked_of : ObservationHeader → CanonicalRecord → Values
masked_of h r = pick r.fields h.mask []

abbrev pub same : ObservationHeader → Records → CanonicalRecord → Bool
same h m r = is_same h.mask (masked_of h r) (find (key_of h r) m)

abbrev pub masked_record : ObservationHeader → CanonicalRecord → CanonicalRecord
masked_record h r = record { id = r.id; fields = masked_of h r }

-- The loop over the records, for what is pushed and for what is counted.
unfoldable pub changed : ObservationHeader → Records → List CanonicalRecord → List CanonicalRecord
changed h m [] = []
changed h m (r ∷ rs) = if same h m r then changed h m rs else masked_record h r ∷ changed h m rs

abbrev pub is_empty : Incremental → Bool
is_empty i = length i.upserts == 0 && length i.absent == 0

module _ (ms : String → ℕ) where
  -- A field that is no text is not in any range.
  abbrev pub within : RangeScope → Option Json → Bool
  within s (some (string at)) = leb (ms s.from) (ms at) && ltb (ms at) (ms s.to)
  within s _ = false

  unfoldable pub in_scope : Scope → MirrorRecord → Bool
  unfolding has_params
  in_scope (id_scope s) r = str_eq r.collection s.collection && str_eq r.id s.id
  in_scope (range_scope s) r =
      str_eq r.collection s.collection
      && has_params s.params r.fields
      && within s (find s.field_name r.fields)

  -- The test for absence, `returned` being the ids that the read returned.
  unfoldable pub is_missing : Scope → List String → MirrorRecord → Bool
  unfolding is_set includes in_scope
  is_missing scope returned r =
      not (is_set r.deleted_at)
      && (not (is_set r.absent_since) || is_id_scope scope)
      && not (includes r.id returned)
      && in_scope scope r

  abbrev pub absent_ids : Observation → Records → List String
  absent_ids obs m =
      if obs.header.complete
      then sort_by text_before (
          map (λ e. e.1.id)
            (keep (λ e. is_missing obs.header.scope (map (λ r. r.id) obs.records) e.1) m))
      else []

  unfoldable pub diff_observation : Mirror → Observation → Incremental
  unfolding changed pick is_same canonical
  diff_observation mirror obs = record {
    header = obs.header;
    v = 1;
    upserts = changed obs.header mirror.records obs.records;
    absent = absent_ids obs mirror.records;
    unchanged = length (keep (same obs.header mirror.records) obs.records);
    digest = fnv1a (stable_stringify (items (canonical (sort_by record_before obs.records))));
  }
