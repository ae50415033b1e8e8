-- ===== src/Observations/Types.antt =====
-- The types of integrations/timesheets/app/observations.ts: observations, what is stored of them,
-- and the mirror, a table of records by their keys with the coverage.
use atomic_plugins.Prelude.{ℕ, String, str_eq, Bool, true, false, not, Option, none, some, List, []}
use atomic_plugins.Prelude.JsText.{◌+++◌}
use atomic_plugins.Prelude.Grouping.{find}
use atomic_plugins.Observations.Coverage.{CoverageSegment}
use atomic_plugins.Observations.Json.{Json, null}

-- An object with names that are not known beforehand.
abbrev pub Values : Type 0
Values = List (String × Json)

pub record RangeScope : Type 0 where
  pub collection : String
  pub params : List (String × String)
  pub field_name : String
  pub from : String
  pub to : String

pub record IdScope : Type 0 where
  pub collection : String
  pub id : String

pub data Scope : Type 0 where
  range_scope : RangeScope → Scope
  id_scope : IdScope → Scope

abbrev pub collection_of : Scope → String
collection_of (range_scope s) = s.collection
collection_of (id_scope s) = s.collection

abbrev pub is_id_scope : Scope → Bool
is_id_scope (range_scope s) = false
is_id_scope (id_scope s) = true

pub record CanonicalRecord : Type 0 where
  pub id : String
  pub fields : Values

pub data ObservationKind : Type 0 where
  by_list : ObservationKind
  by_point : ObservationKind
  by_write_response : ObservationKind

pub record ObservationHeader : Type 0 where
  pub id : String
  pub device : String
  pub sent_at : String
  pub received_at : String
  pub kind : ObservationKind
  pub scope : Scope
  pub mask : List String
  pub complete : Bool
  pub query : Option (List (String × String))

pub record Observation : Type 0 where
  pub header : ObservationHeader
  pub records : List CanonicalRecord

pub record Incremental : Type 0 where
  pub header : ObservationHeader
  pub v : ℕ
  pub upserts : List CanonicalRecord
  pub absent : List String
  pub unchanged : ℕ
  pub digest : String

pub record MirrorRecord : Type 0 where
  pub id : String
  pub collection : String
  pub fields : Values
  pub last_seen_at : String
  pub absent_since : Option String
  pub deleted_at : Option String

-- The records by their keys.
abbrev pub Records : Type 0
Records = List (String × MirrorRecord)

pub record Mirror : Type 0 where
  pub records : Records
  pub coverage : List CoverageSegment

abbrev pub empty_mirror : Mirror
empty_mirror = record { records = []; coverage = [] }

unfoldable pub record_key : String → String → String
record_key collection id = collection +++ "/" +++ id

abbrev pub key_of : ObservationHeader → CanonicalRecord → String
key_of h r = record_key (collection_of h.scope) r.id

-- A field that may be missing counts as set unless it is the empty text.
unfoldable pub is_set : Option String → Bool
is_set none = false
is_set (some s) = not (str_eq s "")

-- `fields[name] ?? null`
abbrev pub or_null : Option Json → Json
or_null none = null
or_null (some v) = v

abbrev pub value_at : String → Values → Json
value_at name fields = or_null (find name fields)
