-- ===== src/Willow/Rows.antt =====
-- integrations/willow-drop/mapping.ts: the row of an entry. `iso`, of a count of milliseconds, is
-- `new Date(…).toISOString()` of the platform, a parameter.
pub mod Laws
mod Tests
use atomic_plugins.Prelude.{
  ℕ, zero, suc, ◌+◌, ◌-◌, ◌*◌, ◌/◌, ◌%◌, Bool, true, false, ◌&&◌, Option, none, some, List, [], ◌∷◌,
  ◌++◌, length, map, get_or, ltb, leb, ◌==◌, if◌then◌else◌,
}
use atomic_plugins.Prelude.Decimal.{decimal_text}
use atomic_plugins.Willow.Reader.{Bytes}
use atomic_plugins.Willow.Drop.{DropEntry, Capability, communal_capability, owned_capability}
use atomic_plugins.Willow.Text.{Text, utf8_text, base64}
use atomic_plugins.Willow.Mapping.{hex_digits, hex, display_path}

abbrev pub max_stored_payload : ℕ
max_stored_payload = 65_536

abbrev pub j2000_tai : ℕ
j2000_tai = 946_727_967_816_000

-- `LEAP_SECONDS`
unfoldable pub leap_seconds : List (ℕ × ℕ)
leap_seconds =
    (1_483_228_800_000_000, 37)
    ∷ (1_435_708_800_000_000, 36)
    ∷ (1_341_100_800_000_000, 35)
    ∷ (1_230_768_000_000_000, 34)
    ∷ (1_136_073_600_000_000, 33)
    ∷ (0, 32)
    ∷ []

abbrev pub year_2100 : ℕ
year_2100 = 4_102_444_800_000_000

-- `LEAP_SECONDS.find(…)`, of which the last always is one.
unfoldable pub offset_in : ℕ → List (ℕ × ℕ) → ℕ
offset_in tai [] = 0
offset_in tai ((start, seconds) ∷ rest) =
    let later = offset_in tai rest in
    if leb start (tai - seconds * 1_000_000) then seconds else later

-- The microseconds since 1970 in UTC, before 2100.
unfoldable pub utc_microseconds : ℕ → Option ℕ
unfolding offset_in leap_seconds
utc_microseconds timestamp =
    let tai = j2000_tai + timestamp in
    let utc = tai - offset_in tai leap_seconds * 1_000_000 in
    if leb year_2100 utc then none else some utc

-- `replace('Z', …)`
unfoldable pub replace_z : Text → Text → Text
replace_z [] by = []
replace_z (c ∷ text) by = let rest = replace_z text by in if c == 90 then by ++ text else c ∷ rest

-- `padStart(3, '0')` of a number below 1000
unfoldable pub three_digits : ℕ → Text
three_digits n = (48 + n / 100) ∷ (48 + n / 10 % 10) ∷ (48 + n % 10) ∷ []

unfoldable pub utc_time : (ℕ → Text) → ℕ → Option Text
unfolding utc_microseconds replace_z three_digits
utc_time iso timestamp = elim (utc_microseconds timestamp) [
  | none ↦ none
  | some utc ↦ some (replace_z (iso (utc / 1_000)) (three_digits (utc % 1_000) ++ 90 ∷ []))
]

-- What JSON.stringify makes of a text of letters and digits, and of a list.
abbrev quoted : Text → Text
quoted text = 34 ∷ text ++ 34 ∷ []

unfoldable pub comma_joined : List Text → Text
comma_joined [] = []
comma_joined (t ∷ []) = t
comma_joined (t ∷ u ∷ ts) = t ++ 44 ∷ comma_joined (u ∷ ts)

abbrev bracketed : List Text → Text
bracketed ts = 91 ∷ comma_joined ts ++ 93 ∷ []

-- The text "willow25" stands first.
unfoldable pub source_id : DropEntry → Text
unfolding comma_joined hex
source_id e = bracketed (
    quoted (119 ∷ 105 ∷ 108 ∷ 108 ∷ 111 ∷ 119 ∷ 50 ∷ 53 ∷ [])
    ∷ quoted (hex e.namespace)
    ∷ quoted (hex e.subspace)
    ∷ bracketed (map (λ c. quoted (hex c)) e.path)
    ∷ [])

pub data PayloadStatus : Type 0 where
  stored too_large not_in_drop : PayloadStatus

-- `entry.capability.kind`
pub data CapabilityKind : Type 0 where
  communal_kind owned_kind : CapabilityKind

abbrev pub kind : Capability → CapabilityKind
kind communal_capability = communal_kind
kind (owned_capability user_key initial_authorisation) = owned_kind

pub record RowValues : Type 0 where
  pub willow_namespace : Text
  pub willow_subspace : Text
  pub willow_path : Text
  pub willow_timestamp : Text
  pub willow_time : Text
  pub willow_payload_length : Text
  pub willow_payload_digest : Text
  pub willow_payload_status : PayloadStatus
  pub willow_payload : Text
  pub willow_payload_base64 : Text
  pub willow_capability : CapabilityKind
  pub willow_source_id : Text

abbrev pub or_empty : Option Text → Text
or_empty none = []
or_empty (some text) = text

unfoldable pub payload_status : Option Bytes → PayloadStatus
payload_status none = not_in_drop
payload_status (some payload) =
    if leb (length payload) max_stored_payload then stored else too_large

-- `text`
unfoldable pub payload_text : Option Bytes → Option Text
payload_text none = none
payload_text (some payload) =
    if leb (length payload) max_stored_payload then utf8_text payload else none

unfoldable pub payload_base64 : Option Bytes → Text
unfolding payload_text
payload_base64 none = []
payload_base64 (some payload) =
    if leb (length payload) max_stored_payload
    then elim (payload_text (some payload)) [ none ↦ base64 payload | some text ↦ [] ]
    else []

unfoldable pub row_values : (ℕ → Text) → DropEntry → RowValues
unfolding utc_time source_id payload_status payload_text payload_base64
row_values iso e = record {
  willow_namespace = hex e.namespace;
  willow_subspace = hex e.subspace;
  willow_path = display_path e.path;
  willow_timestamp = decimal_text e.timestamp;
  willow_time = or_empty (utc_time iso e.timestamp);
  willow_payload_length = decimal_text e.payload_length;
  willow_payload_digest = hex e.payload_digest;
  willow_payload_status = payload_status e.payload;
  willow_payload = or_empty (payload_text e.payload);
  willow_payload_base64 = payload_base64 e.payload;
  willow_capability = kind e.capability;
  willow_source_id = source_id e;
}
