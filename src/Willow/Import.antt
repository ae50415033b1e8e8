-- ===== src/Willow/Import.antt =====
-- integrations/willow-drop/plugin.ts: the records that `run` writes for a drop that is read. `rows`, the
-- host's rows of an identity, is a parameter; a column that holds no text is `none`. A record leaves out
-- the fields that are fixed or repeat the path: `mode`, `isA` and the name.
pub mod Laws
mod Tests
use atomic_plugins.Prelude.{
  ℕ, zero, suc, ◌+◌, ◌-◌, ◌*◌, Bool, true, false, not, ◌&&◌, ◌||◌, Option, none, some, List, [],
  ◌∷◌, ◌++◌, length, leb, ◌==◌, if◌then◌else◌,
}
use atomic_plugins.Prelude.Decimal.{all_digits, value_from}
use atomic_plugins.Willow.Reader.{Bytes}
use atomic_plugins.Willow.Drop.{DropEntry, equal}
use atomic_plugins.Willow.Text.{Text, index_of}
use atomic_plugins.Willow.Mapping.{hex_digits, newer, prune}
use atomic_plugins.Willow.Rows.{
  RowValues, row_values, source_id, PayloadStatus, too_large, stored, not_in_drop,
}

-- The columns of a row that `run` reads.
pub record StoredRow : Type 0 where
  pub parent : Text
  pub timestamp : Option Text
  pub digest : Option Text
  pub size : Option Text

-- `/^\d+$/`
unfoldable pub is_number : Text → Bool
unfolding all_digits
is_number [] = false
is_number (c ∷ text) = all_digits (c ∷ text)

abbrev pub is_some : Option ℕ → Bool
is_some none = false
is_some (some i) = true

unfoldable pub all_hex : Text → Bool
unfolding index_of
all_hex [] = true
all_hex (c ∷ text) = is_some (index_of c hex_digits) && all_hex text

-- `/^[0-9a-f]{64}$/`
unfoldable pub is_digest : Text → Bool
unfolding all_hex
is_digest text = length text == 64 && all_hex text

abbrev pub hex_value : Option ℕ → ℕ
hex_value none = 0
hex_value (some i) = i

-- `parseInt(pair, 16)` of each pair
unfoldable pub hex_pairs : Text → Bytes
unfolding index_of
hex_pairs [] = []
hex_pairs (a ∷ []) = []
hex_pairs (a ∷ b ∷ text) =
    (hex_value (index_of a hex_digits) * 16 + hex_value (index_of b hex_digits)) ∷ hex_pairs text

-- The entry with the version of a row in place of its own, if the row holds one.
unfoldable pub stored_version : StoredRow → DropEntry → Option DropEntry
unfolding is_number is_digest value_from hex_pairs
stored_version row e = elim row.timestamp [
  | none ↦ none
  | some t ↦ elim row.digest [
    | none ↦ none
    | some d ↦ elim row.size [
      | none ↦ none
      | some l ↦
          if is_number t && (is_number l && is_digest d)
          then some (record e {
            timestamp = value_from 0 t;
            payload_digest = hex_pairs d;
            payload_length = value_from 0 l;
          })
          else none
    ]
  ]
]

-- `find(row => row[PARENT] === table)`
unfoldable pub row_in : Text → List StoredRow → Option StoredRow
row_in table [] = none
row_in table (row ∷ rows) =
    let later = row_in table rows in if equal row.parent table then some row else later

-- A newer entry for the same key is in the table.
unfoldable pub is_older : Text → List StoredRow → DropEntry → Bool
unfolding row_in stored_version newer
is_older table rows e = elim (row_in table rows) [
  | none ↦ false
  | some row ↦ elim (stored_version row e) [ none ↦ false | some version ↦ newer version e ]
]

pub record ImportRecord : Type 0 where
  pub identity : Text
  pub local : ℕ
  pub parent : Text
  pub values : RowValues

pub record Imported : Type 0 where
  pub records : List ImportRecord
  pub older : ℕ
  pub unstored : ℕ

abbrev is_too_large : PayloadStatus → Bool
is_too_large too_large = true
is_too_large stored = false
is_too_large not_in_drop = false

module _ (iso : ℕ → Text) (rows : Text → List StoredRow) (table : Text) where
  -- The body of the loop over the kept entries.
  unfoldable pub import_entry : DropEntry → Imported → Imported
  unfolding is_older row_values
  import_entry e i =
      if is_older table (rows (source_id e)) e
      then record i { older = i.older + 1 }
      else let values = row_values iso e in
        record {
          records =
              i.records
              ++ record {
                identity = source_id e;
                local = length i.records;
                parent = table;
                values = values;
              }
                ∷ [];
          older = i.older;
          unstored =
              if is_too_large values.willow_payload_status then i.unstored + 1 else i.unstored;
        }

  unfoldable pub import_entries : List DropEntry → Imported → Imported
  unfolding import_entry
  import_entries [] i = i
  import_entries (e ∷ entries) i = import_entries entries (import_entry e i)

  -- The records for the entries of a drop.
  unfoldable pub import_drop : List DropEntry → Imported
  unfolding import_entries prune
  import_drop decoded =
      import_entries (prune decoded).kept (record { records = []; older = 0; unstored = 0 })
