-- ===== src/Willow/Import/Tests.antt =====
-- The import of integrations/willow-drop/plugin.ts at concrete entries and rows.
use atomic_plugins.Prelude.{ℕ, ◌≡◌, refl, true, none, List, [], ◌∷◌, length, replicate, arith}
use atomic_plugins.Prelude.Decimal.{decimal_text, digits_from, all_digits, value_from}
use atomic_plugins.Willow.Drop.{DropEntry, communal_capability, every_at, equal}
use atomic_plugins.Willow.Text.{Text, index_of}
use atomic_plugins.Willow.Mapping.{
  compare_bytes, newer, same_key_space, every_same, is_prefix, overwrites, prune, hex, hex_byte,
}
use atomic_plugins.Willow.Rows.{row_values}
use atomic_plugins.Willow.Import.{
  StoredRow, is_number, all_hex, is_digest, hex_pairs, stored_version, row_in, is_older,
  import_drop,
}
use atomic_plugins.Willow.Import.Laws.{stored_row, import_drop-IsHeld}

abbrev iso : ℕ → Text
iso ms = 90 ∷ []

abbrev entry : ℕ → DropEntry
entry timestamp = record {
  namespace = 2 ∷ [];
  subspace = 3 ∷ [];
  path = [];
  timestamp = timestamp;
  payload_length = 0;
  payload_digest = replicate 32 9;
  capability = communal_capability;
  communal = true;
  payload = none;
}

-- The rows of an importer that holds the version of time 7.
abbrev rows : Text → List StoredRow
rows identity = stored_row (84 ∷ []) (row_values iso (entry 7)) ∷ []

older_entry : is_older (84 ∷ []) (rows []) (entry 6) ≡ true
unfolding is_older row_in equal every_at stored_version is_number all_digits is_digest all_hex
    index_of hex_pairs value_from row_values hex hex_byte decimal_text digits_from newer
    compare_bytes
older_entry = refl

kept_entry : (prune (entry 7 ∷ [])).kept ≡ entry 7 ∷ []
unfolding prune overwrites same_key_space is_prefix every_same newer compare_bytes
kept_entry = refl

import_drop-IsHeld_example :
    ((import_drop iso rows (84 ∷ []) (entry 7 ∷ [])).older ≡ 0)
    × (length (import_drop iso rows (84 ∷ []) (entry 7 ∷ [])).records
        ≡ length (prune (entry 7 ∷ [])).kept)
unfolding prune overwrites same_key_space is_prefix every_same newer compare_bytes
import_drop-IsHeld_example =
    import_drop-IsHeld iso rows (84 ∷ []) (entry 7 ∷ []) (((refl, omega arith), refl), tt)
