-- ===== src/Willow/Mapping/Tests.antt =====
-- Entries and texts of integrations/willow-drop/mapping.ts at concrete values.
use atomic_plugins.Prelude.{ℕ, ◌+◌, ◌≡◌, refl, true, none, List, [], ◌∷◌, length}
use atomic_plugins.Willow.Encoding.{WillowPath}
use atomic_plugins.Willow.Drop.{DropEntry, communal_capability}
use atomic_plugins.Willow.Mapping.{
  compare_bytes, newer, same_key_space, every_same, is_prefix, overwrites, prune, hex_byte, hex,
  is_unreserved, display_component, joined, display_path,
}
use atomic_plugins.Willow.Mapping.Pruning.{store, store-prune}

abbrev entry : WillowPath → ℕ → ℕ → DropEntry
entry path timestamp payload_length = record {
  namespace = 2 ∷ [];
  subspace = 7 ∷ [];
  path = path;
  timestamp = timestamp;
  payload_length = payload_length;
  payload_digest = 9 ∷ [];
  capability = communal_capability;
  communal = true;
  payload = none;
}

-- "old/note", "old" and "old/newer"
abbrev below : DropEntry
below = entry ((111 ∷ []) ∷ (110 ∷ []) ∷ []) 1 6

abbrev prefix : DropEntry
prefix = entry ((111 ∷ []) ∷ []) 2 6

abbrev later : DropEntry
later = entry ((111 ∷ []) ∷ (119 ∷ []) ∷ []) 3 4

abbrev entries : List DropEntry
entries = below ∷ prefix ∷ later ∷ []

kept_entries : prune entries ≡ record { kept = prefix ∷ later ∷ []; pruned = 1 }
unfolding prune overwrites same_key_space is_prefix every_same newer compare_bytes
kept_entries = refl

longer_payload : newer (entry [] 3 5) (entry [] 3 4) ≡ true
unfolding newer compare_bytes
longer_payload = refl

hex_text : hex (0 ∷ 171 ∷ []) ≡ 48 ∷ 48 ∷ 97 ∷ 98 ∷ []
unfolding hex hex_byte
hex_text = refl

-- "/a/b%2f"
path_text : display_path ((97 ∷ []) ∷ (98 ∷ 47 ∷ []) ∷ []) ≡ 47 ∷ 97 ∷ 47 ∷ 98 ∷ 37 ∷ 50 ∷ 102 ∷ []
unfolding display_path joined display_component hex_byte is_unreserved
path_text = refl

store-prune_example :
    ((prune entries).kept ≡ store entries)
    × ((prune entries).pruned + length (store entries) ≡ length entries)
store-prune_example = store-prune entries
