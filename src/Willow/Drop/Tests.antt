-- ===== src/Willow/Drop/Tests.antt =====
-- The drop of integrations/willow-drop/fixtures/pruning.drop, with a `verify` that takes any signature
-- of 64 bytes.
use atomic_plugins.Prelude.{
  ℕ, ◌≤◌, ◌≡◌, refl, Bool, Option, none, some, List, [], ◌∷◌, length, take, map, ◌==◌, All,
}
use atomic_plugins.Willow.Reader.{
  Bytes, Result, ok, err, ends_in_entry, signature_not_verified, byte, take_bytes, big_endian,
  read_sized, read_tagged, cu64, cu64_standalone, small, throw_if, size_at, ◌>>=◌, ◌>>◌,
}
use atomic_plugins.Willow.Encoding.{
  WillowPath, read_components, decode_components, decode_relative_path, tag_for, bytes_of,
  cu64_bytes, encode_cu64_standalone, encode_components, encode_path,
}
use atomic_plugins.Willow.William3.{
  iv, msg_schedule, compress, rounds, round, g, rotr, block_words, word_bytes, hash_blocks, hash1,
  hash_chunk, label, william3,
}
use atomic_plugins.Willow.Drop.{
  DropEntry, max_entries, default_id, default_entry, every_at, equal, is_communal, encode_entry,
  decode_capability, decode_token, full_payload, decode_payload, named, signed, receiver,
  verify_entry, decode_entry, read_entries, decode_drop,
}
use atomic_plugins.Willow.Drop.Laws.{Verified, decode_drop-Verified}

abbrev verify_size : Bytes → Bytes → Bytes → Option Bool
verify_size signature message key = some (length signature == 64)

abbrev pruning_drop : Bytes
pruning_drop =
    125 ∷ 222 ∷ 22 ∷ 64 ∷ 93 ∷ 161 ∷ 14 ∷ 117 ∷ 17 ∷ 58 ∷ 21 ∷ 169 ∷ 149 ∷ 87 ∷ 135 ∷ 254 ∷ 199 ∷ 81
    ∷ 214 ∷ 179 ∷ 51 ∷ 155 ∷ 44 ∷ 104 ∷ 180 ∷ 171 ∷ 66 ∷ 199 ∷ 64 ∷ 150 ∷ 24 ∷ 204 ∷ 28 ∷ 123 ∷ 16
    ∷ 48 ∷ 228 ∷ 185 ∷ 187 ∷ 20 ∷ 116 ∷ 4 ∷ 80 ∷ 167 ∷ 180 ∷ 53 ∷ 67 ∷ 102 ∷ 82 ∷ 79 ∷ 8 ∷ 45 ∷ 96
    ∷ 92 ∷ 227 ∷ 75 ∷ 161 ∷ 213 ∷ 49 ∷ 57 ∷ 123 ∷ 112 ∷ 228 ∷ 114 ∷ 3 ∷ 0 ∷ 114 ∷ 3 ∷ 111 ∷ 108
    ∷ 100 ∷ 110 ∷ 111 ∷ 116 ∷ 101 ∷ 0 ∷ 2 ∷ 255 ∷ 36 ∷ 1 ∷ 230 ∷ 26 ∷ 0 ∷ 6 ∷ 54 ∷ 230 ∷ 33 ∷ 216
    ∷ 35 ∷ 94 ∷ 182 ∷ 154 ∷ 110 ∷ 64 ∷ 141 ∷ 152 ∷ 155 ∷ 82 ∷ 196 ∷ 228 ∷ 222 ∷ 139 ∷ 210 ∷ 251 ∷ 30
    ∷ 117 ∷ 154 ∷ 59 ∷ 15 ∷ 25 ∷ 110 ∷ 240 ∷ 126 ∷ 156 ∷ 68 ∷ 134 ∷ 16 ∷ 5 ∷ 180 ∷ 250 ∷ 28 ∷ 172
    ∷ 96 ∷ 46 ∷ 93 ∷ 80 ∷ 119 ∷ 230 ∷ 152 ∷ 157 ∷ 228 ∷ 16 ∷ 37 ∷ 106 ∷ 109 ∷ 151 ∷ 73 ∷ 127 ∷ 8
    ∷ 80 ∷ 9 ∷ 224 ∷ 97 ∷ 58 ∷ 24 ∷ 235 ∷ 63 ∷ 29 ∷ 9 ∷ 229 ∷ 175 ∷ 99 ∷ 120 ∷ 43 ∷ 58 ∷ 69 ∷ 131
    ∷ 254 ∷ 239 ∷ 154 ∷ 36 ∷ 64 ∷ 170 ∷ 84 ∷ 100 ∷ 39 ∷ 212 ∷ 60 ∷ 110 ∷ 131 ∷ 71 ∷ 72 ∷ 9 ∷ 232
    ∷ 12 ∷ 47 ∷ 98 ∷ 94 ∷ 185 ∷ 105 ∷ 8 ∷ 112 ∷ 114 ∷ 117 ∷ 110 ∷ 101 ∷ 100 ∷ 77 ∷ 1 ∷ 0 ∷ 0 ∷ 2
    ∷ 255 ∷ 36 ∷ 1 ∷ 230 ∷ 26 ∷ 1 ∷ 6 ∷ 40 ∷ 202 ∷ 253 ∷ 64 ∷ 242 ∷ 192 ∷ 243 ∷ 164 ∷ 125 ∷ 24 ∷ 176
    ∷ 86 ∷ 24 ∷ 137 ∷ 72 ∷ 92 ∷ 119 ∷ 137 ∷ 108 ∷ 77 ∷ 212 ∷ 135 ∷ 228 ∷ 39 ∷ 171 ∷ 13 ∷ 201 ∷ 119
    ∷ 220 ∷ 220 ∷ 41 ∷ 94 ∷ 16 ∷ 214 ∷ 191 ∷ 27 ∷ 99 ∷ 73 ∷ 72 ∷ 75 ∷ 166 ∷ 20 ∷ 250 ∷ 83 ∷ 123 ∷ 57
    ∷ 70 ∷ 112 ∷ 137 ∷ 239 ∷ 71 ∷ 204 ∷ 14 ∷ 198 ∷ 6 ∷ 234 ∷ 98 ∷ 185 ∷ 94 ∷ 173 ∷ 77 ∷ 78 ∷ 190
    ∷ 158 ∷ 189 ∷ 26 ∷ 165 ∷ 158 ∷ 168 ∷ 23 ∷ 212 ∷ 194 ∷ 19 ∷ 107 ∷ 17 ∷ 15 ∷ 181 ∷ 9 ∷ 58 ∷ 96
    ∷ 48 ∷ 110 ∷ 206 ∷ 240 ∷ 112 ∷ 222 ∷ 89 ∷ 231 ∷ 15 ∷ 50 ∷ 41 ∷ 182 ∷ 180 ∷ 229 ∷ 221 ∷ 159 ∷ 5
    ∷ 112 ∷ 114 ∷ 101 ∷ 102 ∷ 105 ∷ 120 ∷ 77 ∷ 1 ∷ 81 ∷ 110 ∷ 101 ∷ 119 ∷ 101 ∷ 114 ∷ 0 ∷ 2 ∷ 255
    ∷ 36 ∷ 1 ∷ 230 ∷ 26 ∷ 2 ∷ 4 ∷ 159 ∷ 255 ∷ 48 ∷ 171 ∷ 44 ∷ 146 ∷ 41 ∷ 208 ∷ 63 ∷ 95 ∷ 16 ∷ 221
    ∷ 82 ∷ 90 ∷ 93 ∷ 59 ∷ 108 ∷ 21 ∷ 22 ∷ 121 ∷ 217 ∷ 133 ∷ 102 ∷ 132 ∷ 129 ∷ 58 ∷ 89 ∷ 90 ∷ 23
    ∷ 111 ∷ 64 ∷ 28 ∷ 16 ∷ 223 ∷ 120 ∷ 66 ∷ 28 ∷ 20 ∷ 148 ∷ 104 ∷ 233 ∷ 21 ∷ 209 ∷ 118 ∷ 147 ∷ 225
    ∷ 59 ∷ 208 ∷ 188 ∷ 94 ∷ 3 ∷ 235 ∷ 106 ∷ 38 ∷ 179 ∷ 39 ∷ 87 ∷ 85 ∷ 48 ∷ 28 ∷ 249 ∷ 73 ∷ 2 ∷ 121
    ∷ 114 ∷ 160 ∷ 79 ∷ 86 ∷ 110 ∷ 193 ∷ 192 ∷ 124 ∷ 32 ∷ 101 ∷ 142 ∷ 79 ∷ 192 ∷ 93 ∷ 234 ∷ 83 ∷ 243
    ∷ 196 ∷ 67 ∷ 132 ∷ 216 ∷ 42 ∷ 65 ∷ 125 ∷ 21 ∷ 139 ∷ 112 ∷ 195 ∷ 94 ∷ 105 ∷ 189 ∷ 234 ∷ 6 ∷ 107
    ∷ 101 ∷ 112 ∷ 116 ∷ 0 ∷ []

abbrev summary : Result (List DropEntry) → List (WillowPath × ℕ × Option Bytes)
summary (ok entries) = map (λ e. (e.path, e.payload_length, e.payload)) entries
summary (err e) = []

abbrev entries_of : Result (List DropEntry) → List DropEntry
entries_of (ok entries) = entries
entries_of (err e) = []

fixture_entries :
    summary (decode_drop verify_size pruning_drop)
    ≡ (
      (111 ∷ 108 ∷ 100 ∷ []) ∷ (110 ∷ 111 ∷ 116 ∷ 101 ∷ []) ∷ [],
      6,
      some (112 ∷ 114 ∷ 117 ∷ 110 ∷ 101 ∷ 100 ∷ []),
    )
      ∷ ((111 ∷ 108 ∷ 100 ∷ []) ∷ [], 6, some (112 ∷ 114 ∷ 101 ∷ 102 ∷ 105 ∷ 120 ∷ []))
      ∷ (
        (111 ∷ 108 ∷ 100 ∷ []) ∷ (110 ∷ 101 ∷ 119 ∷ 101 ∷ 114 ∷ []) ∷ [],
        4,
        some (107 ∷ 101 ∷ 112 ∷ 116 ∷ []),
      )
      ∷ []
unfolding decode_drop read_entries decode_entry verify_entry receiver signed named decode_payload
    full_payload equal every_at is_communal decode_token decode_capability default_entry default_id
    decode_relative_path decode_components read_components cu64_standalone cu64 read_tagged
    read_sized size_at big_endian byte take_bytes small throw_if ◌>>=◌ ◌>>◌ encode_entry encode_path
    encode_components encode_cu64_standalone cu64_bytes tag_for bytes_of william3 label hash_chunk
    hash1 hash_blocks compress rounds round g rotr block_words word_bytes iv msg_schedule
fixture_entries = refl

accepted :
    decode_drop verify_size pruning_drop ≡ ok (entries_of (decode_drop verify_size pruning_drop))
unfolding decode_drop read_entries decode_entry verify_entry receiver signed named decode_payload
    full_payload equal every_at is_communal decode_token decode_capability default_entry default_id
    decode_relative_path decode_components read_components cu64_standalone cu64 read_tagged
    read_sized size_at big_endian byte take_bytes small throw_if ◌>>=◌ ◌>>◌ encode_entry encode_path
    encode_components encode_cu64_standalone cu64_bytes tag_for bytes_of william3 label hash_chunk
    hash1 hash_blocks compress rounds round g rotr block_words word_bytes iv msg_schedule
accepted = refl

-- The first entry is at fault where no signature verifies.
refused :
    decode_drop (λ signature message key. none) pruning_drop
    ≡ err (record { problem = signature_not_verified; entry = some 0 })
unfolding decode_drop read_entries decode_entry verify_entry receiver signed named decode_payload
    full_payload equal every_at is_communal decode_token decode_capability default_entry default_id
    decode_relative_path decode_components read_components cu64_standalone cu64 read_tagged
    read_sized size_at big_endian byte take_bytes small throw_if ◌>>=◌ ◌>>◌ encode_entry encode_path
    encode_components encode_cu64_standalone cu64_bytes tag_for bytes_of william3 label hash_chunk
    hash1 hash_blocks compress rounds round g rotr block_words word_bytes iv msg_schedule
refused = refl

-- No byte that ends the drop.
unfinished :
    decode_drop verify_size (take 420 pruning_drop)
    ≡ err (record { problem = ends_in_entry; entry = none })
unfolding decode_drop read_entries decode_entry verify_entry receiver signed named decode_payload
    full_payload equal every_at is_communal decode_token decode_capability default_entry default_id
    decode_relative_path decode_components read_components cu64_standalone cu64 read_tagged
    read_sized size_at big_endian byte take_bytes small throw_if ◌>>=◌ ◌>>◌ encode_entry encode_path
    encode_components encode_cu64_standalone cu64_bytes tag_for bytes_of william3 label hash_chunk
    hash1 hash_blocks compress rounds round g rotr block_words word_bytes iv msg_schedule
unfinished = refl

decode_drop-Verified_example :
    All (Verified verify_size) (entries_of (decode_drop verify_size pruning_drop))
    × (length (entries_of (decode_drop verify_size pruning_drop)) ≤ max_entries)
decode_drop-Verified_example =
    decode_drop-Verified verify_size pruning_drop
      (entries_of (decode_drop verify_size pruning_drop)) accepted
