-- ===== src/Willow/Encoding/Tests.antt =====
-- The encodings of integrations/willow-drop/encoding.ts at concrete bytes.
use atomic_plugins.Prelude.{◌≤◌, ◌≡◌, refl, none, [], ◌∷◌, ◌++◌, take, arith}
use atomic_plugins.Willow.Reader.{
  ok, err, byte, take_bytes, big_endian, read_sized, read_tagged, cu64, cu64_standalone, small,
  throw_if, size_at, reuses_components, ◌>>=◌, ◌>>◌,
}
use atomic_plugins.Willow.Encoding.{
  WillowPath, count_limit, length_limit, read_components, decode_components, decode_relative_path,
  tag_for, bytes_of, cu64_bytes, encode_cu64_standalone, encode_components, encode_path,
}
use atomic_plugins.Willow.Encoding.Paths.{decode_relative_path-encode_path}
use atomic_plugins.Willow.Encoding.Limits.{Shares, decode_relative_path-Limits}

-- "a", "bc" and "d"
abbrev previous : WillowPath
previous = (97 ∷ []) ∷ (98 ∷ 99 ∷ []) ∷ (100 ∷ []) ∷ []

abbrev suffix : WillowPath
suffix = (120 ∷ []) ∷ [] ∷ (121 ∷ 122 ∷ []) ∷ []

encoded_small : encode_cu64_standalone 251 ≡ 251 ∷ []
unfolding encode_cu64_standalone cu64_bytes tag_for size_at
encoded_small = refl

encoded_large : encode_cu64_standalone 4_660 ≡ 253 ∷ 18 ∷ 52 ∷ []
unfolding encode_cu64_standalone cu64_bytes tag_for size_at bytes_of
encoded_large = refl

encoded_path : encode_path suffix ≡ 51 ∷ 1 ∷ 120 ∷ 0 ∷ 121 ∷ 122 ∷ []
unfolding encode_path encode_components encode_cu64_standalone cu64_bytes tag_for size_at bytes_of
encoded_path = refl

decoded_path :
    decode_relative_path previous (2 ∷ 51 ∷ 1 ∷ 120 ∷ 0 ∷ 121 ∷ 122 ∷ 7 ∷ [])
    ≡ ok ((97 ∷ []) ∷ (98 ∷ 99 ∷ []) ∷ suffix, 7 ∷ [])
unfolding decode_relative_path decode_components read_components cu64_standalone cu64 read_tagged
    read_sized size_at big_endian byte take_bytes small throw_if ◌>>=◌ ◌>>◌
decoded_path = refl

refused_prefix :
    decode_relative_path previous (4 ∷ 51 ∷ 1 ∷ [])
    ≡ err (record { problem = reuses_components; entry = none })
unfolding decode_relative_path decode_components read_components cu64_standalone cu64 read_tagged
    read_sized size_at big_endian byte take_bytes small throw_if ◌>>=◌ ◌>>◌
refused_prefix = refl

decode_relative_path-encode_path_example :
    decode_relative_path previous (encode_cu64_standalone 2 ++ (encode_path suffix ++ (7 ∷ [])))
    ≡ ok (take 2 previous ++ suffix, 7 ∷ [])
decode_relative_path-encode_path_example =
    decode_relative_path-encode_path previous 2 suffix (7 ∷ []) (omega arith) (omega arith)
      (omega arith)

decode_relative_path-Limits_example :
    (5 ≤ count_limit)
    × (6 ≤ length_limit)
    × Shares previous
        ((97 ∷ []) ∷ (98 ∷ 99 ∷ []) ∷ suffix)
        (2 ∷ 51 ∷ 1 ∷ 120 ∷ 0 ∷ 121 ∷ 122 ∷ 7 ∷ [])
    × (3 ≤ 8)
decode_relative_path-Limits_example =
    decode_relative_path-Limits previous ((97 ∷ []) ∷ (98 ∷ 99 ∷ []) ∷ suffix)
      (2 ∷ 51 ∷ 1 ∷ 120 ∷ 0 ∷ 121 ∷ 122 ∷ 7 ∷ []) (7 ∷ []) decoded_path
