-- ===== src/Willow/Encoding.antt =====
-- integrations/willow-drop/encoding.ts: compact U64s and paths. Shifts and masks by numerals are
-- written as `/`, `%` and `*`; a path is a list of components.
pub mod Numbers
pub mod Paths
pub mod Limits
mod Tests
use atomic_plugins.Prelude.{
  ℕ, zero, suc, ◌+◌, ◌-◌, ◌*◌, ◌/◌, ◌%◌, ◌^◌, ◌<◌, Bool, true, false, ◌||◌, Option, none, some,
  List, [], ◌∷◌, ◌++◌, length, take, drop, ltb, ◌==◌, if◌then◌else◌,
}
use atomic_plugins.Willow.Reader.{
  Bytes, M, ◌>>=◌, ◌>>◌, return, throw, throw_if, byte, take_bytes, max_tag, size_at, cu64,
  cu64_standalone, small, path_component, path_prefix, path, claims_more_bytes,
  invalid_last_component, reuses_components, exceeds_path_limits,
}

-- `MCL`, `MCC` and `MPL`
abbrev pub component_limit : ℕ
component_limit = 4096

abbrev pub count_limit : ℕ
count_limit = 4096

abbrev pub length_limit : ℕ
length_limit = 4096

abbrev pub WillowPath : Type 0
WillowPath = List Bytes

-- `path.reduce((sum, c) => sum + c.length, 0)`
abbrev pub path_length : WillowPath → ℕ
path_length [] = 0
path_length (c ∷ cs) = length c + path_length cs

-- The loop from `i` on, with `left` components before the final one, and the final one.
unfoldable pub read_components : ℕ → ℕ → ℕ → WillowPath → M WillowPath
read_components zero total accumulated components = do
  throw_if (ltb total accumulated || ltb component_limit (total - accumulated))
      invalid_last_component
  last ← take_bytes (total - accumulated)
  return (components ++ last ∷ [])
read_components (suc left) total accumulated components = do
  n ← cu64_standalone
  size ← small n component_limit path_component
  component ← take_bytes size
  read_components left total (accumulated + size) (components ++ component ∷ [])

unfoldable pub decode_components : WillowPath → ℕ → ℕ → M WillowPath
unfolding read_components
decode_components prefix zero total = do
  throw_if (ltb (path_length prefix) total) claims_more_bytes
  return prefix
decode_components prefix (suc left) total = read_components left total (path_length prefix) prefix

unfoldable pub decode_relative_path : WillowPath → M WillowPath
unfolding decode_components
decode_relative_path previous = do
  k ← cu64_standalone
  prefix_count ← small k count_limit path_prefix
  header ← byte
  n ← cu64 header 4 0
  suffix_length ← small n length_limit path
  m ← cu64 header 4 4
  suffix_count ← small m count_limit path
  throw_if (ltb (length previous) prefix_count) reuses_components
  throw_if
      (ltb length_limit (path_length (take prefix_count previous) + suffix_length)
        || ltb count_limit (prefix_count + suffix_count))
      exceeds_path_limits
  decode_components (take prefix_count previous) suffix_count
      (path_length (take prefix_count previous) + suffix_length)

unfoldable pub tag_for : ℕ → ℕ → ℕ
tag_for n width =
    if ltb n (2 ^ width - 4)
    then n
    else if ltb n 256
    then max_tag width - 3
    else if ltb n 65_536
    then max_tag width - 2
    else if ltb n 4_294_967_296
    then max_tag width - 1
    else max_tag width

-- The bytes of `n` from the `size`-th lowest down.
unfoldable pub bytes_of : ℕ → ℕ → Bytes
bytes_of zero n = []
bytes_of (suc size) n = n / 256 ^ size % 256 ∷ bytes_of size n

unfoldable pub cu64_bytes : ℕ → ℕ → Bytes
unfolding bytes_of tag_for
cu64_bytes n width = elim (size_at (max_tag width - tag_for n width)) [
  | none ↦ []
  | some size ↦ bytes_of size n
]

unfoldable pub encode_cu64_standalone : ℕ → Bytes
unfolding cu64_bytes
encode_cu64_standalone n = tag_for n 8 ∷ cu64_bytes n 8

-- All components but the last carry their length.
unfoldable pub encode_components : WillowPath → Bytes
encode_components [] = []
encode_components (c ∷ []) = c
encode_components (c ∷ d ∷ cs) =
    encode_cu64_standalone (length c) ++ (c ++ encode_components (d ∷ cs))

unfoldable pub encode_path : WillowPath → Bytes
unfolding encode_components cu64_bytes
encode_path p =
    (tag_for (path_length p) 4 * 16 + tag_for (length p) 4) ∷ cu64_bytes (path_length p) 4
    ++ (cu64_bytes (length p) 4 ++ encode_components p)
