-- ===== src/Willow/Encoding/Paths.antt =====
-- Paths of integrations/willow-drop/encoding.ts, written and read.
use mathlib.Core.List.{append_assoc, append-nil}
use atomic_plugins.Prelude.{
  ℕ, zero, suc, ◌+◌, ◌-◌, ◌*◌, ◌≤◌, ◌≡◌, refl, sym, ap, ◌∙◌, false, ◌||◌, [], ◌∷◌, ◌++◌, length,
  take, ltb, arith,
}
use atomic_plugins.Willow.Reader.{Bytes, ok, take_bytes, path_component, cu64, path_prefix, path}
use atomic_plugins.Willow.Reader.Steps.{bind-ok, pass, small-within, byte_of}
use atomic_plugins.Willow.Encoding.{
  WillowPath, path_length, component_limit, count_limit, length_limit, read_components,
  decode_components, decode_relative_path, encode_cu64_standalone, encode_components, encode_path,
  tag_for, cu64_bytes,
}
use atomic_plugins.Willow.Encoding.Numbers.{
  take_bytes-append, cu64_standalone-encode_cu64_standalone, cu64-high, cu64-low,
}

take_bytes-at :
    (n : ℕ) (bytes rest : Bytes)
    → n ≡ length bytes
    → take_bytes n (bytes ++ rest) ≡ ok (bytes, rest)
take_bytes-at n bytes rest e =
    ap (λ k. take_bytes k (bytes ++ rest)) e ∙ take_bytes-append bytes rest

read_last :
    (total accumulated : ℕ) (components : WillowPath) (c rest : Bytes)
    → total ≡ accumulated + length c
    → length c ≤ component_limit
    → read_components zero total accumulated components (c ++ rest)
      ≡ ok (components ++ c ∷ [], rest)
unfolding read_components
read_last total accumulated components c rest e h =
    let valid : (ltb total accumulated || ltb component_limit (total - accumulated)) ≡ false =
      ground arith in
    pass _ _ _ valid ∙ bind-ok _ _ (take_bytes-at (total - accumulated) c rest (omega arith))

read_one :
    (left total accumulated : ℕ) (components : WillowPath) (c rest : Bytes)
    → length c ≤ component_limit
    → read_components
        (suc left)
        total
        accumulated
        components
        (encode_cu64_standalone (length c) ++ (c ++ rest))
      ≡ read_components left total (accumulated + length c) (components ++ c ∷ []) rest
unfolding read_components
read_one left total accumulated components c rest h =
    bind-ok _ _ (cu64_standalone-encode_cu64_standalone (length c) (c ++ rest) (omega arith))
    ∙ bind-ok _ _ (small-within (length c) component_limit path_component (c ++ rest) h)
    ∙ bind-ok _ _ (take_bytes-append c rest)

-- The components that `encodePath` writes are read after those of the prefix.
read_components-encode_components :
    (c : Bytes) (cs : WillowPath) (total accumulated : ℕ) (components : WillowPath) (rest : Bytes)
    → total ≡ accumulated + path_length (c ∷ cs)
    → path_length (c ∷ cs) ≤ component_limit
    → read_components (length cs) total accumulated components (encode_components (c ∷ cs) ++ rest)
      ≡ ok (components ++ c ∷ cs, rest)
unfolding encode_components
read_components-encode_components c [] total accumulated components rest e h =
    read_last total accumulated components c rest (omega arith) (omega arith)
read_components-encode_components c (d ∷ cs) total accumulated components rest e h =
    ap (read_components (suc (length cs)) total accumulated components) (
      append_assoc (encode_cu64_standalone (length c)) (c ++ encode_components (d ∷ cs)) rest
      ∙ ap (λ l. encode_cu64_standalone (length c) ++ l)
          (append_assoc c (encode_components (d ∷ cs)) rest))
    ∙ read_one (length cs) total accumulated components c (encode_components (d ∷ cs) ++ rest)
        (omega arith)
    ∙ read_components-encode_components d cs total (accumulated + length c) (components ++ c ∷ [])
        rest (omega arith) (omega arith)
    ∙ ap (λ l. ok (l, rest)) (append_assoc components (c ∷ []) (d ∷ cs))

-- The suffix of an accepted length, after any prefix.
decode_components-encode_components :
    (prefix suffix : WillowPath) (rest : Bytes)
    → path_length suffix ≤ component_limit
    → decode_components prefix
        (length suffix)
        (path_length prefix + path_length suffix)
        (encode_components suffix ++ rest)
      ≡ ok (prefix ++ suffix, rest)
unfolding decode_components encode_components
decode_components-encode_components prefix [] rest h =
    let held : ltb (path_length prefix) (path_length prefix + 0) ≡ false = ground arith in
    pass _ _ _ held ∙ ap (λ l. ok (l, rest)) (sym (append-nil prefix))
decode_components-encode_components prefix (c ∷ cs) rest h =
    read_components-encode_components c cs (path_length prefix + path_length (c ∷ cs))
      (path_length prefix) prefix rest refl h

-- A path written with the count of the components it shares with the path before it is the path
-- read: the first `k` components of the path before and the suffix. It asks that the path before
-- has `k` components and that the path read keeps the limits on count and length.
pub decode_relative_path-encode_path :
    (previous : WillowPath) (k : ℕ) (suffix : WillowPath) (rest : Bytes)
    → k ≤ length previous
    → k + length suffix ≤ count_limit
    → path_length (take k previous) + path_length suffix ≤ length_limit
    → decode_relative_path previous (encode_cu64_standalone k ++ (encode_path suffix ++ rest))
      ≡ ok (take k previous ++ suffix, rest)
unfolding decode_relative_path encode_path
decode_relative_path-encode_path previous k suffix rest shared count total =
    let n = path_length suffix in
    let m = length suffix in
    let body = encode_components suffix in
    let after : Bytes = cu64_bytes n 4 ++ (cu64_bytes m 4 ++ body) in
    let reused : ltb (length previous) k ≡ false = ground arith in
    let within : (ltb length_limit (path_length (take k previous) + n) || ltb count_limit (k + m))
        ≡ false =
      ground arith in
    bind-ok _ _
      (cu64_standalone-encode_cu64_standalone k (encode_path suffix ++ rest) (omega arith))
    ∙ bind-ok _ _
        (small-within k count_limit path_prefix (encode_path suffix ++ rest) (omega arith))
    ∙ bind-ok _ _ (byte_of (tag_for n 4 * 16 + tag_for m 4) (after ++ rest))
    ∙ bind-ok _ _ (
        ap (cu64 (tag_for n 4 * 16 + tag_for m 4) 4 0)
          (append_assoc (cu64_bytes n 4) (cu64_bytes m 4 ++ body) rest)
        ∙ cu64-high n m ((cu64_bytes m 4 ++ body) ++ rest) (omega arith))
    ∙ bind-ok _ _
        (small-within n length_limit path ((cu64_bytes m 4 ++ body) ++ rest) (omega arith))
    ∙ bind-ok _ _ (
        ap (cu64 (tag_for n 4 * 16 + tag_for m 4) 4 4) (append_assoc (cu64_bytes m 4) body rest)
        ∙ cu64-low n m (body ++ rest) (omega arith))
    ∙ bind-ok _ _ (small-within m count_limit path (body ++ rest) (omega arith))
    ∙ pass _ _ _ reused
    ∙ pass _ _ _ within
    ∙ decode_components-encode_components (take k previous) suffix rest (omega arith)
