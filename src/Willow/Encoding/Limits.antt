-- ===== src/Willow/Encoding/Limits.antt =====
-- What a path of integrations/willow-drop/encoding.ts that was read keeps to.
use atomic_plugins.Prelude.{
  ℕ, zero, suc, ◌+◌, ◌-◌, ◌<◌, ◌≤◌, ◌≡◌, refl, sym, ap, ◌∙◌, [], ◌∷◌, ◌++◌, length, length-append,
  length-take, take, arith,
}
use mathlib.Core.List.{append_assoc, append-nil}
use atomic_plugins.Willow.Reader.{Bytes, ok}
use atomic_plugins.Willow.Reader.Steps.{
  bind-steps, pass-steps, ok-inj, byte-steps, small-steps, take_bytes-steps, cu64-steps,
  cu64_standalone-steps,
}
use atomic_plugins.Willow.Encoding.{
  WillowPath, path_length, count_limit, length_limit, read_components, decode_components,
  cu64_standalone, decode_relative_path,
}

path_length_append : (p q : WillowPath) → path_length (p ++ q) ≡ path_length p + path_length q
path_length_append [] q = omega arith
path_length_append (c ∷ p) q = let rest = path_length_append p q in omega (arith, rest)

-- A path that extends `prefix` by `count` components to `total` bytes, with `rest` left of `bytes`.
abbrev Extends : WillowPath → ℕ → ℕ → WillowPath → Bytes → Bytes → Type 0
Extends prefix count total p bytes rest =
    ((q : WillowPath) × (p ≡ prefix ++ q) × (length q ≡ count))
    × (path_length p ≡ total)
    × (length rest ≤ length bytes)

read_components-Extends :
    (left total accumulated : ℕ) (components p : WillowPath) (bytes rest : Bytes)
    → accumulated ≡ path_length components
    → read_components left total accumulated components bytes ≡ ok (p, rest)
    → Extends components (suc left) total p bytes rest
unfolding read_components
read_components-Extends zero total accumulated components p bytes rest a h =
    let (valid, taking) = pass-steps _ _ _ h in
    let (last, after, taken, returned) = bind-steps _ _ taking in
    let (sized, used) = take_bytes-steps (total - accumulated) bytes last after taken in
    let path : components ++ last ∷ [] ≡ p = ap (λ v. v.0) (ok-inj returned) in
    let same = ap (λ v. length v.1) (ok-inj returned) in
    let lengths = path_length_append components (last ∷ []) in
    let held : path_length p ≡ total = sym (ap path_length path) ∙ lengths ∙ ground arith in
    ((last ∷ [], sym path, refl), held, omega (arith, used, same))
read_components-Extends (suc left) total accumulated components p bytes rest a h =
    let (n, l1, number, next) = bind-steps _ _ h in
    let (size, l2, within, taking) = bind-steps _ _ next in
    let (component, l3, taken, others) = bind-steps _ _ taking in
    let used1 = cu64_standalone-steps n bytes l1 number in
    let (_, _, unread) = small-steps _ _ _ _ _ _ within in
    let used2 = ap length unread in
    let (sized, used3) = take_bytes-steps size l2 component l3 taken in
    let lengths = path_length_append components (component ∷ []) in
    let ((q, path, count), held, used) =
      read_components-Extends left total (accumulated + size) (components ++ component ∷ []) p l3
        rest (omega arith) others in
    (
      (component ∷ q, path ∙ append_assoc components (component ∷ []) q, ap suc count),
      held,
      omega arith,
    )

-- What `decode_components` returns for counts that are met.
decode_components-Extends :
    (prefix : WillowPath) (count suffix_length : ℕ) (p : WillowPath) (bytes rest : Bytes)
    → decode_components prefix count (path_length prefix + suffix_length) bytes ≡ ok (p, rest)
    → Extends prefix count (path_length prefix + suffix_length) p bytes rest
unfolding decode_components
decode_components-Extends prefix zero suffix_length p bytes rest h =
    let (held, returned) = pass-steps _ _ _ h in
    let path : prefix ≡ p = ap (λ v. v.0) (ok-inj returned) in
    let same = ap (λ v. length v.1) (ok-inj returned) in
    let all = ap path_length path in
    (([], sym path ∙ sym (append-nil prefix), refl), ground (arith, all), omega (arith, same))
decode_components-Extends prefix (suc left) suffix_length p bytes rest h =
    read_components-Extends left _ (path_length prefix) prefix p bytes rest refl h

two_taken :
    {l0 l1 l2 l3 l4 l5 l6 l7 : ℕ} (l : ℕ)
    → l1 < l0
    → l2 ≡ l1
    → l2 ≡ suc l3
    → l4 ≤ l3
    → l5 ≡ l4
    → l6 ≤ l5
    → l7 ≡ l6
    → l ≤ l7
    → l + 2 ≤ l0
two_taken l h1 h2 h3 h4 h5 h6 h7 h = omega arith

-- The path starts with as many components of the one before as the number says that is first.
abbrev pub Shares : WillowPath → WillowPath → Bytes → Type 0
Shares previous p bytes =
    (k : ℕ) × (after : Bytes) × (q : WillowPath) × (cu64_standalone bytes ≡ ok (k, after))
    × (k ≤ length previous)
    × (p ≡ take k previous ++ q)

shared-Shares :
    (previous p q : WillowPath) (bytes after : Bytes) (k n : ℕ)
    → cu64_standalone bytes ≡ ok (k, after)
    → n ≡ k
    → n ≤ length previous
    → p ≡ take n previous ++ q
    → Shares previous p bytes
shared-Shares previous p q bytes after k n read same le path =
    (k, after, q, read, omega arith, path ∙ ap (λ i. take i previous ++ q) same)

-- A path that was read has at most 4096 components of at most 4096 bytes together. It starts with as
-- many components of the path before it as the number says that stands first in the bytes, which
-- is at most their number, and it took two bytes or more of the drop.
pub decode_relative_path-Limits :
    (previous p : WillowPath) (bytes rest : Bytes)
    → decode_relative_path previous bytes ≡ ok (p, rest)
    → (length p ≤ count_limit)
      × (path_length p ≤ length_limit)
      × Shares previous p bytes
      × (length rest + 2 ≤ length bytes)
unfolding decode_relative_path
decode_relative_path-Limits previous p bytes rest h =
    let (k, l1, number, h1) = bind-steps _ _ h in
    let (prefix_count, l2, within_k, h2) = bind-steps _ _ h1 in
    let (header, l3, read, h3) = bind-steps _ _ h2 in
    let (n, l4, number_n, h4) = bind-steps _ _ h3 in
    let (suffix_length, l5, within_n, h5) = bind-steps _ _ h4 in
    let (m, l6, number_m, h6) = bind-steps _ _ h5 in
    let (suffix_count, l7, within_m, h7) = bind-steps _ _ h6 in
    let (reused, h8) = pass-steps _ _ _ h7 in
    let (within, h9) = pass-steps _ _ _ h8 in
    let used1 = cu64_standalone-steps k bytes l1 number in
    let (_, first_number, same2) = small-steps _ _ _ _ _ _ within_k in
    let used3 = ap length (byte-steps l2 l3 header read) in
    let used4 = cu64-steps header 4 0 n l3 l4 number_n in
    let (_, _, same5) = small-steps _ _ _ _ _ _ within_n in
    let used6 = cu64-steps header 4 4 m l5 l6 number_m in
    let (_, _, same7) = small-steps _ _ _ _ _ _ within_m in
    let ((q, path, count), held, used) =
      decode_components-Extends (take prefix_count previous) suffix_count suffix_length p l7 rest
        h9 in
    let shared : prefix_count ≤ length previous = ground arith in
    let total = ap length path ∙ length-append (take prefix_count previous) q in
    let first = length-take prefix_count previous in
    (
      ground (arith, total, first, count),
      ground (arith, held),
      shared-Shares previous p q bytes l1 k prefix_count number first_number shared path,
      two_taken (length rest) used1 (ap length same2) used3 used4 (ap length same5) used6
          (ap length same7) used,
    )
