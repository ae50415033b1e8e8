-- ===== src/Willow/William3/Laws.antt =====
-- The size of the digests of integrations/willow-drop/william3.ts, and the fuel of its tree.
use atomic_plugins.Prelude.{
  ℕ, zero, suc, ◌+◌, ◌-◌, ◌*◌, ◌/◌, ◌<◌, ◌≤◌, ◌≡◌, refl, sym, ap, ◌∙◌, inl, inr, Bool, true, false,
  [], ◌∷◌, ◌++◌, length, take, drop, ltb, leb, ◌==◌, if◌then◌else◌, arith, All, Bool-cases,
}
use atomic_plugins.Willow.Reader.{Bytes, IsByte}
use Prim.Native.Nat.{bit_or}
use atomic_plugins.Willow.William3.{
  chunk_start, chunk_end, root, parent, padded, block_len, Words, chunk_size, iv, compress,
  hash_blocks, word_bytes, hash1, hash_chunk, hash_inner, doubling, label, chunk_count, william3,
}

-- 32 bytes.
abbrev pub IsDigest : Bytes → Type 0
IsDigest bytes = (length bytes ≡ 32) × All IsByte bytes

word_bytes-bytes :
    (ws : Words) → (length (word_bytes ws) ≡ 4 * length ws) × All IsByte (word_bytes ws)
unfolding word_bytes
word_bytes-bytes [] = (refl, tt)
word_bytes-bytes (w ∷ ws) =
    let (size, each) = word_bytes-bytes ws in
    (omega (arith, size), (omega arith, (omega arith, (omega arith, (omega arith, each)))))

length-hash_blocks :
    (blocks : ℕ) (cv : Words) (input : Bytes) (counter flags now end : ℕ)
    → length cv ≡ 8
    → length (hash_blocks blocks cv input counter flags now end) ≡ 8
unfolding hash_blocks compress
length-hash_blocks zero cv input counter flags now end h = h
length-hash_blocks (suc blocks) cv input counter flags now end h =
    length-hash_blocks blocks _ _ counter flags flags end refl

IsDigest-word_bytes : (ws : Words) → length ws ≡ 8 → IsDigest (word_bytes ws)
IsDigest-word_bytes ws h = let (size, each) = word_bytes-bytes ws in (omega (arith, size), each)

eight :
    (test : Bool) (a b : Words) → length a ≡ 8 → length b ≡ 8 → length (if test then a else b) ≡ 8
eight true a b h k = h
eight false a b h k = k

length-compress :
    (cv : Words) (block : Bytes) (size counter flags : ℕ)
    → length (compress cv block size counter flags) ≡ 8
unfolding compress
length-compress cv block size counter flags = refl

IsDigest-hash1 :
    (input : Bytes) (counter flags first last : ℕ) → IsDigest (hash1 input counter flags first last)
unfolding hash1 iv
IsDigest-hash1 input counter flags first last =
    let now = bit_or flags first in
    let empty = compress iv (padded []) 0 counter (bit_or now last) in
    let blocks = hash_blocks ((length input + 63) / block_len) iv input counter flags now last in
    IsDigest-word_bytes (if length input == 0 then empty else blocks) (
      eight (length input == 0) empty blocks
        (length-compress iv (padded []) 0 counter (bit_or now last))
        (length-hash_blocks ((length input + 63) / block_len) iv input counter flags now last refl))

IsDigest-hash_chunk : (chunk : Bytes) (is_root : Bool) → IsDigest (hash_chunk chunk is_root)
unfolding hash_chunk
IsDigest-hash_chunk chunk is_root =
    IsDigest-hash1 chunk 0 0 chunk_start (bit_or chunk_end (if is_root then root else 0))

IsDigest-hash_inner :
    (left right : Bytes) (size : ℕ) (is_root : Bool) → IsDigest (hash_inner left right size is_root)
unfolding hash_inner
IsDigest-hash_inner left right size is_root =
    IsDigest-hash1 (padded (left ++ right)) size (bit_or parent (if is_root then root else 0)) 0 0

IsDigest-label :
    (fuel : ℕ) (bytes : Bytes) (chunks : ℕ) (is_root : Bool)
    → IsDigest (label fuel bytes chunks is_root)
unfolding label
IsDigest-label zero bytes chunks is_root = IsDigest-hash_chunk bytes is_root
IsDigest-label (suc fuel) bytes chunks is_root = elim (Bool-cases (leb chunks 1)) [
  | inl e ↦ rw (e, label) (IsDigest-hash_chunk bytes is_root)
  | inr e ↦
      let left = doubling chunks 1 chunks in
      rw (e, label)
        (IsDigest-hash_inner (label fuel (take (left * chunk_size) bytes) left false)
          (label fuel (drop (left * chunk_size) bytes) (chunks - left) false) (length bytes)
          is_root)
]

-- The left part of a tree: fewer chunks than all, and at least half of them.
doubling-half :
    (fuel left chunks : ℕ)
    → 1 ≤ left
    → left < chunks
    → chunks ≤ left + fuel
    → (1 ≤ doubling fuel left chunks)
      × (doubling fuel left chunks < chunks)
      × (chunks ≤ doubling fuel left chunks * 2)
unfolding doubling
doubling-half zero left chunks p h f = absurd (omega arith)
doubling-half (suc fuel) left chunks p h f = elim (Bool-cases (ltb (left * 2) chunks)) [
  | inl e ↦
      rw (e, doubling)
        (doubling-half fuel (left * 2) chunks (omega arith) (ground arith) (omega arith))
  | inr e ↦ rw (e, doubling) (p, h, ground arith)
]

label-leaf :
    (fuel : ℕ) (bytes : Bytes) (chunks : ℕ) (is_root : Bool)
    → chunks ≤ 1
    → label fuel bytes chunks is_root ≡ hash_chunk bytes is_root
unfolding label
label-leaf zero bytes chunks is_root h = refl
label-leaf (suc fuel) bytes chunks is_root h =
    let leaf : leb chunks 1 ≡ true = ground arith in rw (leaf, label) refl

label-inner :
    (fuel : ℕ) (bytes : Bytes) (chunks : ℕ) (is_root : Bool)
    → 1 < chunks
    → label (suc fuel) bytes chunks is_root
      ≡ hash_inner
          (label fuel
            (take (doubling chunks 1 chunks * chunk_size) bytes)
            (doubling chunks 1 chunks)
            false)
          (label fuel
            (drop (doubling chunks 1 chunks * chunk_size) bytes)
            (chunks - doubling chunks 1 chunks)
            false)
          (length bytes)
          is_root
unfolding label
label-inner fuel bytes chunks is_root h =
    let inner : leb chunks 1 ≡ false = ground arith in rw (inner, label) refl

label-enough :
    (fuel more : ℕ) (bytes : Bytes) (chunks : ℕ) (is_root : Bool)
    → chunks ≤ fuel
    → chunks ≤ more
    → label fuel bytes chunks is_root ≡ label more bytes chunks is_root
label-enough zero more bytes chunks is_root h k =
    label-leaf 0 bytes chunks is_root (omega arith)
    ∙ sym (label-leaf more bytes chunks is_root (omega arith))
label-enough (suc fuel) zero bytes chunks is_root h k =
    label-leaf (suc fuel) bytes chunks is_root (omega arith)
    ∙ sym (label-leaf 0 bytes chunks is_root (omega arith))
label-enough (suc fuel) (suc more) bytes chunks is_root h k = elim (Bool-cases (leb chunks 1)) [
  | inl e ↦
      label-leaf (suc fuel) bytes chunks is_root (ground arith)
      ∙ sym (label-leaf (suc more) bytes chunks is_root (ground arith))
  | inr e ↦
      let left = doubling chunks 1 chunks in
      let (one, below, half) =
        doubling-half chunks 1 chunks (omega arith) (ground arith) (omega arith) in
      label-inner fuel bytes chunks is_root (ground arith)
      ∙ ap
          (λ l.
            hash_inner l (label fuel (drop (left * chunk_size) bytes) (chunks - left) false)
              (length bytes) is_root)
          (label-enough fuel more (take (left * chunk_size) bytes) left false (omega arith)
            (omega arith))
      ∙ ap
          (λ l.
            hash_inner (label more (take (left * chunk_size) bytes) left false) l (length bytes)
              is_root)
          (label-enough fuel more (drop (left * chunk_size) bytes) (chunks - left) false
            (omega arith) (omega arith))
      ∙ sym (label-inner more bytes chunks is_root (ground arith))
]

-- A digest has 32 bytes, and more fuel than the count of chunks does not change it.
pub william3-IsDigest :
    (bytes : Bytes) (more : ℕ)
    → IsDigest (william3 bytes)
      × (label (chunk_count bytes + more) bytes (chunk_count bytes) true ≡ william3 bytes)
unfolding william3
william3-IsDigest bytes more = (
  IsDigest-label (chunk_count bytes) bytes (chunk_count bytes) true,
  label-enough (chunk_count bytes + more) (chunk_count bytes) bytes (chunk_count bytes) true
      (omega arith) (omega arith),
)
