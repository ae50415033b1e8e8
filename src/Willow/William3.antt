-- ===== src/Willow/William3.antt =====
-- The payload digest of integrations/willow-drop/william3.ts. A word is a number below 2 ^ 32; the
-- loops over blocks, powers of two and chunks take their count as fuel. Masks and shifts by numerals,
-- and the `|` of bytes at different places, are written as arithmetic.
pub mod Laws
mod Tests
use Prim.Native.Nat.{bit_or, bit_xor}
use atomic_plugins.Prelude.{
  ℕ, zero, suc, ◌+◌, ◌-◌, ◌*◌, ◌/◌, ◌%◌, ◌^◌, max, min, Bool, true, false, List, [], ◌∷◌, ◌++◌,
  length, set, get_or, take, drop, replicate, map, ltb, leb, ◌==◌, if◌then◌else◌,
}
use atomic_plugins.Willow.Reader.{Bytes}

abbrev pub chunk_size : ℕ
chunk_size = 1024

abbrev pub block_len : ℕ
block_len = 64

abbrev pub Words : Type 0
Words = List ℕ

unfoldable pub iv : Words
iv =
    3_364_840_251 ∷ 1_097_399_282 ∷ 1_805_854_083 ∷ 2_969_507_911 ∷ 2_891_441_277 ∷ 2_828_210_992
    ∷ 2_037_007_941 ∷ 1_797_825_518 ∷ []

unfoldable pub msg_schedule : List (List ℕ)
msg_schedule =
    (0 ∷ 1 ∷ 2 ∷ 3 ∷ 4 ∷ 5 ∷ 6 ∷ 7 ∷ 8 ∷ 9 ∷ 10 ∷ 11 ∷ 12 ∷ 13 ∷ 14 ∷ 15 ∷ [])
    ∷ (2 ∷ 6 ∷ 3 ∷ 10 ∷ 7 ∷ 0 ∷ 4 ∷ 13 ∷ 1 ∷ 11 ∷ 12 ∷ 5 ∷ 9 ∷ 14 ∷ 15 ∷ 8 ∷ [])
    ∷ (3 ∷ 4 ∷ 10 ∷ 12 ∷ 13 ∷ 2 ∷ 7 ∷ 14 ∷ 6 ∷ 5 ∷ 9 ∷ 0 ∷ 11 ∷ 15 ∷ 8 ∷ 1 ∷ [])
    ∷ (10 ∷ 7 ∷ 12 ∷ 9 ∷ 14 ∷ 3 ∷ 13 ∷ 15 ∷ 4 ∷ 0 ∷ 11 ∷ 2 ∷ 5 ∷ 8 ∷ 1 ∷ 6 ∷ [])
    ∷ (12 ∷ 13 ∷ 9 ∷ 11 ∷ 15 ∷ 10 ∷ 14 ∷ 8 ∷ 7 ∷ 2 ∷ 5 ∷ 3 ∷ 0 ∷ 1 ∷ 6 ∷ 4 ∷ [])
    ∷ (9 ∷ 14 ∷ 11 ∷ 5 ∷ 8 ∷ 12 ∷ 15 ∷ 1 ∷ 13 ∷ 3 ∷ 0 ∷ 10 ∷ 2 ∷ 6 ∷ 4 ∷ 7 ∷ [])
    ∷ (11 ∷ 15 ∷ 5 ∷ 0 ∷ 1 ∷ 9 ∷ 8 ∷ 6 ∷ 14 ∷ 10 ∷ 2 ∷ 12 ∷ 3 ∷ 4 ∷ 7 ∷ 13 ∷ [])
    ∷ []

abbrev pub chunk_start : ℕ
chunk_start = 1

abbrev pub chunk_end : ℕ
chunk_end = 2

abbrev pub parent : ℕ
parent = 4

abbrev pub root : ℕ
root = 8

unfoldable pub rotr : ℕ → ℕ → ℕ
rotr x n = bit_or (x / 2 ^ n) (x * 2 ^ (32 - n) % 2 ^ 32)

-- `s[i]`, which is always within the array, and the sum of a `Uint32Array`.
abbrev at : Words → ℕ → ℕ
at s i = get_or s i 0

abbrev add_word : ℕ → ℕ → ℕ
add_word x y = (x + y) % 2 ^ 32

unfoldable pub g : Words → ℕ → ℕ → ℕ → ℕ → ℕ → ℕ → Words
unfolding rotr
g s0 a b c d x y =
    let s1 = set s0 a (add_word (at s0 a + at s0 b) x) in
    let s2 = set s1 d (rotr (bit_xor (at s1 d) (at s1 a)) 16) in
    let s3 = set s2 c (add_word (at s2 c) (at s2 d)) in
    let s4 = set s3 b (rotr (bit_xor (at s3 b) (at s3 c)) 12) in
    let s5 = set s4 a (add_word (at s4 a + at s4 b) y) in
    let s6 = set s5 d (rotr (bit_xor (at s5 d) (at s5 a)) 8) in
    let s7 = set s6 c (add_word (at s6 c) (at s6 d)) in
    set s7 b (rotr (bit_xor (at s7 b) (at s7 c)) 7)

-- The body of the loop over `MSG_SCHEDULE`.
unfoldable pub round : Words → Words → List ℕ → Words
unfolding g
round m s0 schedule =
    let word : ℕ → ℕ = λ k. at m (at schedule k) in
    let s1 = g s0 0 4 8 12 (word 0) (word 1) in
    let s2 = g s1 1 5 9 13 (word 2) (word 3) in
    let s3 = g s2 2 6 10 14 (word 4) (word 5) in
    let s4 = g s3 3 7 11 15 (word 6) (word 7) in
    let s5 = g s4 0 5 10 15 (word 8) (word 9) in
    let s6 = g s5 1 6 11 12 (word 10) (word 11) in
    let s7 = g s6 2 7 8 13 (word 12) (word 13) in g s7 3 4 9 14 (word 14) (word 15)

unfoldable pub rounds : Words → List (List ℕ) → Words → Words
unfolding round
rounds m [] s = s
rounds m (schedule ∷ schedules) s = rounds m schedules (round m s schedule)

-- `m`: sixteen words of a block of 64 bytes.
unfoldable pub block_words : Bytes → Words
block_words (a ∷ b ∷ c ∷ d ∷ rest) = (a + b * 256 + c * 65_536 + d * 16_777_216) ∷ block_words rest
block_words (a ∷ b ∷ c ∷ []) = []
block_words (a ∷ b ∷ []) = []
block_words (a ∷ []) = []
block_words [] = []

-- The new `cv`.
unfoldable pub compress : Words → Bytes → ℕ → ℕ → ℕ → Words
unfolding rounds block_words iv msg_schedule
compress cv block block_length counter flags =
    let start =
      cv
      ++ take 4 iv
      ++ (counter % 2 ^ 32 ∷ counter / 2 ^ 32 % 2 ^ 32 ∷ block_length ∷ flags ∷ []) in
    let s = rounds (block_words block) msg_schedule start in
    map (λ i. bit_xor (at s i) (at s (i + 8))) (0 ∷ 1 ∷ 2 ∷ 3 ∷ 4 ∷ 5 ∷ 6 ∷ 7 ∷ [])

-- `new Uint8Array(BLOCK_LEN)` after `set`.
abbrev pub padded : Bytes → Bytes
padded bytes = bytes ++ replicate (block_len - length bytes) 0

-- The loop of `hash1`, for as many blocks as the input has.
unfoldable pub hash_blocks : ℕ → Words → Bytes → ℕ → ℕ → ℕ → ℕ → Words
unfolding compress
hash_blocks zero cv input counter flags block_flags flags_end = cv
hash_blocks (suc blocks) cv input counter flags block_flags flags_end =
    let size = min (length input) block_len in
    let now = if leb (length input) block_len then bit_or block_flags flags_end else block_flags in
    hash_blocks blocks (compress cv (padded (take size input)) size counter now)
      (drop block_len input) counter flags flags flags_end

unfoldable pub word_bytes : Words → Bytes
word_bytes [] = []
word_bytes (w ∷ ws) =
    w % 256 ∷ w / 256 % 256 ∷ w / 65_536 % 256 ∷ w / 16_777_216 % 256 ∷ word_bytes ws

unfoldable pub hash1 : Bytes → ℕ → ℕ → ℕ → ℕ → Bytes
unfolding hash_blocks word_bytes compress iv
hash1 input counter flags flags_start flags_end =
    let block_flags = bit_or flags flags_start in
    word_bytes (
      if length input == 0
      then compress iv (padded []) 0 counter (bit_or block_flags flags_end)
      else hash_blocks ((length input + 63) / block_len) iv input counter flags block_flags
          flags_end)

unfoldable pub hash_chunk : Bytes → Bool → Bytes
unfolding hash1
hash_chunk chunk is_root =
    hash1 chunk 0 0 chunk_start (bit_or chunk_end (if is_root then root else 0))

unfoldable pub hash_inner : Bytes → Bytes → ℕ → Bool → Bytes
unfolding hash1
hash_inner left right size is_root =
    hash1 (padded (left ++ right)) size (bit_or parent (if is_root then root else 0)) 0 0

-- `while (left * 2 < chunks) left *= 2`
unfoldable pub doubling : ℕ → ℕ → ℕ → ℕ
doubling zero left chunks = left
doubling (suc fuel) left chunks = elim (ltb (left * 2) chunks) [
  | true ↦ doubling fuel (left * 2) chunks
  | false ↦ left
]

unfoldable pub label : ℕ → Bytes → ℕ → Bool → Bytes
unfolding hash_chunk hash_inner doubling
label zero bytes chunks is_root = hash_chunk bytes is_root
label (suc fuel) bytes chunks is_root = elim (leb chunks 1) [
  | true ↦ hash_chunk bytes is_root
  | false ↦
      let left = doubling chunks 1 chunks in
      let split = left * chunk_size in
      hash_inner (label fuel (take split bytes) left false)
        (label fuel (drop split bytes) (chunks - left) false) (length bytes) is_root
]

-- `Math.max(1, Math.ceil(bytes.length / CHUNK_SIZE))`
abbrev pub chunk_count : Bytes → ℕ
chunk_count bytes = max 1 ((length bytes + 1023) / chunk_size)

unfoldable pub william3 : Bytes → Bytes
unfolding label
william3 bytes = label (chunk_count bytes) bytes (chunk_count bytes) true
