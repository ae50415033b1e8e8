-- ===== src/Willow/Encoding/Numbers.antt =====
-- Compact U64s of integrations/willow-drop/encoding.ts, written and read.
use atomic_plugins.Prelude.{
  ℕ, zero, suc, ◌+◌, ◌-◌, ◌*◌, ◌/◌, ◌%◌, ◌^◌, ◌<◌, ◌≤◌, ◌≡◌, ◌⊎◌, inl, inr, refl, sym, ap, ◌∙◌,
  false, none, some, [], ◌∷◌, ◌++◌, length, length-append, take, drop, ltb, arith, Bool-cases,
}
use atomic_plugins.Willow.Reader.{
  Bytes, Result, ok, byte, take_bytes, max_tag, size_at, big_endian, read_sized, read_tagged, cu64,
  cu64_standalone,
}
use atomic_plugins.Willow.Reader.Steps.{bind-ok}
use atomic_plugins.Willow.Encoding.{tag_for, bytes_of, cu64_bytes, encode_cu64_standalone}

take_append : (bytes rest : Bytes) → take (length bytes) (bytes ++ rest) ≡ bytes
take_append [] rest = refl
take_append (b ∷ bytes) rest = ap (λ l. b ∷ l) (take_append bytes rest)

drop_append : (bytes rest : Bytes) → drop (length bytes) (bytes ++ rest) ≡ rest
drop_append [] rest = refl
drop_append (b ∷ bytes) rest = drop_append bytes rest

pub take_bytes-append :
    (bytes rest : Bytes) → take_bytes (length bytes) (bytes ++ rest) ≡ ok (bytes, rest)
unfolding take_bytes
take_bytes-append bytes rest =
    let enough : ltb (length (bytes ++ rest)) (length bytes) ≡ false =
      ground (arith, length-append bytes rest) in
    rw (enough, take_append bytes rest, drop_append bytes rest) refl

length-bytes_of : (size n : ℕ) → length (bytes_of size n) ≡ size
unfolding bytes_of
length-bytes_of zero n = refl
length-bytes_of (suc size) n = ap suc (length-bytes_of size n)

big_endian-8 : (n : ℕ) → n < 2 ^ 64 → big_endian 0 (bytes_of 8 n) ≡ n
unfolding big_endian bytes_of
big_endian-8 n h = omega arith

big_endian-4 : (n : ℕ) → n < 4_294_967_296 → big_endian 0 (bytes_of 4 n) ≡ n
unfolding big_endian bytes_of
big_endian-4 n h = omega arith

big_endian-2 : (n : ℕ) → n < 65_536 → big_endian 0 (bytes_of 2 n) ≡ n
unfolding big_endian bytes_of
big_endian-2 n h = omega arith

big_endian-1 : (n : ℕ) → n < 256 → big_endian 0 (bytes_of 1 n) ≡ n
unfolding big_endian bytes_of
big_endian-1 n h = omega arith

take_bytes_of :
    (size n : ℕ) (rest : Bytes)
    → take_bytes size (bytes_of size n ++ rest) ≡ ok (bytes_of size n, rest)
take_bytes_of size n rest =
    ap (λ k. take_bytes k (bytes_of size n ++ rest)) (sym (length-bytes_of size n))
    ∙ take_bytes-append (bytes_of size n) rest

-- A tag with a size reads that many bytes.
read_size :
    (max tag size n : ℕ) (bytes rest : Bytes)
    → size_at (max - tag) ≡ some size
    → big_endian 0 (bytes_of size n) ≡ n
    → bytes ≡ bytes_of size n ++ rest
    → read_tagged max tag bytes ≡ ok (n, rest)
unfolding read_tagged read_sized
read_size max tag size n bytes rest s e b =
    ap (λ o. read_sized tag o bytes) s
    ∙ ap (read_sized tag (some size)) b
    ∙ bind-ok _ _ (take_bytes_of size n rest)
    ∙ ap (λ v. ok (v, rest)) e

read_inline :
    (max tag n : ℕ) (rest : Bytes)
    → size_at (max - tag) ≡ none
    → tag ≡ n
    → read_tagged max tag rest ≡ ok (n, rest)
unfolding read_tagged read_sized
read_inline max tag n rest s same = ap (λ o. read_sized tag o rest) s ∙ ap (λ v. ok (v, rest)) same

size_at-none : (max n : ℕ) → n + 3 < max → size_at (max - n) ≡ none
unfolding size_at
size_at-none max n h = ground arith

size_at-one : size_at 3 ≡ some 1
unfolding size_at
size_at-one = refl

size_at-two : size_at 2 ≡ some 2
unfolding size_at
size_at-two = refl

size_at-four : size_at 1 ≡ some 4
unfolding size_at
size_at-four = refl

size_at-eight : size_at 0 ≡ some 8
unfolding size_at
size_at-eight = refl

size_at-tag :
    (max tag k : ℕ)
    → max - tag ≡ k
    → (size : ℕ) → size_at k ≡ some size
    → size_at (max - tag) ≡ some size
size_at-tag max tag k e size s = ap size_at e ∙ s

abbrev Written : ℕ → ℕ → ℕ → Type 0
Written max tag n =
    ((size_at (max - tag) ≡ none) × (tag ≡ n))
    ⊎ ((size : ℕ) × (size_at (max - tag) ≡ some size) × (big_endian 0 (bytes_of size n) ≡ n))

written : (width n : ℕ) → 4 ≤ 2 ^ width → n < 2 ^ 64 → Written (max_tag width) (tag_for n width) n
unfolding tag_for
written width n w h = elim (Bool-cases (ltb n (2 ^ width - 4))) [
  | inl a ↦ rw a (inl (size_at-none (max_tag width) n (ground arith), refl))
  | inr a ↦ elim (Bool-cases (ltb n 256)) [
    | inl e ↦
        rw (a, e)
          (inr (
            1,
            size_at-tag (max_tag width) (max_tag width - 3) 3 (omega arith) 1 size_at-one,
            big_endian-1 n (ground arith),
          ))
    | inr b ↦ elim (Bool-cases (ltb n 65_536)) [
      | inl e ↦
          rw (a, b, e)
            (inr (
              2,
              size_at-tag (max_tag width) (max_tag width - 2) 2 (omega arith) 2 size_at-two,
              big_endian-2 n (ground arith),
            ))
      | inr c ↦ elim (Bool-cases (ltb n 4_294_967_296)) [
        | inl e ↦
            rw (a, b, c, e)
              (inr (
                4,
                size_at-tag (max_tag width) (max_tag width - 1) 1 (omega arith) 4 size_at-four,
                big_endian-4 n (ground arith),
              ))
        | inr d ↦
            rw (a, b, c, d)
              (inr (
                8,
                size_at-tag (max_tag width) (max_tag width) 0 (omega arith) 8 size_at-eight,
                big_endian-8 n h,
              ))
      ]
    ]
  ]
]

pub cu64_bytes-size :
    (width n size : ℕ)
    → size_at (max_tag width - tag_for n width) ≡ some size
    → cu64_bytes n width ≡ bytes_of size n
unfolding cu64_bytes
cu64_bytes-size width n size s = rw (s, cu64_bytes) refl

pub cu64_bytes-none :
    (width n : ℕ) → size_at (max_tag width - tag_for n width) ≡ none → cu64_bytes n width ≡ []
unfolding cu64_bytes
cu64_bytes-none width n s = rw (s, cu64_bytes) refl

-- What `tagFor` and `cu64Bytes` write at a width is read back from the tag and the bytes.
pub read_tagged-cu64_bytes :
    (width n : ℕ) (rest : Bytes)
    → 4 ≤ 2 ^ width
    → n < 2 ^ 64
    → read_tagged (max_tag width) (tag_for n width) (cu64_bytes n width ++ rest) ≡ ok (n, rest)
read_tagged-cu64_bytes width n rest w h = elim (written width n w h) [
  | inl (s, same) ↦
      ap (λ l. read_tagged (max_tag width) (tag_for n width) (l ++ rest))
        (cu64_bytes-none width n s)
      ∙ read_inline (max_tag width) (tag_for n width) n rest s same
  | inr (size, s, e) ↦
      read_size (max_tag width) (tag_for n width) size n (cu64_bytes n width ++ rest) rest s e
        (ap (λ l. l ++ rest) (cu64_bytes-size width n size s))
]

tag_for-bound : (n width : ℕ) → 4 ≤ 2 ^ width → tag_for n width < 2 ^ width
unfolding tag_for
tag_for-bound n width w = ground arith

read_at :
    (max tag tag1 : ℕ) (bytes : Bytes) (r : Result (ℕ × Bytes))
    → tag ≡ tag1
    → read_tagged max tag1 bytes ≡ r
    → read_tagged max tag bytes ≡ r
read_at max tag tag1 bytes r same e = ap (λ t. read_tagged max t bytes) same ∙ e

-- The three places of a tag: a byte of its own, and the high and the low half of one.
pub cu64_standalone-encode_cu64_standalone :
    (n : ℕ) (rest : Bytes)
    → n < 2 ^ 64
    → cu64_standalone (encode_cu64_standalone n ++ rest) ≡ ok (n, rest)
unfolding cu64_standalone encode_cu64_standalone cu64 byte
cu64_standalone-encode_cu64_standalone n rest h =
    bind-ok byte _ refl
    ∙ read_at (max_tag 8) (tag_for n 8 / 1 % 256) (tag_for n 8) (cu64_bytes n 8 ++ rest)
        (ok (n, rest))
        (let small : tag_for n 8 < 256 = tag_for-bound n 8 (omega arith) in omega arith)
        (read_tagged-cu64_bytes 8 n rest (omega arith) h)

pub cu64-high :
    (n m : ℕ) (rest : Bytes)
    → n < 2 ^ 64
    → cu64 (tag_for n 4 * 16 + tag_for m 4) 4 0 (cu64_bytes n 4 ++ rest) ≡ ok (n, rest)
unfolding cu64
cu64-high n m rest h =
    read_at (max_tag 4) ((tag_for n 4 * 16 + tag_for m 4) / 16 % 16) (tag_for n 4)
      (cu64_bytes n 4 ++ rest) (ok (n, rest))
      (let a : tag_for n 4 < 16 = tag_for-bound n 4 (omega arith) in
        let b : tag_for m 4 < 16 = tag_for-bound m 4 (omega arith) in omega arith)
      (read_tagged-cu64_bytes 4 n rest (omega arith) h)

pub cu64-low :
    (n m : ℕ) (rest : Bytes)
    → m < 2 ^ 64
    → cu64 (tag_for n 4 * 16 + tag_for m 4) 4 4 (cu64_bytes m 4 ++ rest) ≡ ok (m, rest)
unfolding cu64
cu64-low n m rest h =
    read_at (max_tag 4) ((tag_for n 4 * 16 + tag_for m 4) / 1 % 16) (tag_for m 4)
      (cu64_bytes m 4 ++ rest) (ok (m, rest))
      (let b : tag_for m 4 < 16 = tag_for-bound m 4 (omega arith) in omega arith)
      (read_tagged-cu64_bytes 4 m rest (omega arith) h)
