-- ===== src/Willow/Reader.antt =====
-- The `Reader` and the errors of integrations/willow-drop/encoding.ts: a reading takes the bytes that
-- remain and returns a value with those that remain then. A byte is a number below 256.
pub mod Steps
use atomic_plugins.Prelude.{
  Bool, true, false, ℕ, zero, suc, ◌+◌, ◌-◌, ◌*◌, ◌/◌, ◌%◌, ◌^◌, ◌<◌, Option, none, some, List, [],
  ◌∷◌, length, take, drop, ltb, ◌==◌, if◌then◌else◌,
}

abbrev pub Bytes : Type 0
Bytes = List ℕ

abbrev pub IsByte : ℕ → Type 0
IsByte b = b < 256

pub data What : Type 0 where
  path_component path_prefix path : What

-- The messages of a `DropError`.
pub data Problem : Type 0 where
  ends_in_entry claims_more_bytes invalid_last_component reuses_components : Problem
  exceeds : What → ℕ → Problem
  exceeds_path_limits delegations reuses_delegations repeats_communal : Problem
  no_entry_header communal_in_owned owned_in_communal : Problem
  genesis_not_signed signature_not_verified : Problem
  ends_in_payload wrong_digest payload_slices payload_prefix : Problem
  too_many_entries bytes_after_end : Problem

pub record DropError : Type 0 where
  pub problem : Problem
  pub entry : Option ℕ

pub data Result {ℓ} (A : Type ℓ) : Type ℓ where
  ok : A → Result A
  err : DropError → Result A

abbrev pub M : Type 0 → Type 0
M A = Bytes → Result (A × Bytes)

infixl 5 ◌>>=◌ ◌>>◌
unfoldable pub ◌>>=◌ : {A B : Type 0} → M A → (A → M B) → M B
◌>>=◌ m f bytes = elim (m bytes) [ err e ↦ err e | ok (a, rest) ↦ f a rest ]

unfoldable pub ◌>>◌ : {B : Type 0} → M (Unit {0}) → M B → M B
◌>>◌ m k bytes = elim (m bytes) [ err e ↦ err e | ok (tt, rest) ↦ k rest ]

abbrev pub return : {A : Type 0} → A → M A
return a rest = ok (a, rest)

abbrev pub throw : {A : Type 0} → Problem → M A
throw p rest = err (record { problem = p; entry = none })

-- `if (test) throw new DropError(…)`
unfoldable pub throw_if : Bool → Problem → M (Unit {0})
throw_if true p = throw p
throw_if false p = return tt

unfoldable pub peek : M ℕ
peek [] = throw ends_in_entry []
peek (b ∷ rest) = ok (b, b ∷ rest)

unfoldable pub byte : M ℕ
byte [] = throw ends_in_entry []
byte (b ∷ rest) = ok (b, rest)

unfoldable pub take_bytes : ℕ → M Bytes
take_bytes count bytes =
    if ltb (length bytes) count
    then throw ends_in_entry bytes
    else ok (take count bytes, drop count bytes)

abbrev pub max_tag : ℕ → ℕ
max_tag width = 2 ^ width - 1

-- `[8, 4, 2, 1][i]`
unfoldable pub size_at : ℕ → Option ℕ
size_at i =
    if i == 0
    then some 8
    else if i == 1
    then some 4
    else if i == 2
    then some 2
    else if i == 3
    then some 1
    else none

-- `value = (value << 8n) | BigInt(b)` for each byte
unfoldable pub big_endian : ℕ → Bytes → ℕ
big_endian value [] = value
big_endian value (b ∷ bytes) = big_endian (value * 256 + b) bytes

-- `bytes === undefined` is `none`.
unfoldable pub read_sized : ℕ → Option ℕ → M ℕ
unfolding big_endian
read_sized tag none = return tag
read_sized tag (some size) = do bytes ← take_bytes size; return (big_endian 0 bytes)

unfoldable pub read_tagged : ℕ → ℕ → M ℕ
read_tagged max tag = read_sized tag (size_at (max - tag))

unfoldable pub cu64 : ℕ → ℕ → ℕ → M ℕ
cu64 tag_byte width offset =
    read_tagged (max_tag width) (tag_byte / 2 ^ (8 - offset - width) % 2 ^ width)

unfoldable pub cu64_standalone : M ℕ
cu64_standalone = do tag ← byte; cu64 tag 8 0

unfoldable pub small : ℕ → ℕ → What → M ℕ
small value limit what = do throw_if (ltb limit value) (exceeds what limit); return value
