-- ===== src/Willow/Drop.antt =====
-- integrations/willow-drop/drop.ts: decoding and verifying a whole drop. Ed25519's `verify` is not of
-- this repository and is a parameter: signature, message and key, with `none` where it throws.
-- Masks by numerals are written as `/` and `%`.
pub mod Payloads
pub mod Laws
mod Tests
use atomic_plugins.Prelude.{
  ℕ, zero, suc, ◌+◌, ◌-◌, ◌*◌, ◌/◌, ◌%◌, ◌^◌, Bool, true, false, not, ◌&&◌, ◌||◌, Option, none,
  some, List, [], ◌∷◌, ◌++◌, length, get_elem?, ltb, leb, ◌==◌, if◌then◌else◌,
}
use atomic_plugins.Willow.Reader.{
  Bytes, M, Result, ok, err, DropError, ◌>>=◌, ◌>>◌, return, throw, throw_if, peek, byte,
  take_bytes, cu64, cu64_standalone, delegations, reuses_delegations, repeats_communal,
  no_entry_header, communal_in_owned, owned_in_communal, genesis_not_signed, signature_not_verified,
  ends_in_payload, wrong_digest, payload_slices, payload_prefix, too_many_entries, bytes_after_end,
}
use atomic_plugins.Willow.Encoding.{
  WillowPath, decode_relative_path, encode_cu64_standalone, encode_path,
}
use atomic_plugins.Willow.William3.{william3}

abbrev pub max_entries : ℕ
max_entries = 1000

pub data Capability : Type 0 where
  communal_capability : Capability
  owned_capability : Bytes → Bytes → Capability

pub record DropEntry : Type 0 where
  pub namespace : Bytes
  pub subspace : Bytes
  pub path : WillowPath
  pub timestamp : ℕ
  pub payload_length : ℕ
  pub payload_digest : Bytes
  pub capability : Capability
  pub communal : Bool
  pub payload : Option Bytes

unfoldable pub default_id : Bytes
default_id =
    147 ∷ 78 ∷ 96 ∷ 33 ∷ 51 ∷ 158 ∷ 31 ∷ 1 ∷ 59 ∷ 169 ∷ 73 ∷ 0 ∷ 237 ∷ 194 ∷ 93 ∷ 141 ∷ 116 ∷ 192
    ∷ 180 ∷ 229 ∷ 115 ∷ 118 ∷ 137 ∷ 16 ∷ 174 ∷ 15 ∷ 80 ∷ 125 ∷ 140 ∷ 129 ∷ 115 ∷ 24 ∷ []

unfoldable pub default_entry : DropEntry
default_entry = record {
  namespace = default_id;
  subspace = default_id;
  path = [];
  timestamp = 0;
  payload_length = 0;
  payload_digest = william3 [];
  capability = communal_capability;
  communal = true;
  payload = none;
}

-- `a.every((byte, i) => byte === b[i])`
unfoldable pub every_at : Bytes → Bytes → Bool
every_at [] b = true
every_at (x ∷ a) [] = false
every_at (x ∷ a) (y ∷ b) = x == y && every_at a b

unfoldable pub equal : Bytes → Bytes → Bool
unfolding every_at
equal a b = length a == length b && every_at a b

unfoldable pub is_communal : Bytes → Bool
is_communal namespace = elim (get_elem? namespace 31) [ none ↦ false | some last ↦ last % 2 == 0 ]

unfoldable pub encode_entry : DropEntry → Bytes
unfolding encode_path encode_cu64_standalone
encode_entry e =
    e.namespace
    ++ (e.subspace
        ++ (encode_path e.path
            ++ (encode_cu64_standalone e.timestamp
                ++ (encode_cu64_standalone e.payload_length ++ e.payload_digest))))

unfoldable pub decode_capability : ℕ → ℕ → Capability → M Capability
decode_capability header shared previous =
    if header / 128 % 2 == 0
    then return communal_capability
    else if shared == 0
    then (do
      user_key ← take_bytes 32
      initial_authorisation ← take_bytes 64
      return (owned_capability user_key initial_authorisation))
    else elim previous [
      | communal_capability ↦ throw repeats_communal
      | owned_capability key authorisation ↦ return (owned_capability key authorisation)
    ]

unfoldable pub decode_token : Capability → M (Capability × Bytes)
unfolding decode_capability
decode_token previous = do
  header ← byte
  shared ← cu64 header 3 1
  count ← cu64 header 4 4
  throw_if (ltb 0 count) delegations
  throw_if (ltb 1 shared) reuses_delegations
  capability ← decode_capability header shared previous
  signature ← take_bytes 64
  return (capability, signature)

-- `reader.remaining`
abbrev pub remaining : M ℕ
remaining bytes = ok (length bytes, bytes)

unfoldable pub full_payload : ℕ → Bytes → M (Option Bytes)
unfolding equal
full_payload payload_length payload_digest = do
  left ← remaining
  throw_if (ltb left payload_length) ends_in_payload
  payload ← take_bytes payload_length
  throw_if (not (equal (william3 payload) payload_digest)) wrong_digest
  return (some payload)

unfoldable pub no_slices : M (Option Bytes)
no_slices = do
  left ← remaining
  next ← (if ltb 0 left then peek else return 0)
  throw_if (ltb 0 left && next / 128 % 2 == 1) payload_slices
  return none

-- The payload by the mode in the header's last two bits.
unfoldable pub decode_payload : ℕ → ℕ → Bytes → M (Option Bytes)
unfolding full_payload no_slices
decode_payload mode payload_length payload_digest =
    if mode == 1
    then full_payload payload_length payload_digest
    else if mode == 3
    then no_slices
    else if mode == 2
    then throw payload_prefix
    else return none

-- Adds the index of the entry to an error without one.
unfoldable pub named : {A : Type 0} → ℕ → M A → M A
named index m bytes = elim (m bytes) [
  | ok v ↦ ok v
  | err e ↦
      err (record {
        problem = e.problem;
        entry = elim e.entry [ none ↦ some index | some i ↦ some i ];
      })
]

module _ (verify : Bytes → Bytes → Bytes → Option Bool) where
  -- `signed(key, message, signature)`
  unfoldable pub signed : Bytes → Bytes → Bytes → Bool
  signed key message signature = elim (verify signature message key) [ none ↦ false | some b ↦ b ]

  -- The key that signs the entry, for a capability that includes it.
  unfoldable pub receiver : Capability → Bytes → Bytes → Bool → M Bytes
  unfolding signed
  receiver communal_capability namespace subspace communal = do
    throw_if (not communal) communal_in_owned
    return subspace
  receiver (owned_capability user_key initial_authorisation) namespace subspace communal = do
    throw_if communal owned_in_communal
    throw_if (not (signed namespace (3 ∷ user_key) initial_authorisation)) genesis_not_signed
    return user_key

  -- The checks of an entry whose fields are read, and its payload.
  unfoldable pub verify_entry : ℕ → Bytes → DropEntry → M DropEntry
  unfolding receiver encode_entry decode_payload signed
  verify_entry header signature e = do
    key ← receiver e.capability e.namespace e.subspace e.communal
    throw_if (not (signed key (encode_entry e) signature)) signature_not_verified
    payload ← decode_payload (header % 4) e.payload_length e.payload_digest
    return (record e { payload = payload })

  unfoldable pub decode_entry : ℕ → DropEntry → M DropEntry
  unfolding verify_entry decode_token is_communal
  decode_entry header previous = do
    throw_if (not (header / 64 % 4 == 1)) no_entry_header
    namespace ← (if header / 32 % 2 == 1 then take_bytes 32 else return previous.namespace)
    subspace ← (if header / 16 % 2 == 1 then take_bytes 32 else return previous.subspace)
    path ← decode_relative_path previous.path
    timestamp ← cu64 header 2 4
    payload_length ← cu64_standalone
    payload_digest ← take_bytes 32
    token ← decode_token previous.capability
    verify_entry header token.1 (record {
      namespace = namespace;
      subspace = subspace;
      path = path;
      timestamp = timestamp;
      payload_length = payload_length;
      payload_digest = payload_digest;
      capability = token.0;
      communal = is_communal namespace;
      payload = none;
    })

  -- The loop with `left` entries more allowed: past them a header is an error.
  unfoldable pub read_entries : ℕ → DropEntry → List DropEntry → M (List DropEntry)
  unfolding decode_entry named
  read_entries zero previous entries = do
    header ← byte
    if header == 0 then return entries else named (length entries) (throw too_many_entries)
  read_entries (suc left) previous entries = do
    header ← byte
    if header == 0 then return entries else (do
      entry ← named (length entries) (decode_entry header previous)
      read_entries left entry (entries ++ entry ∷ []))

  unfoldable pub decode_drop : Bytes → Result (List DropEntry)
  unfolding read_entries default_entry
  decode_drop bytes = elim (read_entries max_entries default_entry [] bytes) [
    | err e ↦ err e
    | ok (entries, []) ↦ ok entries
    | ok (entries, b ∷ rest) ↦ err (record { problem = bytes_after_end; entry = none })
  ]
