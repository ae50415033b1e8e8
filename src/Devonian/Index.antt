-- ===== src/Devonian/Index.antt =====
-- devonian/src/DevonianIndex.ts, for one model: each operation takes the name of a model and reads
-- and writes the entries of that model only.
mod Writes
pub mod Sound
pub mod Stored
pub mod Foreign
pub mod Throws
mod Tests
use atomic_plugins.Prelude.{
  ℕ, String, Option, none, some, List, [], ◌∷◌, ◌++◌, length, get_or, set, str_eq, if◌then◌else◌,
}
use atomic_plugins.Prelude.JsText.{decimal}
use atomic_plugins.Prelude.Grouping.{find, put}

pub data LocalId : Type 0 where
  text : String → LocalId
  number : ℕ → LocalId

-- An identifier as the key of an object.
unfoldable pub key_of : LocalId → String
key_of (text s) = s
key_of (number n) = decimal n

-- The identifiers of one thing, by platform, in the order in which they were added; the names of
-- platforms are no numbers, which an object would put first.
abbrev pub IdentifierMap : Type 0
IdentifierMap = List (String × LocalId)

-- By platform and identifier, the place of the thing in `ids`.
abbrev pub PlatformIndex : Type 0
PlatformIndex = List (String × List (String × ℕ))

pub record Tables : Type 0 where
  pub ids : List IdentifierMap
  pub index : PlatformIndex

-- An error is thrown where an undefined entry is written to; what was written before stays.
pub data Outcome (A : Type 0) : Type 0 where
  returned : A → Outcome A
  thrown : A → Outcome A

-- `table?.[key]`
abbrev pub key_in : String → Option (List (String × ℕ)) → Option ℕ
key_in key none = none
key_in key (some table) = find key table

unfoldable pub index_at : PlatformIndex → String → String → Option ℕ
index_at index platform key = key_in key (find platform index)

unfoldable pub first_foreign : PlatformIndex → IdentifierMap → Option ℕ
first_foreign index [] = none
first_foreign index ((platform, id) ∷ foreign) = elim (index_at index platform (key_of id)) [
  | some i ↦ some i
  | none ↦ first_foreign index foreign
]

unfoldable pub lookup_index_from : PlatformIndex → String → LocalId → IdentifierMap → Option ℕ
lookup_index_from index platform local foreign = elim (index_at index platform (key_of local)) [
  | some i ↦ some i
  | none ↦ first_foreign index foreign
]

abbrev pub or_empty : Option (List (String × ℕ)) → List (String × ℕ)
or_empty none = []
or_empty (some table) = table

-- `index[platform][key] = i`, once `index[platform]` is there
unfoldable pub write : ℕ → String → String → PlatformIndex → PlatformIndex
write i platform key index = put platform (λ table. put key (λ _. i) (or_empty table)) index

unfoldable pub index_all : ℕ → IdentifierMap → PlatformIndex → PlatformIndex
index_all i [] index = index
index_all i ((platform, id) ∷ entry) index = index_all i entry (write i platform (key_of id) index)

unfoldable pub ensure_indexed : ℕ → Tables → Tables
ensure_indexed i t = record t { index = index_all i (get_or t.ids i []) t.index }

abbrev pub assign : String → LocalId → IdentifierMap → IdentifierMap
assign platform id entry = put platform (λ _. id) entry

-- The loop over the foreign identifiers: the thing's entry, and the index, which has to have a
-- table for the platform.
unfoldable pub store_foreign :
    ℕ → IdentifierMap → IdentifierMap → PlatformIndex → Outcome (IdentifierMap × PlatformIndex)
store_foreign i [] entry index = returned (entry, index)
store_foreign i ((platform, id) ∷ foreign) entry index = elim (find platform index) [
  | none ↦ thrown (assign platform id entry, index)
  | some table ↦
      store_foreign i foreign (assign platform id entry) (write i platform (key_of id) index)
]

abbrev pub with_entry : Tables → ℕ → IdentifierMap × PlatformIndex → Tables
with_entry t i (entry, index) = record { ids = set t.ids i entry; index = index }

abbrev pub finish : Tables → ℕ → Outcome (IdentifierMap × PlatformIndex) → Outcome Tables
finish t i (returned e) = returned (ensure_indexed i (with_entry t i e))
finish t i (thrown e) = thrown (with_entry t i e)

unfoldable pub store_known : Tables → String → LocalId → IdentifierMap → ℕ → Outcome Tables
store_known t platform local foreign i =
    finish t i (store_foreign i foreign (assign platform local (get_or t.ids i [])) t.index)

unfoldable pub store_new : Tables → String → LocalId → IdentifierMap → Tables
store_new t platform local foreign =
    ensure_indexed (length t.ids) (record t { ids = t.ids ++ assign platform local foreign ∷ [] })

unfoldable pub store_identities_from : Tables → String → LocalId → IdentifierMap → Outcome Tables
store_identities_from t platform local foreign =
    elim (lookup_index_from t.index platform local foreign) [
      | some i ↦ store_known t platform local foreign i
      | none ↦ returned (store_new t platform local foreign)
    ]

unfoldable pub convert_id : Tables → String → String → String → Option LocalId
convert_id t from key to = elim (index_at t.index from key) [
  | some i ↦ find to (get_or t.ids i [])
  | none ↦ none
]

-- `delete copied[platform]`
unfoldable pub without : String → IdentifierMap → IdentifierMap
without platform [] = []
without platform ((p, id) ∷ entry) =
    if str_eq p platform then without platform entry else (p, id) ∷ without platform entry

unfoldable pub convert_foreign_ids : String → LocalId → IdentifierMap → String → IdentifierMap
unfolding without
convert_foreign_ids from id foreign to = assign from id (without to foreign)

abbrev pub and_then : Outcome Tables → (Tables → Outcome Tables) → Outcome Tables
and_then (returned t) f = f t
and_then (thrown t) f = thrown t

-- One thing: each of its identifiers is stored with the others as foreign ones.
unfoldable pub store_filtered : Tables → String → LocalId → IdentifierMap → Outcome Tables
store_filtered t platform id [] = returned t
store_filtered t platform id (e ∷ filtered) = store_identities_from t platform id (e ∷ filtered)

unfoldable pub store_thing : IdentifierMap → IdentifierMap → Tables → Outcome Tables
store_thing thing [] t = returned t
store_thing thing ((platform, id) ∷ entry) t =
    and_then (store_filtered t platform id (without platform thing)) (store_thing thing entry)

-- The equivalences of the model.
unfoldable pub store_equivalences : List IdentifierMap → Tables → Outcome Tables
unfolding store_thing store_filtered
store_equivalences [] t = returned t
store_equivalences (thing ∷ things) t =
    and_then (store_thing thing thing t) (store_equivalences things)
