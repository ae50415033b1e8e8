-- ===== src/Willow/Mapping.antt =====
-- integrations/willow-drop/mapping.ts: the order of entries, the entries that are kept of a drop, and
-- texts of a row.
pub mod Versions
pub mod Order
pub mod Pruning
mod Tests
use atomic_plugins.Prelude.{
  ℕ, zero, suc, ◌+◌, ◌-◌, ◌*◌, ◌/◌, ◌%◌, Bool, true, false, not, ◌&&◌, ◌||◌, Option, none, some,
  List, [], ◌∷◌, ◌++◌, length, get_or, keep, map, ltb, leb, ◌==◌, if◌then◌else◌,
}
use atomic_plugins.Prelude.Domination.{any_of}
use atomic_plugins.Willow.Reader.{Bytes}
use atomic_plugins.Willow.Encoding.{WillowPath}
use atomic_plugins.Willow.Drop.{DropEntry}
use atomic_plugins.Willow.Text.{Text}

-- The sign of the number that `compareBytes` returns.
pub data Comparison : Type 0 where
  less same more : Comparison

unfoldable pub compare_bytes : Bytes → Bytes → Comparison
compare_bytes [] [] = same
compare_bytes [] (y ∷ b) = less
compare_bytes (x ∷ a) [] = more
compare_bytes (x ∷ a) (y ∷ b) =
    let rest = compare_bytes a b in if x == y then rest else if ltb x y then less else more

abbrev pub is_same : Comparison → Bool
is_same less = false
is_same same = true
is_same more = false

abbrev by_digest : Comparison → Bool → Bool
by_digest less longer = false
by_digest same longer = longer
by_digest more longer = true

-- Of the fields of a `Version`.
unfoldable pub newer : DropEntry → DropEntry → Bool
newer a b =
    if a.timestamp == b.timestamp
    then by_digest (compare_bytes a.payload_digest b.payload_digest)
        (ltb b.payload_length a.payload_length)
    else ltb b.timestamp a.timestamp

unfoldable pub same_key_space : DropEntry → DropEntry → Bool
same_key_space a b =
    is_same (compare_bytes a.namespace b.namespace) && is_same (compare_bytes a.subspace b.subspace)

-- `prefix.every((component, i) => …)`, for a path that is no shorter.
unfoldable pub every_same : WillowPath → WillowPath → Bool
every_same [] path = true
every_same (c ∷ prefix) [] = false
every_same (c ∷ prefix) (d ∷ path) = is_same (compare_bytes c d) && every_same prefix path

unfoldable pub is_prefix : WillowPath → WillowPath → Bool
is_prefix prefix path = leb (length prefix) (length path) && every_same prefix path

-- The test of `prune` on another entry; `newer` is false of an entry and itself, so `other !== entry`
-- changes nothing.
unfoldable pub overwrites : DropEntry → DropEntry → Bool
unfolding same_key_space is_prefix newer
overwrites other entry =
    same_key_space other entry && (is_prefix other.path entry.path && newer other entry)

pub record Pruned : Type 0 where
  pub kept : List DropEntry
  pub pruned : ℕ

unfoldable pub prune : List DropEntry → Pruned
unfolding overwrites
prune entries =
    let left = keep (λ entry. not (any_of (λ other. overwrites other entry) entries)) entries in
    record { kept = left; pruned = length entries - length left }

abbrev pub hex_digits : Text
hex_digits = 48 ∷ 49 ∷ 50 ∷ 51 ∷ 52 ∷ 53 ∷ 54 ∷ 55 ∷ 56 ∷ 57 ∷ 97 ∷ 98 ∷ 99 ∷ 100 ∷ 101 ∷ 102 ∷ []

-- `b.toString(16).padStart(2, '0')`
unfoldable pub hex_byte : ℕ → Text
hex_byte b = get_or hex_digits (b / 16) 0 ∷ get_or hex_digits (b % 16) 0 ∷ []

unfoldable pub hex : Bytes → Text
unfolding hex_byte
hex [] = []
hex (b ∷ bytes) = hex_byte b ++ hex bytes

-- `UNRESERVED`, of a byte below 128.
unfoldable pub is_unreserved : ℕ → Bool
is_unreserved b =
    (leb 65 b && leb b 90)
    || ((leb 97 b && leb b 122)
        || ((leb 48 b && leb b 57) || (b == 45 || (b == 46 || (b == 95 || b == 126)))))

unfoldable pub display_component : Bytes → Text
unfolding hex_byte is_unreserved
display_component [] = []
display_component (b ∷ bytes) =
    (if ltb b 0x80 && is_unreserved b then b ∷ [] else 37 ∷ hex_byte b) ++ display_component bytes

-- `join('/')`
unfoldable pub joined : List Text → Text
joined [] = []
joined (t ∷ []) = t
joined (t ∷ u ∷ ts) = t ++ 47 ∷ joined (u ∷ ts)

unfoldable pub display_path : WillowPath → Text
unfolding display_component joined
display_path path = 47 ∷ joined (map display_component path)
