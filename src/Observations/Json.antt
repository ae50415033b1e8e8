-- ===== src/Observations/Json.antt =====
-- JSON values in integrations/timesheets/app/observations.ts, their canonical text and its digest.
-- An object is its entries in the order of their insertion, each name once; a number is its text.
use Prim.Native.Nat.{bit_xor}
use atomic_plugins.Prelude.{
  ℕ, zero, suc, ◌*◌, ◌/◌, ◌%◌, ◌^◌, String, Bool, List, [], ◌∷◌, map, if◌then◌else◌, ◌≡◌, refl,
}
use atomic_plugins.Prelude.JsText.{text_lt, utf16, quote, array, commas, hex_digit, ◌+++◌}
use atomic_plugins.Prelude.Sorting.{sort_by, insert_by}

mutual
  pub data Json : Type 0 where
    string : String → Json
    number : String → Json
    boolean : Bool → Json
    null : Json
    items : Items → Json
    object : Fields → Json

  pub data Items : Type 0 where
    no_items : Items
    item : Json → Items → Items

  pub data Fields : Type 0 where
    no_fields : Fields
    field : String → Json → Fields → Fields

-- An object made of entries.
unfoldable pub object_of : List (String × Json) → Fields
object_of [] = no_fields
object_of ((k, v) ∷ es) = field k v (object_of es)

-- `keys.sort()`, on names with something that goes along
abbrev pub name_before : String × String → String × String → Bool
name_before y x = text_lt y.0 x.0

-- The object's text, from its members' names and texts.
unfoldable pub braces : List (String × String) → String
unfolding commas sort_by insert_by quote text_lt
braces ms = "{" +++ commas (map (λ m. quote m.0 +++ ":" +++ m.1) (sort_by name_before ms)) +++ "}"

-- Inside an array or an object the code calls itself on each member.
unfoldable mutual
  pub stable_stringify : Json → String
  stable_stringify (string s) = quote s
  stable_stringify (number n) = n
  stable_stringify (boolean b) = if b then "true" else "false"
  stable_stringify null = "null"
  stable_stringify (items xs) = array (item_texts xs)
  stable_stringify (object fs) = braces (member_texts fs)

  pub item_texts : Items → List String
  item_texts no_items = []
  item_texts (item x xs) = stable_stringify x ∷ item_texts xs

  pub member_texts : Fields → List (String × String)
  member_texts no_fields = []
  member_texts (field k v fs) = (k, stable_stringify v) ∷ member_texts fs

-- One round of the digest: `Math.imul` keeps the lower 32 bits.
unfoldable pub hash_units : List ℕ → ℕ → ℕ
hash_units [] hash = hash
hash_units (c ∷ cs) hash = hash_units cs (bit_xor hash c * 0x01000193 % 2 ^ 32)

-- The last `n` hexadecimal digits, with the zeros of `padStart`.
unfoldable pub hex_padded : ℕ → ℕ → String
hex_padded zero h = ""
hex_padded (suc n) h = hex_padded n (h / 16) +++ hex_digit (h % 16)

-- The hash of a text is below `2 ^ 32`, so that eight digits are all.
unfoldable pub fnv1a : String → String
unfolding utf16 hash_units hex_padded
fnv1a s = hex_padded 8 (hash_units (utf16 s) 0x811c9dc5)

ordered :
    stable_stringify
      (object (field "b" (number "1") (field "a" (items (item null no_items)) no_fields)))
    ≡ "{\"a\":[null],\"b\":1}"
unfolding stable_stringify braces array
ordered = refl

digest_of_nothing : fnv1a "" ≡ "811c9dc5"
unfolding fnv1a
digest_of_nothing = refl

digest_of_a_letter : fnv1a "a" ≡ "e40c292c"
unfolding fnv1a
digest_of_a_letter = refl
