-- ===== src/Devonian/Reflect/Marker.antt =====
-- devonian/src/reflect/marker.ts: the hidden comment that names the original of a copy, on lists of
-- characters. `encodeURIComponent` and `decodeURIComponent` are parameters, of which the second gives
-- `none` where it throws. A namespace does not begin with a space.
pub mod Matching
pub mod Fields
pub mod RoundTrip
pub mod Echo
mod Tests
use Prim.Native.Char.{Char, code}
use Prim.Native.String
use atomic_plugins.Prelude.{
  ℕ, zero, suc, ◌-◌, ◌+◌, String, Bool, true, false, not, ◌&&◌, ◌||◌, Option, none, some, List, [],
  ◌∷◌, ◌++◌, length, ltb, leb, ◌==◌, if◌then◌else◌,
}
use atomic_plugins.Prelude.Grouping.{find, put}
use atomic_plugins.Devonian.Reflect.Client.{is_empty}
use atomic_plugins.Devonian.Reflect.Copies.{OriginRef, Markers}

abbrev pub Chars : Type 0
Chars = List Char

unfoldable pub chars : String → Chars
chars String.[] = []
chars (String.◌∷◌ c s) = c ∷ chars s

unfoldable pub text_from : Chars → String
text_from [] = ""
text_from (c ∷ cs) = String.◌∷◌ c (text_from cs)

-- `\s`, which is what `trim` removes, too.
unfoldable pub is_space_code : ℕ → Bool
is_space_code c =
    (leb 9 c && leb c 13)
    || ((c == 32)
        || ((c == 160)
            || ((c == 5760)
                || ((leb 8192 c && leb c 8202)
                    || ((c == 8232)
                        || ((c == 8233)
                            || ((c == 8239)
                                || ((c == 8287) || ((c == 12288) || (c == 65279))))))))))

abbrev pub is_space : Char → Bool
is_space c = is_space_code (code c)

abbrev pub is_char : Char → Char → Bool
is_char c d = code c == code d

-- What follows the literal at the front.
unfoldable pub past : Chars → Chars → Option Chars
past [] s = some s
past (c ∷ cs) [] = none
past (c ∷ cs) (d ∷ s) = let rest = past cs s in if is_char c d then rest else none

unfoldable pub skip_spaces : Chars → Chars
skip_spaces [] = []
skip_spaces (c ∷ s) = let rest = skip_spaces s in if is_space c then rest else c ∷ s

abbrev pub and_then : {A B : Type 0} → Option A → (A → Option B) → Option B
and_then none f = none
and_then (some a) f = f a

-- `\s+`
abbrev pub past_spaces : Chars → Option Chars
past_spaces [] = none
past_spaces (c ∷ s) = if is_space c then some (skip_spaces s) else none

abbrev pub open_comment : Chars
open_comment = "<" ∷ "!" ∷ "-" ∷ "-" ∷ []

abbrev pub close_comment : Chars
close_comment = "-" ∷ "-" ∷ ">" ∷ []

-- `\s*-->`
unfoldable pub closing : Chars → Option Chars
unfolding skip_spaces past
closing s = past close_comment (skip_spaces s)

abbrev pub with_front : Char → Option (Chars × Chars) → Option (Chars × Chars)
with_front c none = none
with_front c (some (payload, rest)) = some (c ∷ payload, rest)

-- `([^>]*?)\s*-->`: the payload, and what follows the marker.
unfoldable pub payload_of : Chars → Option (Chars × Chars)
payload_of [] = none
payload_of (c ∷ s) =
    let more = payload_of s in
    elim (closing (c ∷ s)) [
      | some rest ↦ some ([], rest)
      | none ↦ if is_char c ">" then none else with_front c more
    ]

module _ (namespace : String) where
  unfoldable pub tag : Chars
  unfolding chars
  tag = chars namespace ++ chars ":origin"

  -- `markerRegex`, at the front.
  unfoldable pub match_at : Chars → Option (Chars × Chars)
  unfolding past skip_spaces payload_of
  match_at s = and_then (past open_comment s) λ inside.
      and_then (past tag (skip_spaces inside)) λ tagged. and_then (past_spaces tagged) payload_of

  abbrev pub or_else : {A : Type 0} → Option A → Option A → Option A
  or_else none p = p
  or_else (some a) p = some a

  -- `re.exec`, of which the payload of the first match is used.
  unfoldable pub first_match : Chars → Option (Chars × Chars)
  first_match [] = none
  first_match (c ∷ s) = let rest = first_match s in or_else (match_at (c ∷ s)) rest

  -- `replace(markerRegex, '')`, where the first number counts the characters of a match that are
  -- still to be left out.
  unfoldable pub without_markers : ℕ → Chars → Chars
  without_markers n [] = []
  without_markers (suc n) (c ∷ s) = without_markers n s
  without_markers zero (c ∷ s) = elim (match_at (c ∷ s)) [
    | none ↦ c ∷ without_markers zero s
    | some m ↦ without_markers (length s - length m.1) s
  ]

-- `split(/\s+/)`, but for empty parts, which are passed over.
unfoldable pub split_spaces : Chars → Chars → List Chars
split_spaces word [] = word ∷ []
split_spaces word (c ∷ s) =
    let more = split_spaces (word ++ c ∷ []) s in
    let next = split_spaces [] s in if is_space c then word ∷ next else more

-- `pair.slice(0, eq)` and `pair.slice(eq + 1)`, where there is a sign and it is not the first.
unfoldable pub split_sign : Chars → Chars → Option (Chars × Chars)
split_sign key [] = none
split_sign key (c ∷ s) =
    let more = split_sign (key ++ c ∷ []) s in if is_char c "=" then some (key, s) else more

-- `fields`, or `none` for an encoding that cannot be read.
module _ (decode : String → Option String) where
  abbrev pub add_field :
      Chars → Option String → List (String × String) → Option (List (String × String))
  add_field key none fields = none
  add_field key (some v) fields = some (put (text_from key) (λ _. v) fields)

  abbrev pub add_pair :
      Option (Chars × Chars) → List (String × String) → Option (List (String × String))
  add_pair none fields = some fields
  add_pair (some (key, v)) fields =
      if is_empty key then some fields else add_field key (decode (text_from v)) fields

  unfoldable pub read_fields : List Chars → List (String × String) → Option (List (String × String))
  unfolding split_sign
  read_fields [] fields = some fields
  read_fields (word ∷ words) fields =
      and_then (add_pair (split_sign [] word) fields) (read_fields words)

abbrev pub ref_of : Option String → Option String → Option String → Option OriginRef
ref_of (some system) (some kind) (some id) = some (record { system = system; kind = kind; id = id })
ref_of none k i = none
ref_of (some s) none i = none
ref_of (some s) (some k) none = none

abbrev pub ref_in : List (String × String) → Option OriginRef
ref_in fields = ref_of (find "system" fields) (find "kind" fields) (find "id" fields)

-- `replace(/\n{3,}/g, '\n\n')`, after some line breaks.
unfoldable pub fewer_breaks : ℕ → Chars → Chars
fewer_breaks n [] = []
fewer_breaks n (c ∷ s) =
    let other = c ∷ fewer_breaks 0 s in
    let more = fewer_breaks (suc n) s in
    if code c == 10 then if leb 2 n then more else c ∷ more else other

unfoldable pub trim_end : Chars → Chars
trim_end [] = []
trim_end (c ∷ s) = let rest = trim_end s in if is_space c && is_empty rest then [] else c ∷ rest

unfoldable pub parse_marker : (String → Option String) → String → String → Option OriginRef
unfolding first_match split_spaces read_fields chars
parse_marker decode namespace body =
    and_then (first_match namespace (chars body))
      λ m. and_then (read_fields decode (split_spaces [] m.0) []) ref_in

unfoldable pub has_marker : String → String → Bool
unfolding first_match chars
has_marker namespace body = elim (first_match namespace (chars body)) [
  | none ↦ false
  | some m ↦ true
]

module _ (encode : String → String) where
  unfoldable pub fields_of : OriginRef → Chars
  unfolding chars
  fields_of ref =
      chars "system="
      ++ (chars (encode ref.system)
          ++ (chars " kind="
              ++ (chars (encode ref.kind) ++ (chars " id=" ++ chars (encode ref.id)))))

module _ (encode : String → String) (namespace : String) where
  unfoldable pub render_marker : OriginRef → Chars
  unfolding chars tag fields_of
  render_marker ref =
      chars "<!-- " ++ (tag namespace ++ (chars " " ++ (fields_of encode ref ++ chars " -->")))

unfoldable pub stripped : String → Chars → Chars
unfolding without_markers fewer_breaks trim_end skip_spaces
stripped namespace body = trim_end (skip_spaces (fewer_breaks 0 (without_markers namespace 0 body)))

unfoldable pub strip_marker : String → String → String
unfolding stripped chars text_from
strip_marker namespace body = text_from (stripped namespace (chars body))

abbrev pub appended : Chars → Chars → Chars
appended [] marker = marker
appended (c ∷ base) marker = (c ∷ base) ++ (chars "\n\n" ++ marker)

unfoldable pub embed_marker : (String → String) → String → String → OriginRef → String
unfolding stripped render_marker chars text_from
embed_marker encode namespace body ref =
    text_from (appended (stripped namespace (chars body)) (render_marker encode namespace ref))

-- The engine's `parse`, `embed` and `strip`.
abbrev pub markers_for : (String → String) → (String → Option String) → String → Markers
markers_for encode decode namespace = record {
  parse = parse_marker decode namespace;
  embed = embed_marker encode namespace;
  strip = strip_marker namespace;
}
