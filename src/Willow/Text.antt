-- ===== src/Willow/Text.antt =====
-- Texts and bytes in integrations/willow-drop: UTF-8, base64 and windows-1252, of encoding.ts and
-- upload.ts. A text is the list of code points that a loop over it meets. Shifts and masks by numerals
-- are written as arithmetic, and so is the `|` of numbers whose bits are apart.
pub mod Sequences
pub mod Points
pub mod Utf8
mod Tests
use atomic_plugins.Prelude.{
  ℕ, zero, suc, ◌+◌, ◌-◌, ◌*◌, ◌/◌, ◌%◌, Bool, true, false, not, ◌&&◌, ◌||◌, Option, none, some,
  List, [], ◌∷◌, ◌++◌, length, get_or, keep, ltb, leb, ◌==◌, if◌then◌else◌,
}
use atomic_plugins.Willow.Reader.{Bytes}

abbrev pub Text : Type 0
Text = List ℕ

-- `[need, code, min]` of a first byte.
unfoldable pub lead : ℕ → Option (ℕ × ℕ × ℕ)
lead b =
    if leb 0xC2 b && leb b 0xDF
    then some (1, b % 32, 0x80)
    else if leb 0xE0 b && leb b 0xEF
    then some (2, b % 16, 0x800)
    else if leb 0xF0 b && leb b 0xF4
    then some (3, b % 8, 0x10000)
    else if leb 0x80 b
    then none
    else some (0, b, 0)

-- The loop over `k`; `none` also stands for the bytes that are missing.
unfoldable pub continued : ℕ → ℕ → Bytes → Option (ℕ × Bytes)
continued zero code bytes = some (code, bytes)
continued (suc need) code [] = none
continued (suc need) code (c ∷ bytes) =
    if c / 64 % 4 == 2 then continued need (code * 64 + c % 64) bytes else none

unfoldable pub refused : ℕ → ℕ → ℕ → Bool
refused need code min =
    (ltb 0 need && ltb code min) || (ltb 0x10FFFF code || (leb 0xD800 code && leb code 0xDFFF))

-- The code point of the sequence that a first byte starts, and the bytes after it.
unfoldable pub accepted : ℕ → ℕ → Option (ℕ × Bytes) → Option (ℕ × Bytes)
accepted need min none = none
accepted need min (some (point, rest)) = if refused need point min then none else some (point, rest)

unfoldable pub utf8_sequence : Option (ℕ × ℕ × ℕ) → Bytes → Option (ℕ × Bytes)
unfolding accepted
utf8_sequence none bytes = none
utf8_sequence (some (need, code, min)) bytes = accepted need min (continued need code bytes)

unfoldable pub utf8_next : ℕ → Bytes → Option (ℕ × Bytes)
utf8_next b bytes = utf8_sequence (lead b) bytes

abbrev pub prepend : ℕ → Option Text → Option Text
prepend point none = none
prepend point (some text) = some (point ∷ text)

-- The loop, for as many rounds as there are bytes at most.
unfoldable pub utf8_from : ℕ → Bytes → Option Text
utf8_from zero bytes = some []
utf8_from (suc rounds) [] = some []
utf8_from (suc rounds) (b ∷ bytes) = elim (utf8_next b bytes) [
  | none ↦ none
  | some (point, rest) ↦ prepend point (utf8_from rounds rest)
]

unfoldable pub utf8_text : Bytes → Option Text
unfolding utf8_from
utf8_text bytes = utf8_from (length bytes) bytes

-- The bytes that the body of the loop of `utf8Bytes` pushes.
unfoldable pub point_bytes : ℕ → Bytes
point_bytes code =
    if ltb code 0x80
    then code ∷ []
    else if ltb code 0x800
    then (0xC0 + code / 64) ∷ (0x80 + code % 64) ∷ []
    else if ltb code 0x10000
    then (0xE0 + code / 4_096) ∷ (0x80 + code / 64 % 64) ∷ (0x80 + code % 64) ∷ []
    else (0xF0 + code / 262_144)
      ∷ (0x80 + code / 4_096 % 64)
      ∷ (0x80 + code / 64 % 64)
      ∷ (0x80 + code % 64)
      ∷ []

unfoldable pub utf8_bytes : Text → Bytes
unfolding point_bytes
utf8_bytes [] = []
utf8_bytes (code ∷ text) = point_bytes code ++ utf8_bytes text

-- `BASE64`
unfoldable pub alphabet : Text
alphabet =
    65 ∷ 66 ∷ 67 ∷ 68 ∷ 69 ∷ 70 ∷ 71 ∷ 72 ∷ 73 ∷ 74 ∷ 75 ∷ 76 ∷ 77 ∷ 78 ∷ 79 ∷ 80 ∷ 81 ∷ 82 ∷ 83
    ∷ 84 ∷ 85 ∷ 86 ∷ 87 ∷ 88 ∷ 89 ∷ 90 ∷ 97 ∷ 98 ∷ 99 ∷ 100 ∷ 101 ∷ 102 ∷ 103 ∷ 104 ∷ 105 ∷ 106
    ∷ 107 ∷ 108 ∷ 109 ∷ 110 ∷ 111 ∷ 112 ∷ 113 ∷ 114 ∷ 115 ∷ 116 ∷ 117 ∷ 118 ∷ 119 ∷ 120 ∷ 121 ∷ 122
    ∷ 48 ∷ 49 ∷ 50 ∷ 51 ∷ 52 ∷ 53 ∷ 54 ∷ 55 ∷ 56 ∷ 57 ∷ 43 ∷ 47 ∷ []

-- `BASE64[i]`
unfoldable pub sign : ℕ → ℕ
unfolding alphabet
sign i = get_or alphabet i 0

-- Three bytes a round, with `=` for those that are missing.
unfoldable pub base64 : Bytes → Text
unfolding sign
base64 [] = []
base64 (a ∷ []) = let n = a * 65_536 in sign (n / 262_144) ∷ sign (n / 4_096 % 64) ∷ 61 ∷ 61 ∷ []
base64 (a ∷ b ∷ []) =
    let n = a * 65_536 + b * 256 in
    sign (n / 262_144) ∷ sign (n / 4_096 % 64) ∷ sign (n / 64 % 64) ∷ 61 ∷ []
base64 (a ∷ b ∷ c ∷ bytes) =
    let n = a * 65_536 + b * 256 + c in
    sign (n / 262_144) ∷ sign (n / 4_096 % 64) ∷ sign (n / 64 % 64) ∷ sign (n % 64) ∷ base64 bytes

-- The first place of a code point in a list of them.
unfoldable pub index_of : ℕ → Text → Option ℕ
index_of code [] = none
index_of code (c ∷ text) =
    let rest = index_of code text in
    if code == c then some 0 else elim rest [ none ↦ none | some i ↦ some (suc i) ]
