-- ===== src/Prelude/JsText.antt =====
-- Texts as JavaScript has them: order by UTF-16 code units, numbers in decimal, and JSON texts.
use Prim.Native.Nat.{ℕ, zero, suc, ◌+◌, ◌-◌, ◌/◌, ◌%◌}
use Prim.Native.Char.{Char, code}
use Prim.Native.String
use Prim.Native.String.{String}
use mathlib.Core.Bool.{Bool, true, false, ◌&&◌, ◌||◌}
use mathlib.Core.List.{List, [], ◌∷◌}
use mathlib.Core.Path.{◌≡◌, refl}
use atomic_plugins.Prelude.Tests.{ltb, ◌==◌, if◌then◌else◌}

-- The one or two code units of a character.
unfoldable pub units_of : ℕ → List ℕ → List ℕ
units_of c rest =
    if ltb c 0x10000
    then c ∷ rest
    else (0xD800 + (c - 0x10000) / 1024) ∷ (0xDC00 + (c - 0x10000) % 1024) ∷ rest

unfoldable pub utf16 : String → List ℕ
unfolding units_of
utf16 String.[] = []
utf16 (String.◌∷◌ c s) = units_of (code c) (utf16 s)

unfoldable pub units_lt : List ℕ → List ℕ → Bool
units_lt [] [] = false
units_lt [] (d ∷ ds) = true
units_lt (c ∷ cs) [] = false
units_lt (c ∷ cs) (d ∷ ds) = let rest = units_lt cs ds in ltb c d || (c == d && rest)

-- `a < b` on strings
unfoldable pub text_lt : String → String → Bool
unfolding utf16 units_lt
text_lt a b = units_lt (utf16 a) (utf16 b)

infixl 65 ◌+++◌
abbrev pub ◌+++◌ : String → String → String
a +++ b = String.◌++◌ a b

abbrev digit : ℕ → String
digit n =
    if n == 0
    then "0"
    else if n == 1
    then "1"
    else if n == 2
    then "2"
    else if n == 3
    then "3"
    else if n == 4
    then "4"
    else if n == 5
    then "5"
    else if n == 6
    then "6"
    else if n == 7
    then "7"
    else if n == 8
    then "8"
    else "9"

decimal_from : ℕ → ℕ → String → String
decimal_from zero n tail = tail
decimal_from (suc fuel) n tail =
    let text = digit (n % 10) +++ tail in
    let more = decimal_from fuel (n / 10) text in if n / 10 == 0 then text else more

-- `String(n)` of a whole number
unfoldable pub decimal : ℕ → String
unfolding decimal_from
decimal n = decimal_from (suc n) n ""

abbrev pub hex_digit : ℕ → String
hex_digit n =
    if n == 10
    then "a"
    else if n == 11
    then "b"
    else if n == 12
    then "c"
    else if n == 13
    then "d"
    else if n == 14
    then "e"
    else if n == 15
    then "f"
    else digit n

-- One character in a JSON text.
escape : Char → String
escape c =
    if code c == 34
    then "\\\""
    else if code c == 92
    then "\\\\"
    else if code c == 8
    then "\\b"
    else if code c == 9
    then "\\t"
    else if code c == 10
    then "\\n"
    else if code c == 12
    then "\\f"
    else if code c == 13
    then "\\r"
    else if ltb (code c) 32
    then "\\u00" +++ hex_digit (code c / 16) +++ hex_digit (code c % 16)
    else String.◌∷◌ c ""

escape_all : String → String
escape_all String.[] = ""
escape_all (String.◌∷◌ c s) = escape c +++ escape_all s

-- `JSON.stringify` of a string
unfoldable pub quote : String → String
unfolding escape escape_all
quote s = "\"" +++ escape_all s +++ "\""

unfoldable pub commas : List String → String
commas [] = ""
commas (s ∷ []) = s
commas (s ∷ t ∷ ss) = s +++ "," +++ commas (t ∷ ss)

-- `JSON.stringify` of an array, from the texts of its entries
unfoldable pub array : List String → String
unfolding commas
array ss = "[" +++ commas ss +++ "]"

quoted : array (quote "a\"b" ∷ decimal 120 ∷ []) ≡ "[\"a\\\"b\",120]"
unfolding array quote decimal
quoted = refl

ordered : text_lt "2026-02-28" "2026-03-01" ≡ true
unfolding text_lt
ordered = refl
