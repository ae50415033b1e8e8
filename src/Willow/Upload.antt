-- ===== src/Willow/Upload.antt =====
-- integrations/willow-drop/upload.ts: the bytes of a drop from the text that the host makes of the file.
-- A text is a list of code points; `\s` is the white space of regular expressions.
pub mod Signs
pub mod Laws
pub mod Base64
mod Tests
use atomic_plugins.Prelude.{
  ℕ, zero, suc, ◌+◌, ◌-◌, ◌*◌, ◌/◌, ◌%◌, ◌^◌, Bool, true, false, not, ◌&&◌, ◌||◌, Option, none,
  some, List, [], ◌∷◌, ◌++◌, length, keep, map, ltb, leb, ◌==◌, if◌then◌else◌,
}
use atomic_plugins.Prelude.Domination.{any_of}
use atomic_plugins.Willow.Reader.{Bytes, Result, ok, err, DropError}
use atomic_plugins.Willow.Drop.{equal}
use atomic_plugins.Willow.Text.{Text, utf8_text, utf8_bytes, alphabet, index_of}

-- `CP1252_HIGH`
unfoldable pub cp1252_high : Text
cp1252_high =
    0x20AC ∷ 0x81 ∷ 0x201A ∷ 0x192 ∷ 0x201E ∷ 0x2026 ∷ 0x2020 ∷ 0x2021 ∷ 0x2C6 ∷ 0x2030 ∷ 0x160
    ∷ 0x2039 ∷ 0x152 ∷ 0x8D ∷ 0x17D ∷ 0x8F ∷ 0x90 ∷ 0x2018 ∷ 0x2019 ∷ 0x201C ∷ 0x201D ∷ 0x2022
    ∷ 0x2013 ∷ 0x2014 ∷ 0x2DC ∷ 0x2122 ∷ 0x161 ∷ 0x203A ∷ 0x153 ∷ 0x9D ∷ 0x17E ∷ 0x178 ∷ []

-- `FROM_CP1252.get(code)`
unfoldable pub from_cp1252 : ℕ → Option ℕ
unfolding index_of cp1252_high
from_cp1252 code = elim (index_of code cp1252_high) [ none ↦ none | some i ↦ some (0x80 + i) ]

unfoldable pub cp1252_bytes : Text → Option Bytes
unfolding from_cp1252
cp1252_bytes [] = some []
cp1252_bytes (code ∷ text) =
    let rest = cp1252_bytes text in
    elim (if ltb code 0x80 || (leb 0xA0 code && leb code 0xFF)
      then some code
      else from_cp1252 code) [
        | none ↦ none
        | some b ↦ elim rest [ none ↦ none | some bytes ↦ some (b ∷ bytes) ]
      ]

unfoldable pub is_space : ℕ → Bool
is_space c =
    (leb 9 c && leb c 13)
    || (c == 32
        || (c == 0xA0
            || (c == 0x1680
                || ((leb 0x2000 c && leb c 0x200A)
                    || (c == 0x2028
                        || (c == 0x2029
                            || (c == 0x202F || (c == 0x205F || (c == 0x3000 || c == 0xFEFF)))))))))

-- `[A-Za-z0-9+/]`
unfoldable pub is_sign : ℕ → Bool
is_sign c =
    (leb 65 c && leb c 90)
    || ((leb 97 c && leb c 122) || ((leb 48 c && leb c 57) || (c == 43 || c == 47)))

-- What the signs of a text start with, and what follows them.
unfoldable pub signs : Text → Text × Text
unfolding is_sign
signs [] = ([], [])
signs (c ∷ text) =
    let rest = signs text in if is_sign c then (c ∷ rest.0, rest.1) else ([], c ∷ text)

-- `={0,2}` and the end
unfoldable pub is_padding : Text → Bool
is_padding [] = true
is_padding (a ∷ []) = a == 61
is_padding (a ∷ b ∷ []) = a == 61 && b == 61
is_padding (a ∷ b ∷ c ∷ text) = false

-- The loop of `base64Bytes`; `value` is the lower 32 bits of the variable, of which no more are read.
unfoldable pub decode_signs : ℕ → ℕ → Text → Bytes
unfolding index_of alphabet
decode_signs bits value [] = []
decode_signs bits value (c ∷ text) =
    let now = value * 64 % 2 ^ 32 + elim (index_of c alphabet) [ none ↦ 0 | some i ↦ i ] in
    elim (leb 8 (bits + 6)) [
      | true ↦ now / 2 ^ (bits + 6 - 8) % 256 ∷ decode_signs (bits + 6 - 8) now text
      | false ↦ decode_signs (bits + 6) now text
    ]

unfoldable pub base64_bytes : Text → Option Bytes
unfolding is_space signs is_padding decode_signs
base64_bytes text =
    let clean = keep (λ c. not (is_space c)) text in
    let parts = signs clean in
    if not (is_padding parts.1) || length clean % 4 == 1
    then none
    else some (decode_signs 0 0 parts.0)

pub data Encoding : Type 0 where
  utf_8 windows_1252 base_64 : Encoding

pub record Candidate : Type 0 where
  pub encoding : Encoding
  pub bytes : Bytes

pub record Reading (A : Type 0) : Type 0 where
  pub encoding : Encoding
  pub bytes : Bytes
  pub result : A

-- What is thrown: the error of a reading, if it has one, or that there are several.
pub data Thrown : Type 0 where
  by_parse : Option DropError → Thrown
  ambiguous : List Encoding → Thrown

pub data Outcome (A : Type 0) : Type 0 where
  returned : A → Outcome A
  thrown : Thrown → Outcome A

-- `windows-1252`, where the bytes are not UTF-8.
unfoldable pub cp1252_candidate : Option Bytes → List Candidate
cp1252_candidate none = []
cp1252_candidate (some bytes) = elim (utf8_text bytes) [
  | none ↦ record { encoding = windows_1252; bytes = bytes } ∷ []
  | some text ↦ []
]

unfoldable pub base64_candidate : Option Bytes → List Candidate
base64_candidate none = []
base64_candidate (some bytes) = record { encoding = base_64; bytes = bytes } ∷ []

unfoldable pub candidates : Text → List Candidate
unfolding cp1252_candidate base64_candidate utf8_bytes cp1252_bytes base64_bytes
candidates text =
    record { encoding = utf_8; bytes = utf8_bytes text }
    ∷ (cp1252_candidate (cp1252_bytes text) ++ base64_candidate (base64_bytes text))

abbrev same_encoding : Encoding → Encoding → Bool
same_encoding utf_8 utf_8 = true
same_encoding windows_1252 windows_1252 = true
same_encoding base_64 base_64 = true
same_encoding _ _ = false

module _ {A : Type 0} (parse : Bytes → Result A) where
  abbrev pub add_found : Candidate → Result A → List (Reading A) → List (Reading A)
  add_found c (ok x) rest = record { encoding = c.encoding; bytes = c.bytes; result = x } ∷ rest
  add_found c (err e) rest = rest

  unfoldable pub found : List Candidate → List (Reading A)
  found [] = []
  found (c ∷ cs) = add_found c (parse c.bytes) (found cs)

  -- `errors.get(encoding)`
  unfoldable pub error_of : Encoding → List Candidate → Option DropError
  error_of encoding [] = none
  error_of encoding (c ∷ cs) =
      let rest = error_of encoding cs in
      if same_encoding c.encoding encoding
      then elim (parse c.bytes) [ ok x ↦ rest | err e ↦ some e ]
      else rest

  -- `distinct`, with the readings before.
  unfoldable pub distinct : List (Reading A) → List (Reading A) → List (Reading A)
  distinct seen [] = []
  distinct seen (r ∷ rs) =
      let rest = distinct (seen ++ r ∷ []) rs in
      if any_of (λ other. equal other.bytes r.bytes) seen then rest else r ∷ rest

  -- The encoding whose error is thrown.
  unfoldable pub likely : Option Bytes → Option DropError → Encoding
  likely (some bytes) of_cp1252 = base_64
  likely none (some e) = windows_1252
  likely none none = utf_8

  unfoldable pub conclude_upload : Thrown → List (Reading A) → Outcome (Reading A)
  conclude_upload problem [] = thrown problem
  conclude_upload problem (r ∷ []) = returned r
  conclude_upload problem (r ∷ s ∷ rs) = thrown (ambiguous (map (λ x. x.encoding) (r ∷ s ∷ rs)))

  unfoldable pub read_upload : Text → Outcome (Reading A)
  unfolding candidates found error_of distinct likely conclude_upload
  read_upload text =
      let cs = candidates text in
      conclude_upload
        (by_parse (error_of (likely (base64_bytes text) (error_of windows_1252 cs)) cs))
        (distinct [] (found cs))
