-- ===== src/Willow/Upload/Tests.antt =====
-- Readings of integrations/willow-drop/upload.ts at concrete texts.
use atomic_plugins.Prelude.{
  ◌≡◌, refl, none, some, [], ◌∷◌, length, if◌then◌else◌, All, get_or, ◌==◌,
}
use atomic_plugins.Willow.Reader.{Bytes, Result, ok, err, ends_in_entry}
use atomic_plugins.Willow.Drop.{every_at, equal}
use atomic_plugins.Willow.Text.{
  lead, continued, refused, accepted, utf8_sequence, utf8_next, utf8_from, utf8_text, point_bytes,
  utf8_bytes, alphabet, sign, base64, index_of,
}
use atomic_plugins.Willow.Upload.{
  cp1252_high, from_cp1252, cp1252_bytes, is_space, is_sign, signs, is_padding, decode_signs,
  base64_bytes, utf_8, windows_1252, Reading, returned, thrown, by_parse, ambiguous,
  cp1252_candidate, base64_candidate, candidates, found, error_of, distinct, likely,
  conclude_upload, read_upload,
}
use atomic_plugins.Willow.Upload.Laws.{IsParsed, Settled, read_upload-Settled}

-- Takes bytes that start with 64.
abbrev parse : Bytes → Result Bytes
parse bytes =
    if get_or bytes 0 0 == 64
    then ok bytes
    else err (record { problem = ends_in_entry; entry = none })

cp1252_text : cp1252_bytes (64 ∷ 0x20AC ∷ 0xE9 ∷ []) ≡ some (64 ∷ 0x80 ∷ 0xE9 ∷ [])
unfolding cp1252_bytes from_cp1252 index_of cp1252_high
cp1252_text = refl

base64_text : base64_bytes (81 ∷ 71 ∷ 32 ∷ 69 ∷ 61 ∷ []) ≡ some (64 ∷ 97 ∷ [])
unfolding base64_bytes is_space signs is_sign is_padding decode_signs index_of alphabet
base64_text = refl

base64_written : base64 (64 ∷ 97 ∷ []) ≡ 81 ∷ 71 ∷ 69 ∷ 61 ∷ []
unfolding base64 sign alphabet
base64_written = refl

utf8_written :
    utf8_bytes (64 ∷ 0xE9 ∷ 0x1F600 ∷ []) ≡ 64 ∷ 0xC3 ∷ 0xA9 ∷ 0xF0 ∷ 0x9F ∷ 0x98 ∷ 0x80 ∷ []
unfolding utf8_bytes point_bytes
utf8_written = refl

utf8_surrogate : utf8_text (0xED ∷ 0xA0 ∷ 0x80 ∷ []) ≡ none
unfolding utf8_text utf8_from utf8_next utf8_sequence accepted refused continued lead
utf8_surrogate = refl

utf8_read : utf8_text (64 ∷ 0xC3 ∷ 0xA9 ∷ []) ≡ some (64 ∷ 0xE9 ∷ [])
unfolding utf8_text utf8_from utf8_next utf8_sequence accepted refused continued lead
utf8_read = refl

abbrev file : Bytes
file = 64 ∷ 0xC3 ∷ 0xA9 ∷ []

abbrev reading : Reading Bytes
reading = record { encoding = utf_8; bytes = file; result = file }

-- The windows-1252 reading has the bytes 64 and 233, which are not UTF-8.
two_readings : read_upload parse (64 ∷ 0xE9 ∷ []) ≡ thrown (ambiguous (utf_8 ∷ windows_1252 ∷ []))
unfolding read_upload conclude_upload likely distinct error_of found candidates base64_candidate
    cp1252_candidate equal every_at utf8_text utf8_from utf8_next utf8_sequence accepted refused
    continued lead utf8_bytes point_bytes cp1252_bytes from_cp1252 index_of cp1252_high base64_bytes
    is_space signs is_sign is_padding decode_signs alphabet
two_readings = refl

no_reading :
    read_upload parse (65 ∷ 65 ∷ [])
    ≡ thrown (by_parse (some (record { problem = ends_in_entry; entry = none })))
unfolding read_upload conclude_upload likely distinct error_of found candidates base64_candidate
    cp1252_candidate equal every_at utf8_text utf8_from utf8_next utf8_sequence accepted refused
    continued lead utf8_bytes point_bytes cp1252_bytes from_cp1252 index_of cp1252_high base64_bytes
    is_space signs is_sign is_padding decode_signs alphabet
no_reading = refl

-- Takes the three bytes of `file` only.
abbrev parse_file : Bytes → Result Bytes
parse_file bytes =
    if length bytes == 3 then ok bytes else err (record { problem = ends_in_entry; entry = none })

one_reading : read_upload parse_file (64 ∷ 0xE9 ∷ []) ≡ returned reading
unfolding read_upload conclude_upload likely distinct error_of found candidates base64_candidate
    cp1252_candidate equal every_at utf8_text utf8_from utf8_next utf8_sequence accepted refused
    continued lead utf8_bytes point_bytes cp1252_bytes from_cp1252 index_of cp1252_high base64_bytes
    is_space signs is_sign is_padding decode_signs alphabet
one_reading = refl

read_upload-Settled_example :
    IsParsed parse_file reading × All (Settled parse_file file) (candidates (64 ∷ 0xE9 ∷ []))
read_upload-Settled_example = read_upload-Settled parse_file (64 ∷ 0xE9 ∷ []) reading one_reading
