-- ===== src/Willow/Rows/Tests.antt =====
-- Rows of integrations/willow-drop/mapping.ts at concrete entries.
use atomic_plugins.Prelude.{◌≡◌, ◌⊎◌, refl, true, Option, none, some, [], ◌∷◌, arith}
use atomic_plugins.Willow.Reader.{Bytes}
use atomic_plugins.Willow.Drop.{DropEntry, communal_capability}
use atomic_plugins.Willow.Text.{utf8_bytes}
use atomic_plugins.Willow.Upload.{base64_bytes}
use atomic_plugins.Willow.Mapping.{hex, hex_byte}
use atomic_plugins.Willow.Rows.{
  utc_microseconds, offset_in, leap_seconds, source_id, comma_joined, stored, row_values,
}
use atomic_plugins.Willow.Rows.Laws.{row_values-payload}

abbrev entry : Option Bytes → DropEntry
entry payload = record {
  namespace = 2 ∷ [];
  subspace = 171 ∷ [];
  path = (1 ∷ []) ∷ [] ∷ [];
  timestamp = 5;
  payload_length = 2;
  payload_digest = 9 ∷ [];
  capability = communal_capability;
  communal = true;
  payload = payload;
}

-- J2000 is 11:58:55.816 UTC on 2000-01-01.
j2000_utc : utc_microseconds 0 ≡ some 946_727_935_816_000
unfolding utc_microseconds offset_in leap_seconds
j2000_utc = refl

year_2017_utc : utc_microseconds 536_500_869_184_000 ≡ some 1_483_228_800_000_000
unfolding utc_microseconds offset_in leap_seconds
year_2017_utc = refl

after_2099 : utc_microseconds 3_200_000_000_000_000 ≡ none
unfolding utc_microseconds offset_in leap_seconds
after_2099 = refl

-- ["willow25","02","ab",["01",""]]
identity :
    source_id (entry none)
    ≡ 91 ∷ 34 ∷ 119 ∷ 105 ∷ 108 ∷ 108 ∷ 111 ∷ 119 ∷ 50 ∷ 53 ∷ 34 ∷ 44 ∷ 34 ∷ 48 ∷ 50 ∷ 34 ∷ 44 ∷ 34
      ∷ 97 ∷ 98 ∷ 34 ∷ 44 ∷ 91 ∷ 34 ∷ 48 ∷ 49 ∷ 34 ∷ 44 ∷ 34 ∷ 34 ∷ 93 ∷ 93 ∷ []
unfolding source_id comma_joined hex hex_byte
identity = refl

row_values-payload_example :
    ((row_values (λ ms. 90 ∷ []) (entry (some (104 ∷ 105 ∷ [])))).willow_payload_status ≡ stored)
    × (((utf8_bytes (row_values (λ ms. 90 ∷ []) (entry (some (104 ∷ 105 ∷ [])))).willow_payload
            ≡ 104 ∷ 105 ∷ [])
          × ((row_values (λ ms. 90 ∷ []) (entry (some (104 ∷ 105 ∷ [])))).willow_payload_base64
              ≡ []))
        ⊎ ((base64_bytes
                (row_values (λ ms. 90 ∷ []) (entry (some (104 ∷ 105 ∷ [])))).willow_payload_base64
              ≡ some (104 ∷ 105 ∷ []))
            × ((row_values (λ ms. 90 ∷ []) (entry (some (104 ∷ 105 ∷ [])))).willow_payload ≡ [])))
row_values-payload_example =
    row_values-payload (λ ms. 90 ∷ []) (entry (some (104 ∷ 105 ∷ []))) (104 ∷ 105 ∷ []) refl
      (omega arith, (omega arith, tt)) (omega arith)
