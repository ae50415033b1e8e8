-- ===== src/Willow/Rows/Laws.antt =====
-- The payload in a row of integrations/willow-drop/mapping.ts.
use atomic_plugins.Prelude.{
  ℕ, ◌≤◌, ◌≡◌, ◌⊎◌, inl, inr, refl, ap, ◌∙◌, true, Option, none, some, [], length, leb,
  if◌then◌else◌, arith, All, Option-cases,
}
use atomic_plugins.Willow.Reader.{Bytes, IsByte}
use atomic_plugins.Willow.Drop.{DropEntry}
use atomic_plugins.Willow.Text.{Text, utf8_text, utf8_bytes, base64}
use atomic_plugins.Willow.Text.Utf8.{utf8_bytes-utf8_text}
use atomic_plugins.Willow.Upload.{base64_bytes}
use atomic_plugins.Willow.Upload.Base64.{base64_bytes-base64}
use atomic_plugins.Willow.Rows.{
  max_stored_payload, stored, or_empty, payload_status, payload_text, payload_base64, row_values,
}

small_status :
    (payload : Bytes) → length payload ≤ max_stored_payload → payload_status (some payload) ≡ stored
unfolding payload_status
small_status payload h =
    let small : leb (length payload) max_stored_payload ≡ true = ground arith in rw small refl

small_text :
    (payload : Bytes)
    → length payload ≤ max_stored_payload
    → payload_text (some payload) ≡ utf8_text payload
unfolding payload_text
small_text payload h =
    let small : leb (length payload) max_stored_payload ≡ true = ground arith in rw small refl

-- The column of base64, for the text that the payload has or has not.
base64_for : Bytes → Option Text → Text
base64_for payload none = base64 payload
base64_for payload (some text) = []

small_base64 :
    (payload : Bytes)
    → length payload ≤ max_stored_payload
    → payload_base64 (some payload) ≡ base64_for payload (utf8_text payload)
unfolding payload_base64 base64_for
small_base64 payload h =
    let small : leb (length payload) max_stored_payload ≡ true = ground arith in
    ap (λ b. if b then base64_for payload (payload_text (some payload)) else []) small
    ∙ ap (base64_for payload) (small_text payload h)

-- A payload of at most 65536 bytes is marked as stored and can be had back from the row: either from
-- its text by UTF-8, with no base64, or from base64, with no text.
pub row_values-payload :
    (iso : ℕ → Text) (e : DropEntry) (payload : Bytes)
    → e.payload ≡ some payload
    → All IsByte payload
    → length payload ≤ max_stored_payload
    → ((row_values iso e).willow_payload_status ≡ stored)
      × (((utf8_bytes (row_values iso e).willow_payload ≡ payload)
            × ((row_values iso e).willow_payload_base64 ≡ []))
          ⊎ ((base64_bytes (row_values iso e).willow_payload_base64 ≡ some payload)
              × ((row_values iso e).willow_payload ≡ [])))
unfolding row_values base64_for
row_values-payload iso e payload p each small =
    let text = ap payload_text p ∙ small_text payload small in
    let coded = ap payload_base64 p ∙ small_base64 payload small in
    (
      ap payload_status p ∙ small_status payload small,
      elim (Option-cases (utf8_text payload)) [
        | inr (t, held) ↦ inl (
          ap (λ o. utf8_bytes (or_empty o)) (text ∙ held)
              ∙ utf8_bytes-utf8_text payload t each held,
          coded ∙ ap (base64_for payload) held,
        )
        | inl held ↦ inr (
          ap base64_bytes (coded ∙ ap (base64_for payload) held) ∙ base64_bytes-base64 payload each,
          ap or_empty (text ∙ held),
        )
      ],
    )
