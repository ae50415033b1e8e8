-- ===== src/Willow/Text/Tests.antt =====
-- UTF-8 of integrations/willow-drop at a concrete text.
use atomic_plugins.Prelude.{◌≡◌, refl, some, [], ◌∷◌}
use atomic_plugins.Willow.Text.{
  lead, continued, refused, accepted, utf8_sequence, utf8_next, utf8_from, utf8_text,
}

emoji : utf8_text (65 ∷ 0xF0 ∷ 0x9F ∷ 0x98 ∷ 0x80 ∷ []) ≡ some (65 ∷ 0x1F600 ∷ [])
unfolding utf8_text utf8_from utf8_next utf8_sequence accepted refused continued lead
emoji = refl
