-- ===== src/Devonian/Reflect/Links/Tests.antt =====
-- An issue and its copy, and a system whose name has a space.
use atomic_plugins.Prelude.{[], ◌∷◌, ◌≡◌, refl}
use atomic_plugins.Prelude.JsText.{text_lt}
use atomic_plugins.Prelude.Grouping.{put}
use atomic_plugins.Devonian.Reflect.Links.{
  Link, key, link, entry_of, pair_id, entries_after, entries, of_kind, links,
}
use atomic_plugins.Devonian.Reflect.Links.Laws.{IsPlainEntry}

abbrev original : Link
original = record { system = "pd"; id = "1" }

abbrev copy : Link
copy = record { system = "ac/f"; id = "3" }

-- One pair, and it is listed once.
listed_once : links (link "issue" original copy []) "issue" ≡ record { a = original; b = copy } ∷ []
unfolding links of_kind entries entries_after entry_of pair_id link put key text_lt
listed_once = refl

plain : IsPlainEntry (record { kind = "issue"; a = original; b = copy })
plain = (
  (refl, (refl, (refl, (refl, (refl, tt))))),
  (refl, (refl, tt)),
  (refl, tt),
  (refl, (refl, (refl, (refl, tt)))),
  (refl, tt),
)

-- The system's name is cut at its space, and the rest of it is taken for the identifier.
cut_at_space :
    links (link "issue" (record { system = "my forum"; id = "12" }) copy []) "issue"
    ≡ record { a = record { system = "my"; id = "forum" }; b = copy }
      ∷ record { a = copy; b = record { system = "my forum"; id = "12" } }
      ∷ []
unfolding links of_kind entries entries_after entry_of pair_id link put key text_lt
cut_at_space = refl
