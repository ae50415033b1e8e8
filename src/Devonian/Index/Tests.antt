-- ===== src/Devonian/Index/Tests.antt =====
-- Two issues on two trackers, and a third tracker that the index has not met.
use atomic_plugins.Prelude.{String, eq_iff, ◌≡◌, ◌≢◌, refl, inr, some, [], ◌∷◌}
use atomic_plugins.Prelude.Grouping.{find, put}
use atomic_plugins.Devonian.Index.{
  text, key_of, IdentifierMap, Tables, returned, thrown, index_at, index_all, write,
  lookup_index_from, first_foreign, store_identities_from, store_equivalences, store_new,
  ensure_indexed, convert_id,
}
use atomic_plugins.Devonian.Index.Sound.{IsSound, content, store_equivalences-IsSound}
use atomic_plugins.Devonian.Index.Stored.{convert_id-store_identities_from}
use atomic_plugins.Devonian.Index.Throws.{
  store_identities_from-thrown, store_identities_from-returned,
}

abbrev nothing : Tables
nothing = record { ids = []; index = [] }

abbrev one : Tables
one = record {
  ids = (("github", text "12") ∷ ("jira", text "A-1") ∷ []) ∷ [];
  index = ("github", ("12", 0) ∷ []) ∷ ("jira", ("A-1", 0) ∷ []) ∷ [];
}

nothing-IsSound : IsSound nothing
unfolding index_at find
nothing-IsSound p k j e = cc

stored_one :
    store_identities_from nothing "jira" (text "A-1") (("github", text "12") ∷ []) ≡ returned one
unfolding store_identities_from lookup_index_from first_foreign index_at find put store_new
    ensure_indexed index_all write key_of
stored_one = refl

convert_id-store_identities_from_example :
    (convert_id one "jira" "A-1" "github" ≡ some (text "12"))
    × (convert_id one "github" "12" "jira" ≡ some (text "A-1"))
unfolding find key_of
convert_id-store_identities_from_example =
    convert_id-store_identities_from nothing one "jira" "github" (text "A-1") (text "12")
      (("github", text "12") ∷ []) nothing-IsSound (tt, tt) refl stored_one refl

store_identities_from-thrown_example :
    (u : Tables) × (store_identities_from one "jira" (text "A-1") (("gitlab", text "7") ∷ [])
      ≡ thrown u)
unfolding lookup_index_from index_at find key_of
store_identities_from-thrown_example =
    store_identities_from-thrown one "jira" "gitlab" (text "A-1") (text "7")
      (("gitlab", text "7") ∷ []) 0 refl refl refl

store_identities_from-returned_example :
    (u : Tables) × (store_identities_from one "jira" (text "B-2") (("gitlab", text "7") ∷ [])
      ≡ returned u)
unfolding lookup_index_from first_foreign index_at find key_of
store_identities_from-returned_example =
    store_identities_from-returned one "jira" (text "B-2") (("gitlab", text "7") ∷ []) (inr refl)

abbrev issue : IdentifierMap
issue = ("jira", text "A-1") ∷ ("github", text "12") ∷ []

store_equivalences-IsSound_example : IsSound (content (store_equivalences (issue ∷ []) nothing))
store_equivalences-IsSound_example = store_equivalences-IsSound (issue ∷ []) nothing nothing-IsSound

issue_names :
    ◌≢◌ {A = String} "jira" "github"
    × ◌≢◌ {A = String} "gitlab" "jira"
    × ◌≢◌ {A = String} "gitlab" "github"
issue_names = (
  (λ e. let equal = (eq_iff "jira" "github").1 e in cc),
  (λ e. let equal = (eq_iff "gitlab" "jira").1 e in cc),
  (λ e. let equal = (eq_iff "gitlab" "github").1 e in cc),
)
