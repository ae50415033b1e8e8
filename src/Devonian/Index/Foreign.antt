-- ===== src/Devonian/Index/Foreign.antt =====
-- `convertForeignIds` of devonian/src/DevonianIndex.ts.
use atomic_plugins.Prelude.{
  ◌≡◌, ◌≢◌, refl, sym, ap, ◌∙◌, inl, inr, String, str_eq, eq_iff, none, some, [], ◌∷◌, Bool-cases,
  if◌then◌else◌,
}
use atomic_plugins.Prelude.Grouping.{find, find-put_self, find-put_ne}
use atomic_plugins.Devonian.Index.{LocalId, IdentifierMap, without, convert_foreign_ids}

find-without_self : (p : String) (entry : IdentifierMap) → find p (without p entry) ≡ none
unfolding find without
find-without_self p [] = refl
find-without_self p ((q, id) ∷ entry) = elim (Bool-cases (str_eq q p)) [
  | inl e ↦ rw e (find-without_self p entry)
  | inr e ↦ rw (e, find, e) (find-without_self p entry)
]

find-without_ne :
    (q p : String) (entry : IdentifierMap) → q ≢ p → find q (without p entry) ≡ find q entry
unfolding find without
find-without_ne q p [] n = refl
find-without_ne q p ((r, id) ∷ entry) n = elim (Bool-cases (str_eq r p)) [
  | inr e ↦ rw (e, find) (ap (λ o. if str_eq r q then some id else o) (find-without_ne q p entry n))
  | inl e ↦ elim (Bool-cases (str_eq r q)) [
    | inl f ↦ absurd (n (sym ((eq_iff r q).0 f) ∙ (eq_iff r p).0 e))
    | inr f ↦ rw (e, f) (find-without_ne q p entry n)
  ]
]

-- The foreign identifiers for the other platform have the local one, none of the other platform's
-- own, and those of every third platform as they were.
pub convert_foreign_ids_lem :
    (from to q : String) (id : LocalId) (foreign : IdentifierMap)
    → from ≢ to
    → q ≢ from
    → q ≢ to
    → (find from (convert_foreign_ids from id foreign to) ≡ some id)
      × (find to (convert_foreign_ids from id foreign to) ≡ none)
      × (find q (convert_foreign_ids from id foreign to) ≡ find q foreign)
unfolding convert_foreign_ids
convert_foreign_ids_lem from to q id foreign n a b = (
  find-put_self from (λ _. id) (without to foreign),
  find-put_ne to from (λ _. id) (without to foreign) n ∙ find-without_self to foreign,
  find-put_ne q from (λ _. id) (without to foreign) (λ e. a (sym e))
      ∙ find-without_ne q to foreign b,
)
