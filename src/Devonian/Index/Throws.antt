-- ===== src/Devonian/Index/Throws.antt =====
-- When `storeIdentitiesFrom` of devonian/src/DevonianIndex.ts throws.
use atomic_plugins.Prelude.{
  ℕ, ◌≡◌, ◌≢◌, refl, sym, ap, ◌∙◌, ◌⊎◌, inl, inr, String, str_eq, eq_iff, none, some, [], ◌∷◌,
  get_or, All, All_weaken, Bool-cases, Option-cases, if◌then◌else◌, arith,
}
use atomic_plugins.Prelude.Grouping.{find, put, find-put_self, find-put_ne}
use atomic_plugins.Devonian.Index.{
  LocalId, key_of, IdentifierMap, PlatformIndex, Tables, returned, thrown, write, or_empty, assign,
  lookup_index_from, store_foreign, with_entry, finish, ensure_indexed, store_known, store_new,
  store_identities_from,
}
use atomic_plugins.Devonian.Index.Stored.{store_foreign-unknown, store_foreign-known}

unknown-write :
    (i : ℕ) (p k q : String) (index : PlatformIndex)
    → p ≢ q
    → find q (write i p k index) ≡ find q index
unfolding write
unknown-write i p k q index n = find-put_ne q p (λ table. put k (λ _. i) (or_empty table)) index n

throws :
    (i : ℕ) (q : String) (id : LocalId) (foreign entry : IdentifierMap) (index : PlatformIndex)
    → find q foreign ≡ some id
    → find q index ≡ none
    → (x : IdentifierMap × PlatformIndex) × (store_foreign i foreign entry index ≡ thrown x)
unfolding find
throws i q id [] entry index f u = cc
throws i q id ((p, jd) ∷ foreign) entry index f u = elim (Option-cases (find p index)) [
  | inl e ↦ ((assign p jd entry, index), store_foreign-unknown i p jd foreign entry index e)
  | inr (table, e) ↦ elim (Bool-cases (str_eq p q)) [
    | inl same ↦ let wrong = sym e ∙ ap (λ r. find r index) ((eq_iff p q).0 same) ∙ u in cc
    | inr other ↦
        let (x, t) =
          throws i q id foreign (assign p jd entry) (write i p (key_of jd) index)
            (ap (λ b. if b then some jd else find q foreign) (sym other) ∙ f)
            (unknown-write i p (key_of jd) q index (λ n. ground (arith, eq_iff p q)) ∙ u) in
        (x, store_foreign-known i p jd foreign entry index table e ∙ t)
  ]
]

-- Where the identifiers lead to a known thing and one of the foreign platforms has no table in the
-- index yet, `storeIdentitiesFrom` throws.
pub store_identities_from-thrown :
    (t : Tables) (p q : String) (local id : LocalId) (foreign : IdentifierMap) (i : ℕ)
    → lookup_index_from t.index p local foreign ≡ some i
    → find q foreign ≡ some id
    → find q t.index ≡ none
    → (u : Tables) × (store_identities_from t p local foreign ≡ thrown u)
unfolding store_identities_from store_known
store_identities_from-thrown t p q local id foreign i e f u =
    let (x, h) = throws i q id foreign (assign p local (get_or t.ids i [])) t.index f u in
    (with_entry t i x, rw (e, store_identities_from) (ap (finish t i) h))

IsKnown : PlatformIndex → String × LocalId → Type 0
IsKnown index e = find e.0 index ≢ none

write-IsKnown :
    (i : ℕ) (p k : String) (index : PlatformIndex) (e : String × LocalId)
    → IsKnown index e
    → IsKnown (write i p k index) e
unfolding IsKnown write
write-IsKnown i p k index e h n = elim (Bool-cases (str_eq p e.0)) [
  | inr other ↦ h (sym (unknown-write i p k e.0 index (λ q. ground (arith, eq_iff p e.0))) ∙ n)
  | inl same ↦
      let wrong =
        sym (find-put_self p (λ table. put k (λ _. i) (or_empty table)) index)
        ∙ ap (λ r. find r (write i p k index)) ((eq_iff p e.0).0 same)
        ∙ n in
      cc
]

returns :
    (i : ℕ) (foreign entry : IdentifierMap) (index : PlatformIndex)
    → All (IsKnown index) foreign
    → (x : IdentifierMap × PlatformIndex) × (store_foreign i foreign entry index ≡ returned x)
unfolding store_foreign IsKnown
returns i [] entry index h = ((entry, index), refl)
returns i ((p, id) ∷ foreign) entry index (k, h) = elim (Option-cases (find p index)) [
  | inl e ↦ absurd (k e)
  | inr (table, e) ↦
      let (x, r) = returns i foreign (assign p id entry) (write i p (key_of id) index) (
        All_weaken (IsKnown index) (IsKnown (write i p (key_of id) index))
          (write-IsKnown i p (key_of id) index) foreign h) in
      (x, store_foreign-known i p id foreign entry index table e ∙ r)
]

-- Where each foreign platform has a table in the index, or the identifiers lead to no known thing,
-- `storeIdentitiesFrom` returns.
pub store_identities_from-returned :
    (t : Tables) (p : String) (local : LocalId) (foreign : IdentifierMap)
    → All (λ e. find e.0 t.index ≢ none) foreign
      ⊎ (lookup_index_from t.index p local foreign ≡ none)
    → (u : Tables) × (store_identities_from t p local foreign ≡ returned u)
unfolding store_identities_from store_known IsKnown
store_identities_from-returned t p local foreign h =
    elim (Option-cases (lookup_index_from t.index p local foreign)) [
      | inl e ↦ (store_new t p local foreign, rw (e, store_identities_from) refl)
      | inr (i, e) ↦ elim h [
        | inr n ↦ let wrong = sym e ∙ n in cc
        | inl all ↦
            let (x, r) = returns i foreign (assign p local (get_or t.ids i [])) t.index all in
            (ensure_indexed i (with_entry t i x), rw (e, store_identities_from) (ap (finish t i) r))
      ]
    ]
