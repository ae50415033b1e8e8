-- ===== src/Devonian/Index/Sound.antt =====
-- The places in the index of devonian/src/DevonianIndex.ts and the things that are stored.
use atomic_plugins.Prelude.{
  ℕ, ◌+◌, ◌<◌, ◌≡◌, sym, ap, ◌∙◌, inl, inr, String, none, some, List, [], ◌∷◌, ◌++◌, length, get_or,
  set, Option-cases, arith, length-set, length-append,
}
use atomic_plugins.Prelude.Grouping.{find}
use atomic_plugins.Devonian.Index.{
  LocalId, key_of, IdentifierMap, PlatformIndex, Tables, Outcome, returned, thrown, index_at, write,
  ensure_indexed, assign, first_foreign, lookup_index_from, store_foreign, finish, store_known,
  store_new, store_identities_from, without, store_filtered, store_thing, store_equivalences,
  and_then,
}
use atomic_plugins.Devonian.Index.Writes.{Below, write-Below, index_all-Below}

-- What is stored, also where an error is thrown.
abbrev pub content : {A : Type 0} → Outcome A → A
content (returned a) = a
content (thrown a) = a

-- Every place in the index is one of `ids`.
abbrev pub IsSound : Tables → Type 0
IsSound t = Below (length t.ids) t.index

first_foreign-Below :
    (n : ℕ) (index : PlatformIndex) (foreign : IdentifierMap) (i : ℕ)
    → Below n index
    → first_foreign index foreign ≡ some i
    → i < n
unfolding first_foreign
first_foreign-Below n index [] i v h = cc
first_foreign-Below n index ((p, id) ∷ foreign) i v h =
    elim (Option-cases (index_at index p (key_of id))) [
      | inl e ↦
          first_foreign-Below n index foreign i v
            (ap (λ o. elim o [ some j ↦ some j | none ↦ first_foreign index foreign ]) (sym e) ∙ h)
      | inr (j, e) ↦ v p (key_of id) i (
          e ∙ ap (λ o. elim o [ some j ↦ some j | none ↦ first_foreign index foreign ]) (sym e) ∙ h)
    ]

pub lookup_index_from-Below :
    (n : ℕ) (index : PlatformIndex) (p : String) (local : LocalId) (foreign : IdentifierMap) (i : ℕ)
    → Below n index
    → lookup_index_from index p local foreign ≡ some i
    → i < n
unfolding lookup_index_from
lookup_index_from-Below n index p local foreign i v h =
    elim (Option-cases (index_at index p (key_of local))) [
      | inl e ↦
          first_foreign-Below n index foreign i v
            (ap (λ o. elim o [ some j ↦ some j | none ↦ first_foreign index foreign ]) (sym e) ∙ h)
      | inr (j, e) ↦ v p (key_of local) i (
          e ∙ ap (λ o. elim o [ some j ↦ some j | none ↦ first_foreign index foreign ]) (sym e) ∙ h)
    ]

store_foreign-Below :
    (n i : ℕ) (foreign entry : IdentifierMap) (index : PlatformIndex)
    → i < n
    → Below n index
    → Below n (content (store_foreign i foreign entry index)).1
unfolding store_foreign
store_foreign-Below n i [] entry index h v = v
store_foreign-Below n i ((p, id) ∷ foreign) entry index h v = elim (Option-cases (find p index)) [
  | inl e ↦ rw (e, store_foreign) v
  | inr (table, e) ↦
      rw (e, store_foreign)
        (store_foreign-Below n i foreign (assign p id entry) (write i p (key_of id) index) h
          (write-Below n i p (key_of id) index h v))
]

finish-IsSound :
    (t : Tables) (i : ℕ) (o : Outcome (IdentifierMap × PlatformIndex))
    → i < length t.ids
    → Below (length t.ids) (content o).1
    → IsSound (content (finish t i o))
unfolding ensure_indexed
finish-IsSound t i (thrown e) h v = rw (length-set t.ids i e.0) v
finish-IsSound t i (returned e) h v =
    rw (length-set t.ids i e.0)
      (index_all-Below (length t.ids) i (get_or (set t.ids i e.0) i []) e.1 h v)

store_new-IsSound :
    (t : Tables) (platform : String) (local : LocalId) (foreign : IdentifierMap)
    → IsSound t
    → IsSound (store_new t platform local foreign)
unfolding store_new ensure_indexed
store_new-IsSound t platform local foreign v =
    let entry = assign platform local foreign in
    let longer : length (t.ids ++ entry ∷ []) ≡ length t.ids + 1 =
      length-append t.ids (entry ∷ []) in
    index_all-Below (length (t.ids ++ entry ∷ [])) (length t.ids)
      (get_or (t.ids ++ entry ∷ []) (length t.ids) []) t.index (omega (arith, longer))
      (λ p k j e. let small = v p k j e in omega (arith, longer, small))

-- Whatever `storeIdentitiesFrom` is given, and also where it throws, each place in the index is
-- one of `ids` afterwards if it was before.
pub store_identities_from-IsSound :
    (t : Tables) (platform : String) (local : LocalId) (foreign : IdentifierMap)
    → IsSound t
    → IsSound (content (store_identities_from t platform local foreign))
unfolding store_identities_from store_known store_new ensure_indexed
store_identities_from-IsSound t platform local foreign v =
    elim (Option-cases (lookup_index_from t.index platform local foreign)) [
      | inr (i, e) ↦
          let h = lookup_index_from-Below (length t.ids) t.index platform local foreign i v e in
          rw (e, store_identities_from)
            (finish-IsSound t i
              (store_foreign i foreign (assign platform local (get_or t.ids i [])) t.index) h
              (store_foreign-Below (length t.ids) i foreign
                (assign platform local (get_or t.ids i [])) t.index h v))
      | inl e ↦ rw (e, store_identities_from) (store_new-IsSound t platform local foreign v)
    ]

and_then-IsSound :
    (o : Outcome Tables) (f : Tables → Outcome Tables)
    → IsSound (content o)
    → ((t : Tables) → IsSound t → IsSound (content (f t)))
    → IsSound (content (and_then o f))
and_then-IsSound (returned t) f v h = h t v
and_then-IsSound (thrown t) f v h = v

store_filtered-IsSound :
    (t : Tables) (p : String) (id : LocalId) (filtered : IdentifierMap)
    → IsSound t
    → IsSound (content (store_filtered t p id filtered))
unfolding store_filtered
store_filtered-IsSound t p id [] v = v
store_filtered-IsSound t p id (e ∷ filtered) v =
    store_identities_from-IsSound t p id (e ∷ filtered) v

store_thing-IsSound :
    (thing entry : IdentifierMap) (t : Tables)
    → IsSound t
    → IsSound (content (store_thing thing entry t))
unfolding store_thing
store_thing-IsSound thing [] t v = v
store_thing-IsSound thing ((p, id) ∷ entry) t v =
    and_then-IsSound (store_filtered t p id (without p thing)) (store_thing thing entry)
      (store_filtered-IsSound t p id (without p thing) v) (store_thing-IsSound thing entry)

-- Storing any equivalences, also where an error ends it, leaves each place in the index one of
-- `ids` if it was before.
pub store_equivalences-IsSound :
    (things : List IdentifierMap) (t : Tables)
    → IsSound t
    → IsSound (content (store_equivalences things t))
unfolding store_equivalences
store_equivalences-IsSound [] t v = v
store_equivalences-IsSound (thing ∷ things) t v =
    and_then-IsSound (store_thing thing thing t) (store_equivalences things)
      (store_thing-IsSound thing thing t v) (store_equivalences-IsSound things)
