-- ===== src/Devonian/Index/Stored.antt =====
-- `storeIdentitiesFrom` and `convertId` of devonian/src/DevonianIndex.ts.
use atomic_plugins.Prelude.{
  ℕ, zero, suc, ◌<◌, ◌≡◌, ◌≢◌, refl, sym, ap, ◌∙◌, subst, inl, inr, String, str_eq, eq_iff, Option,
  none, some, List, [], ◌∷◌, ◌++◌, length, get_or, set, All, Bool-cases, Option-cases,
  if◌then◌else◌, arith,
}
use atomic_plugins.Prelude.Grouping.{find, find-put_self, find-put_ne, OnceEach}
use atomic_plugins.Devonian.Index.{
  LocalId, key_of, IdentifierMap, PlatformIndex, Tables, Outcome, returned, thrown, write,
  ensure_indexed, assign, lookup_index_from, store_foreign, with_entry, finish, store_known,
  store_new, store_identities_from, convert_id,
}
use atomic_plugins.Devonian.Index.Writes.{index_at-index_all}
use atomic_plugins.Devonian.Index.Sound.{IsSound, lookup_index_from-Below}

-- The identifiers of a thing, with the foreign ones written over them one by one.
assign_all : IdentifierMap → IdentifierMap → IdentifierMap
assign_all [] entry = entry
assign_all ((p, id) ∷ foreign) entry = assign_all foreign (assign p id entry)

find-assign_all_absent :
    (q : String) (foreign entry : IdentifierMap)
    → find q foreign ≡ none
    → find q (assign_all foreign entry) ≡ find q entry
unfolding assign_all find
find-assign_all_absent q [] entry h = refl
find-assign_all_absent q ((p, id) ∷ foreign) entry h = elim (Bool-cases (str_eq p q)) [
  | inl e ↦
      let clash = ap (λ b. if b then some id else find q foreign) (sym e) ∙ h in
      let wrong : some id ≡ none = clash in cc
  | inr e ↦
      find-assign_all_absent q foreign (assign p id entry)
        (ap (λ b. if b then some id else find q foreign) (sym e) ∙ h)
      ∙ find-put_ne q p (λ _. id) entry (λ n. ground (arith, eq_iff p q))
]

absent : (p : String) (foreign : IdentifierMap) → All (λ e. p ≢ e.0) foreign → find p foreign ≡ none
unfolding find
absent p [] h = refl
absent p ((q, id) ∷ foreign) (n, h) = elim (Bool-cases (str_eq q p)) [
  | inl e ↦ absurd (n (sym ((eq_iff q p).0 e)))
  | inr e ↦ ap (λ b. if b then some id else find p foreign) e ∙ absent p foreign h
]

find-assign_all :
    (q : String) (id : LocalId) (foreign entry : IdentifierMap)
    → OnceEach foreign
    → find q foreign ≡ some id
    → find q (assign_all foreign entry) ≡ some id
unfolding assign_all find
find-assign_all q id [] entry d h = cc
find-assign_all q id ((p, jd) ∷ foreign) entry (n, d) h = elim (Bool-cases (str_eq p q)) [
  | inr e ↦
      find-assign_all q id foreign (assign p jd entry) d
        (ap (λ b. if b then some jd else find q foreign) (sym e) ∙ h)
  | inl e ↦
      let same : some jd ≡ some id = ap (λ b. if b then some jd else find q foreign) (sym e) ∙ h in
      subst (λ r. find r (assign_all foreign (assign p jd entry)) ≡ some id) ((eq_iff p q).0 e)
        (find-assign_all_absent p foreign (assign p jd entry) (absent p foreign n)
          ∙ find-put_self p (λ _. jd) entry
          ∙ same)
]

pub store_foreign-unknown :
    (i : ℕ) (p : String) (id : LocalId) (foreign entry : IdentifierMap) (index : PlatformIndex)
    → find p index ≡ none
    → store_foreign i ((p, id) ∷ foreign) entry index ≡ thrown (assign p id entry, index)
unfolding store_foreign
store_foreign-unknown i p id foreign entry index e = rw (e, store_foreign) refl

pub store_foreign-known :
    (i : ℕ) (p : String) (id : LocalId) (foreign entry : IdentifierMap) (index : PlatformIndex)
    (table : List (String × ℕ))
    → find p index ≡ some table
    → store_foreign i ((p, id) ∷ foreign) entry index
      ≡ store_foreign i foreign (assign p id entry) (write i p (key_of id) index)
unfolding store_foreign
store_foreign-known i p id foreign entry index table e = rw (e, store_foreign) refl

store_foreign-assign_all :
    (i : ℕ) (foreign entry entry' : IdentifierMap) (index index' : PlatformIndex)
    → store_foreign i foreign entry index ≡ returned (entry', index')
    → entry' ≡ assign_all foreign entry
unfolding store_foreign assign_all
store_foreign-assign_all i [] entry entry' index index' h = cc
store_foreign-assign_all i ((p, id) ∷ foreign) entry entry' index index' h =
    elim (Option-cases (find p index)) [
      | inl e ↦ let wrong = sym (store_foreign-unknown i p id foreign entry index e) ∙ h in cc
      | inr (table, e) ↦
          store_foreign-assign_all i foreign (assign p id entry) entry'
            (write i p (key_of id) index) index'
            (sym (store_foreign-known i p id foreign entry index table e) ∙ h)
    ]

convert_id-ensure_indexed :
    (t : Tables) (i : ℕ) (p q : String) (a : LocalId)
    → find p (get_or t.ids i []) ≡ some a
    → convert_id (ensure_indexed i t) p (key_of a) q ≡ find q (get_or t.ids i [])
unfolding convert_id ensure_indexed
convert_id-ensure_indexed t i p q a h =
    ap (λ o. elim o [ some j ↦ find q (get_or t.ids j []) | none ↦ none ])
      (index_at-index_all i (get_or t.ids i []) p a t.index h)

-- The thing's entry has the local identifier and the foreign ones.
pub record Holds (t : Tables) (i : ℕ) (p : String) (local : LocalId) (foreign : IdentifierMap)
    : Type 0 where
  pub own : find p (get_or t.ids i []) ≡ some local
  pub others :
      (q : String) (id : LocalId) → find q foreign ≡ some id → find q (get_or t.ids i []) ≡ some id

get_or-set :
    (ids : List IdentifierMap) (i : ℕ) (e : IdentifierMap)
    → i < length ids
    → get_or (set ids i e) i [] ≡ e
get_or-set [] i e h = elim h [ ]
get_or-set (d ∷ ids) zero e h = refl
get_or-set (d ∷ ids) (suc i) e h = get_or-set ids i e (omega arith)

get_or-append :
    (ids : List IdentifierMap) (e : IdentifierMap) → get_or (ids ++ e ∷ []) (length ids) [] ≡ e
get_or-append [] e = refl
get_or-append (d ∷ ids) e = get_or-append ids e

new-Holds :
    (t : Tables) (p : String) (local : LocalId) (foreign : IdentifierMap)
    → find p foreign ≡ none
    → Holds (record t { ids = t.ids ++ assign p local foreign ∷ [] }) (length t.ids) p local foreign
new-Holds t p local foreign h =
    let at = get_or-append t.ids (assign p local foreign) in
    record {
      own = ap (find p) at ∙ find-put_self p (λ _. local) foreign;
      others = λ q id e.
          ap (find q) at
          ∙ find-put_ne q p (λ _. local) foreign
              (λ same. let wrong = sym h ∙ ap (λ r. find r foreign) same ∙ e in cc)
          ∙ e;
    }

known-Holds :
    (t : Tables) (p : String) (local : LocalId) (foreign : IdentifierMap) (i : ℕ)
    (e : IdentifierMap × PlatformIndex)
    → i < length t.ids
    → OnceEach foreign
    → find p foreign ≡ none
    → e.0 ≡ assign_all foreign (assign p local (get_or t.ids i []))
    → Holds (with_entry t i e) i p local foreign
known-Holds t p local foreign i e b d h is =
    let before = assign p local (get_or t.ids i []) in
    let at = get_or-set t.ids i e.0 b ∙ is in
    record {
      own =
          ap (find p) at
          ∙ find-assign_all_absent p foreign before h
          ∙ find-put_self p (λ _. local) (get_or t.ids i []);
      others = λ q id f. ap (find q) at ∙ find-assign_all q id foreign before d f;
    }

returned_path : {s t : Tables} → returned s ≡ returned t → s ≡ t
returned_path h = cc

finished :
    (t t' : Tables) (i : ℕ) (o : Outcome (IdentifierMap × PlatformIndex))
    → finish t i o ≡ returned t'
    → (e : IdentifierMap × PlatformIndex) × (o ≡ returned e)
      × (t' ≡ ensure_indexed i (with_entry t i e))
finished t t' i (returned e) h = (e, refl, sym (returned_path h))
finished t t' i (thrown e) h = cc

stored-Holds :
    (t t' : Tables) (p : String) (local : LocalId) (foreign : IdentifierMap)
    → IsSound t
    → OnceEach foreign
    → find p foreign ≡ none
    → store_identities_from t p local foreign ≡ returned t'
    → (i : ℕ) × (u : Tables) × (t' ≡ ensure_indexed i u) × Holds u i p local foreign
unfolding store_identities_from store_known store_new
stored-Holds t t' p local foreign v d h r =
    elim (Option-cases (lookup_index_from t.index p local foreign)) [
      | inl e ↦ (
        length t.ids,
        record t { ids = t.ids ++ assign p local foreign ∷ [] },
        sym (returned_path (ap chosen (sym e) ∙ r)),
        new-Holds t p local foreign h,
      )
      | inr (i, e) ↦
          let b = lookup_index_from-Below (length t.ids) t.index p local foreign i v e in
          let before = assign p local (get_or t.ids i []) in
          let (x, o, is) =
            finished t t' i (store_foreign i foreign before t.index) (ap chosen (sym e) ∙ r) in
          (
            i,
            with_entry t i x,
            is,
            known-Holds t p local foreign i x b d h
                (store_foreign-assign_all i foreign before x.0 t.index x.1 o),
          )
    ]
  where
    chosen : Option ℕ → Outcome Tables
    chosen (some i) = store_known t p local foreign i
    chosen none = returned (store_new t p local foreign)

-- Where `storeIdentitiesFrom` returns on a sound index, the local identifier is converted to each
-- foreign one and back. The foreign identifiers name each platform once and not the local one.
pub convert_id-store_identities_from :
    (t t' : Tables) (p q : String) (local id : LocalId) (foreign : IdentifierMap)
    → IsSound t
    → OnceEach foreign
    → find p foreign ≡ none
    → store_identities_from t p local foreign ≡ returned t'
    → find q foreign ≡ some id
    → (convert_id t' p (key_of local) q ≡ some id) × (convert_id t' q (key_of id) p ≡ some local)
convert_id-store_identities_from t t' p q local id foreign v d h r f =
    let (i, u, is, z) = stored-Holds t t' p local foreign v d h r in
    let there = z.others q id f in
    (
      ap (λ x. convert_id x p (key_of local) q) is
          ∙ convert_id-ensure_indexed u i p q local z.own
          ∙ there,
      ap (λ x. convert_id x q (key_of id) p) is
          ∙ convert_id-ensure_indexed u i q p id there
          ∙ z.own,
    )
