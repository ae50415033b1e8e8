-- ===== src/Observations/Fold/Marked.antt =====
-- The marking of the ids that an observation did not return.
use atomic_plugins.Prelude.{
  ℕ, String, str_eq, eq_iff, Bool-cases, All, true, false, not, ◌&&◌, Option, List, [], ◌∷◌, ◌≡◌,
  ◌≢◌, refl, ap, sym, ◌∙◌, inl, inr, arith,
}
use atomic_plugins.Prelude.Grouping.{find, put, OnceEach}
use atomic_plugins.Observations.Types.{
  key_of, collection_of, is_id_scope, CanonicalRecord, ObservationHeader, MirrorRecord, Records,
  record_key, is_set,
}
use atomic_plugins.Observations.Diff.{includes, is_missing}
use atomic_plugins.Observations.Fold.Returned.{record_key-injective}
use atomic_plugins.Observations.Fold.Missing.{
  in_scope_collection, IsListed, returned-not_missing, missing-in_scope,
}
use atomic_plugins.Observations.Fold.{adjust, upserted, upsert_all, marked, mark_all}
use atomic_plugins.Observations.Fold.Sound.{
  All_put, All-adjust, adjust-OnceEach, find-adjust_ne, IsKeyed, marked_keeps,
}

module _ (ms : String → ℕ) (h : ObservationHeader) (returned : List String) where
  marked-not_missing :
      (r : MirrorRecord) → h.received_at ≢ "" → is_missing ms h.scope returned (marked h r) ≡ false
  unfolding is_missing marked is_set
  marked-not_missing r n =
      let set = eq_iff h.received_at "" in
      elim (Bool-cases (is_id_scope h.scope)) [
        | inl e ↦ rw e (ground (arith, set))
        | inr e ↦ elim (Bool-cases (not (is_set r.deleted_at) && not (is_set r.absent_since))) [
          | inl f ↦ rw (e, f) (ground (arith, set))
          | inr f ↦ rw (e, f) (ground arith)
        ]
      ]

  abbrev pub IsPending : List String → String × MirrorRecord → Type 0
  IsPending ids e = IsKeyed e × IsListed ms h.scope returned ids e

  others-IsPending :
      (i : String) (ids : List String) (j : String) (r : MirrorRecord)
      → j ≢ record_key (collection_of h.scope) i
      → IsPending (i ∷ ids) (j, r)
      → IsPending ids (j, r)
  unfolding includes
  others-IsPending i ids j r n (k, p) = (
    k,
    λ q. elim (Bool-cases (str_eq i r.id)) [
      | inl e ↦ absurd (
          let c = in_scope_collection ms h.scope r (missing-in_scope ms h.scope returned r q) in
          let same_id = (eq_iff i r.id).0 e in
          n (
            k
            ∙ (ap (λ c. record_key c r.id) c
                ∙ ap (record_key (collection_of h.scope)) (sym same_id))))
      | inr e ↦ let listed = p q in ground arith
    ],
  )

  marked-IsPending :
      (ids : List String) (k : String) (r : MirrorRecord)
      → h.received_at ≢ ""
      → IsKeyed (k, r)
      → IsPending ids (k, marked h r)
  marked-IsPending ids k r n e =
      ((let kept = marked_keeps h r in cc), λ q. absurd (let no = marked-not_missing r n in cc))

  -- Marking the listed ids leaves none that is missing.
  pub mark_all-IsPending :
      (ids : List String) (m : Records)
      → h.received_at ≢ ""
      → OnceEach m
      → All (IsPending ids) m
      → All (IsPending []) (mark_all h ids m)
  unfolding mark_all
  mark_all-IsPending [] m n o p = p
  mark_all-IsPending (i ∷ ids) m n o p =
      let key = record_key (collection_of h.scope) i in
      mark_all-IsPending ids (adjust key (marked h) m) n (adjust-OnceEach key (marked h) m o) (
        All-adjust (IsPending (i ∷ ids)) (IsPending ids) key (marked h) m o (others-IsPending i ids)
          (λ r p. marked-IsPending ids key r n p.0) p)

  -- Writing returned records leaves the others pending.
  pub upsert_all-IsPending :
      (ids : List String) (us : List CanonicalRecord) (m : Records)
      → All (λ u. includes u.id returned ≡ true) us
      → All (IsPending ids) m
      → All (IsPending ids) (upsert_all h us m)
  unfolding upsert_all upserted
  upsert_all-IsPending ids [] m r p = p
  upsert_all-IsPending ids (u ∷ us) m (r, rs) p =
      upsert_all-IsPending ids us (put (key_of h u) (upserted h u) m) rs (
        All_put (IsPending ids) (key_of h u) (upserted h u) m
          (λ o. (
            refl,
            λ q.
                absurd (let no = returned-not_missing ms h.scope returned (upserted h u o) r in cc),
          ))
          p)

  returned_stay :
      (r : CanonicalRecord) (ids : List String) (m : Records)
      → includes r.id returned ≡ true
      → All (λ i. includes i returned ≡ false) ids
      → find (key_of h r) (mark_all h ids m) ≡ find (key_of h r) m
  unfolding mark_all
  returned_stay r [] m k n = refl
  returned_stay r (i ∷ ids) m k (e, n) =
      let key = record_key (collection_of h.scope) i in
      returned_stay r ids (adjust key (marked h) m) k n
      ∙ find-adjust_ne (key_of h r) key (marked h) m
          (λ p. let same_id = record_key-injective (collection_of h.scope) i r.id p in absurd (cc))

  -- Marking ids that were not returned leaves what is found of the returned records.
  pub find-mark_all :
      (want : CanonicalRecord → Option MirrorRecord) (rs : List CanonicalRecord) (ids : List String)
      (m : Records)
      → All (λ r. includes r.id returned ≡ true) rs
      → All (λ i. includes i returned ≡ false) ids
      → All (λ r. find (key_of h r) m ≡ want r) rs
      → All (λ r. find (key_of h r) (mark_all h ids m) ≡ want r) rs
  find-mark_all want [] ids m k n a = tt
  find-mark_all want (r ∷ rs) ids m (k, ks) n (e, a) =
      (returned_stay r ids m k n ∙ e, find-mark_all want rs ids m ks n a)
