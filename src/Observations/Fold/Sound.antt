-- ===== src/Observations/Fold/Sound.antt =====
-- The records' table under the changes of the fold.
use atomic_plugins.Prelude.{
  ℕ, String, str_eq, eq_iff, Bool-cases, All, Option, none, some, List, [], ◌∷◌, ◌≡◌, ◌≢◌, refl, ap,
  sym, subst, ◌∙◌, not, ◌&&◌, inl, inr, if◌then◌else◌, arith,
}
use atomic_plugins.Prelude.Grouping.{find, put, OnceEach, put-OnceEach}
use atomic_plugins.Prelude.Sorting.{sort_by}
use atomic_plugins.Observations.Types.{
  key_of, collection_of, is_id_scope, CanonicalRecord, ObservationHeader, Incremental, MirrorRecord,
  Records, Mirror, record_key, is_set,
}
use atomic_plugins.Observations.Fold.{
  adjust, upserted, upsert_all, marked, mark_all, apply_incremental, apply_all, fold,
  incremental_before,
}

module _ {κ} (P : String × MirrorRecord → Type κ) where
  -- What a written record has and the others keep, all have.
  pub All_put :
      (k : String) (update : Option MirrorRecord → MirrorRecord) (m : Records)
      → ((o : Option MirrorRecord) → P (k, update o))
      → All P m
      → All P (put k update m)
  unfolding put
  All_put k update [] w h = (w none, tt)
  All_put k update ((j, r) ∷ m) w (p, h) = elim (Bool-cases (str_eq j k)) [
    | inl e ↦ rw e (subst (λ i. P (i, update (some r))) (sym ((eq_iff j k).0 e)) (w (some r)), h)
    | inr e ↦ rw e (p, All_put k update m w h)
  ]

module _ {κ ν} (P : String × MirrorRecord → Type κ) (Q : String × MirrorRecord → Type ν) where
  All_others :
      (k : String) (m : Records)
      → ((j : String) (r : MirrorRecord) → j ≢ k → P (j, r) → Q (j, r))
      → All (λ e. k ≢ e.0) m
      → All P m
      → All Q m
  All_others k [] keeps n h = tt
  All_others k ((j, r) ∷ m) keeps (n, ns) (p, h) =
      (keeps j r (λ e. n (sym e)) p, All_others k m keeps ns h)

  -- A change of the record at `k` makes `P` into `Q` if it does so there and `P` gives `Q` elsewhere.
  pub All-adjust :
      (k : String) (change : MirrorRecord → MirrorRecord) (m : Records)
      → OnceEach m
      → ((j : String) (r : MirrorRecord) → j ≢ k → P (j, r) → Q (j, r))
      → ((r : MirrorRecord) → P (k, r) → Q (k, change r))
      → All P m
      → All Q (adjust k change m)
  unfolding adjust
  All-adjust k change [] o keeps makes h = tt
  All-adjust k change ((j, r) ∷ m) (n, o) keeps makes (p, h) = elim (Bool-cases (str_eq j k)) [
    | inl e ↦
        let same = (eq_iff j k).0 e in
        rw e (
          subst (λ i. Q (i, change r)) (sym same) (makes r (subst (λ i. P (i, r)) same p)),
          All_others k m keeps (subst (λ i. All (λ e. i ≢ e.0) m) same n) h,
        )
    | inr e ↦
        rw e (keeps j r (λ p. ground (arith, eq_iff j k)) p, All-adjust k change m o keeps makes h)
  ]

All_keys-adjust :
    (i k : String) (change : MirrorRecord → MirrorRecord) (m : Records)
    → All (λ e. i ≢ e.0) m
    → All (λ e. i ≢ e.0) (adjust k change m)
unfolding adjust
All_keys-adjust i k change [] h = tt
All_keys-adjust i k change ((j, r) ∷ m) (n, h) = elim (Bool-cases (str_eq j k)) [
  | inl e ↦ rw e (n, h)
  | inr e ↦ rw e (n, All_keys-adjust i k change m h)
]

pub adjust-OnceEach :
    (k : String) (change : MirrorRecord → MirrorRecord) (m : Records)
    → OnceEach m
    → OnceEach (adjust k change m)
unfolding adjust
adjust-OnceEach k change [] h = tt
adjust-OnceEach k change ((j, r) ∷ m) (n, h) = elim (Bool-cases (str_eq j k)) [
  | inl e ↦ rw e (n, h)
  | inr e ↦ rw e (All_keys-adjust j k change m n, adjust-OnceEach k change m h)
]

pub find-adjust_ne :
    (i k : String) (change : MirrorRecord → MirrorRecord) (m : Records)
    → k ≢ i
    → find i (adjust k change m) ≡ find i m
unfolding adjust find
find-adjust_ne i k change [] h = refl
find-adjust_ne i k change ((j, r) ∷ m) h = elim (Bool-cases (str_eq j k)) [
  | inl e ↦ elim (Bool-cases (str_eq j i)) [
    | inl f ↦ absurd (h (sym ((eq_iff j k).0 e) ∙ (eq_iff j i).0 f))
    | inr f ↦ rw (e, find, f) refl
  ]
  | inr e ↦
      rw (e, find) (ap (λ o. if str_eq j i then some r else o) (find-adjust_ne i k change m h))
]

-- Each record stands at the key of its collection and id.
abbrev pub IsKeyed : String × MirrorRecord → Type 0
IsKeyed e = e.0 ≡ record_key e.1.collection e.1.id

abbrev pub IsSound : Mirror → Type 0
IsSound m = OnceEach m.records × All IsKeyed m.records

pub marked_keeps :
    (h : ObservationHeader) (r : MirrorRecord)
    → ((marked h r).id ≡ r.id)
      × ((marked h r).collection ≡ r.collection)
      × ((marked h r).fields ≡ r.fields)
unfolding marked
marked_keeps h r = elim (Bool-cases (is_id_scope h.scope)) [
  | inl e ↦ rw e (refl, refl, refl)
  | inr e ↦ elim (Bool-cases (not (is_set r.deleted_at) && not (is_set r.absent_since))) [
    | inl f ↦ rw (e, f) (refl, refl, refl)
    | inr f ↦ rw (e, f) (refl, refl, refl)
  ]
]

pub upsert_all-OnceEach :
    (h : ObservationHeader) (us : List CanonicalRecord) (m : Records)
    → OnceEach m
    → OnceEach (upsert_all h us m)
unfolding upsert_all
upsert_all-OnceEach h [] m o = o
upsert_all-OnceEach h (u ∷ us) m o =
    upsert_all-OnceEach h us (put (key_of h u) (upserted h u) m)
      (put-OnceEach (key_of h u) (upserted h u) m o)

pub upsert_all-IsKeyed :
    (h : ObservationHeader) (us : List CanonicalRecord) (m : Records)
    → All IsKeyed m
    → All IsKeyed (upsert_all h us m)
unfolding upsert_all upserted
upsert_all-IsKeyed h [] m k = k
upsert_all-IsKeyed h (u ∷ us) m k =
    upsert_all-IsKeyed h us (put (key_of h u) (upserted h u) m)
      (All_put IsKeyed (key_of h u) (upserted h u) m (λ o. refl) k)

marked-IsKeyed :
    (h : ObservationHeader) (k : String) (r : MirrorRecord)
    → IsKeyed (k, r)
    → IsKeyed (k, marked h r)
marked-IsKeyed h k r e = let kept = marked_keeps h r in cc

mark_all-IsSound :
    (h : ObservationHeader) (is : List String) (m : Records)
    → OnceEach m
    → All IsKeyed m
    → OnceEach (mark_all h is m) × All IsKeyed (mark_all h is m)
unfolding mark_all
mark_all-IsSound h [] m o k = (o, k)
mark_all-IsSound h (i ∷ is) m o k =
    let key = record_key (collection_of h.scope) i in
    mark_all-IsSound h is (adjust key (marked h) m) (adjust-OnceEach key (marked h) m o)
      (All-adjust IsKeyed IsKeyed key (marked h) m o (λ j r n p. p) (marked-IsKeyed h key) k)

module _ (ms : String → ℕ) where
  apply_all-IsSound : (m : Mirror) (is : List Incremental) → IsSound m → IsSound (apply_all ms m is)
  unfolding apply_all apply_incremental
  apply_all-IsSound m [] s = s
  apply_all-IsSound m (i ∷ is) s = apply_all-IsSound (apply_incremental ms m i) is (
      mark_all-IsSound i.header i.absent (upsert_all i.header i.upserts m.records)
        (upsert_all-OnceEach i.header i.upserts m.records s.0)
        (upsert_all-IsKeyed i.header i.upserts m.records s.1))

  -- Folding keeps a mirror sound: in its records each key stands once, with a record of that
  -- collection and id.
  pub fold-IsSound :
      (base : Mirror) (is : List Incremental) → IsSound base → IsSound (fold ms base is)
  unfolding fold
  fold-IsSound base is s = apply_all-IsSound base (sort_by (incremental_before ms) is) s
