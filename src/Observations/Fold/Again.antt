-- ===== src/Observations/Fold/Again.antt =====
-- The difference of an observation from the mirror that has taken it in.
use atomic_plugins.Prelude.{
  ℕ, String, eq_iff, All, All_weaken, false, true, List, [], ◌∷◌, map, ◌≡◌, ◌≢◌, refl, ap, sym, ◌∙◌,
  Bool-cases, inl, inr, some, length, ◌==◌, ◌&&◌, if◌then◌else◌, subst, arith,
}
use atomic_plugins.Prelude.Grouping.{find, OnceEach}
use atomic_plugins.Prelude.Sorting.{sort_by, insert_by}
use atomic_plugins.Observations.Types.{
  MirrorRecord, key_of, CanonicalRecord, ObservationHeader, Observation, Mirror, Records,
}
use atomic_plugins.Observations.Diff.{
  includes, changed, same, absent_ids, diff_observation, is_empty, masked_record, is_same,
  masked_of,
}
use atomic_plugins.Observations.Fold.{
  fields_of, upsert_all, mark_all, apply_incremental, apply_all, fold,
}
use atomic_plugins.Observations.Fold.Sound.{IsSound, IsKeyed, upsert_all-OnceEach}
use atomic_plugins.Observations.Fold.Written.{Holds}
use atomic_plugins.Observations.Fold.Returned.{
  DifferentIds, outcome_of, find-changed, outcome_of-same, outcome_of-Holds, outcome_of-kept,
}
use atomic_plugins.Observations.Fold.Marked.{
  IsPending, upsert_all-IsPending, mark_all-IsPending, find-mark_all,
}
use atomic_plugins.Observations.Fold.Absent.{
  absent_ids-IsPending, absent_ids-not_returned, absent_ids-nil,
}

included :
    (rs : List CanonicalRecord) (more : List String)
    → All (λ r. includes r.id more ≡ true) rs
    → (i : String) → All (λ r. includes r.id (i ∷ more) ≡ true) rs
unfolding includes
included [] more h i = tt
included (r ∷ rs) more (e, h) i = (ground (arith, e), included rs more h i)

all_included : (rs : List CanonicalRecord) → All (λ r. includes r.id (map (λ r. r.id) rs) ≡ true) rs
unfolding includes
all_included [] = tt
all_included (r ∷ rs) =
    (ground (arith, eq_iff r.id r.id), included rs (map (λ r. r.id) rs) (all_included rs) r.id)

-- What is written has ids of returned records.
changed_included :
    (h : ObservationHeader) (m : Records) (rs : List CanonicalRecord) (returned : List String)
    → All (λ r. includes r.id returned ≡ true) rs
    → All (λ u. includes u.id returned ≡ true) (changed h m rs)
unfolding changed
changed_included h m [] returned k = tt
changed_included h m (r ∷ rs) returned (e, k) = elim (Bool-cases (same h m r)) [
  | inl s ↦
      subst
        (λ b.
          All (λ u. includes u.id returned ≡ true)
            (if b then changed h m rs else masked_record h r ∷ changed h m rs))
        (sym s) (changed_included h m rs returned k)
  | inr s ↦
      subst
        (λ b.
          All (λ u. includes u.id returned ≡ true)
            (if b then changed h m rs else masked_record h r ∷ changed h m rs))
        (sym s) (e, changed_included h m rs returned k)
]

none_changed :
    (h : ObservationHeader) (m : Records) (rs : List CanonicalRecord)
    → All (λ r. same h m r ≡ true) rs
    → changed h m rs ≡ []
unfolding changed
none_changed h m [] a = refl
none_changed h m (r ∷ rs) (e, a) =
    ap (λ b. if b then changed h m rs else masked_record h r ∷ changed h m rs) e
    ∙ none_changed h m rs a

agrees :
    (h : ObservationHeader) (m : Records) (rs : List CanonicalRecord)
    → All (λ r. find (key_of h r) m ≡ find (key_of h r) m) rs
agrees h m [] = tt
agrees h m (r ∷ rs) = (refl, agrees h m rs)

module _ (ms : String → ℕ) (m : Records) (obs : Observation) where
  abbrev written : Records
  written = upsert_all obs.header (changed obs.header m obs.records) m

  abbrev after : Records
  after = mark_all obs.header (absent_ids ms obs m) written

  find-after :
      DifferentIds obs.records
      → All (λ r. find (key_of obs.header r) after ≡ outcome_of obs.header m r) obs.records
  find-after d =
      find-mark_all ms obs.header (map (λ r. r.id) obs.records) (outcome_of obs.header m)
        obs.records (absent_ids ms obs m) written (all_included obs.records)
        (absent_ids-not_returned ms obs m)
        (find-changed obs.header m obs.records m d (agrees obs.header m obs.records))

  same-after : DifferentIds obs.records → All (λ r. same obs.header after r ≡ true) obs.records
  same-after d =
      All_weaken (λ r. find (key_of obs.header r) after ≡ outcome_of obs.header m r)
        (λ r. same obs.header after r ≡ true)
        (λ r e.
          ap (is_same obs.header.mask (masked_of obs.header r)) e ∙ outcome_of-same obs.header m r)
        obs.records (find-after d)

  IsPending-after :
      OnceEach m
      → All IsKeyed m
      → obs.header.received_at ≢ ""
      → obs.header.complete ≡ true
      → All (IsPending ms obs.header (map (λ r. r.id) obs.records) []) after
  IsPending-after o k n c =
      let returned = map (λ r. r.id) obs.records in
      mark_all-IsPending ms obs.header returned (absent_ids ms obs m) written n
        (upsert_all-OnceEach obs.header (changed obs.header m obs.records) m o)
        (upsert_all-IsPending ms obs.header returned (absent_ids ms obs m)
          (changed obs.header m obs.records) m
          (changed_included obs.header m obs.records returned (all_included obs.records))
          (absent_ids-IsPending ms obs m c k))

-- Once the difference of an observation is folded into a sound mirror, the observation differs in
-- nothing from it: a second difference has no upserts and no absences. The ids of the returned
-- records are taken to be different, and the time of receipt not to be the empty text.
pub diff_observation-fold :
    (ms : String → ℕ) (m : Mirror) (obs : Observation)
    → IsSound m
    → DifferentIds obs.records
    → obs.header.received_at ≢ ""
    → is_empty (diff_observation ms (fold ms m (diff_observation ms m obs ∷ [])) obs) ≡ true
unfolding diff_observation fold apply_all apply_incremental sort_by insert_by
diff_observation-fold ms m obs (o, k) d n =
    let same_now =
      none_changed obs.header (after ms m.records obs) obs.records
        (same-after ms m.records obs d) in
    let none_now =
      absent_ids-nil ms obs (after ms m.records obs) (IsPending-after ms m.records obs o k n) in
    ap (λ l. length l == 0 && length (absent_ids ms obs (after ms m.records obs)) == 0) same_now
    ∙ ap (λ l. length l == 0) none_now

-- Once the difference of an observation is folded into a mirror, each returned record stands there
-- under its key: the fields of the mask have the values that were returned, compared as canonical
-- texts, it is marked neither as absent nor as deleted, and a field outside the mask is as it was.
-- The ids of the returned records are taken to be different.
pub fold-diff_observation :
    (ms : String → ℕ) (m : Mirror) (obs : Observation) (f : String)
    → DifferentIds obs.records
    → includes f obs.header.mask ≡ false
    → All
        (λ r.
          (q : MirrorRecord) × (find
              (key_of obs.header r)
              (fold ms m (diff_observation ms m obs ∷ [])).records
            ≡ some q)
          × Holds obs.header.mask r q
          × (find f q.fields ≡ find f (fields_of (find (key_of obs.header r) m.records))))
        obs.records
unfolding diff_observation fold apply_all apply_incremental sort_by insert_by
fold-diff_observation ms m obs f d n =
    All_weaken
      (λ r. find (key_of obs.header r) (after ms m.records obs) ≡ outcome_of obs.header m.records r)
      (λ r.
        (q : MirrorRecord) × (find (key_of obs.header r) (after ms m.records obs) ≡ some q)
        × Holds obs.header.mask r q
        × (find f q.fields ≡ find f (fields_of (find (key_of obs.header r) m.records))))
      (λ r e.
        let (q, there, held) = outcome_of-Holds obs.header m.records r in
        (
          q,
          e ∙ there,
          held,
          sym (ap (λ o. find f (fields_of o)) there) ∙ outcome_of-kept obs.header m.records r f n,
        ))
      obs.records (find-after ms m.records obs d)
