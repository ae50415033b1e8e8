-- ===== src/Observations/Fold/Returned.antt =====
-- The records that an observation returned: what the fold of its difference leaves of them.
use text.Mathlib.TextLemmas.{append_cancel_left}
use atomic_plugins.Prelude.{
  String, Bool, Bool-cases, All, Pairs, true, false, Option, some, List, [], ◌∷◌, ◌≡◌, ◌≢◌, refl,
  ap, sym, subst, ◌∙◌, inl, inr, if◌then◌else◌,
}
use atomic_plugins.Prelude.JsText.{◌+++◌}
use atomic_plugins.Prelude.Grouping.{find, put, find-put_self, find-put_ne}
use atomic_plugins.Observations.Types.{
  key_of, collection_of, CanonicalRecord, ObservationHeader, MirrorRecord, Records, record_key,
}
use atomic_plugins.Observations.Diff.{includes, is_same, masked_of, masked_record, same, changed}
use atomic_plugins.Observations.Fold.{fields_of, upserted, upsert_all}
use atomic_plugins.Observations.Fold.Written.{upserted-is_same, find-upserted, Holds, is_same-Holds}

pub record_key-injective : (c i j : String) → record_key c i ≡ record_key c j → i ≡ j
unfolding record_key
record_key-injective c i j e = append_cancel_left (c +++ "/") i j e

abbrev pub DifferentIds : List CanonicalRecord → Type 0
DifferentIds = Pairs λ q r. q.id ≢ r.id

key_of_ne : (h : ObservationHeader) (q r : CanonicalRecord) → q.id ≢ r.id → key_of h q ≢ key_of h r
key_of_ne h q r n e = n (record_key-injective (collection_of h.scope) q.id r.id e)

-- One turn of the loop, `b` telling whether the record is the same.
write_unless : Bool → ObservationHeader → CanonicalRecord → Records → Records
write_unless b h r n = if b then n else put (key_of h r) (upserted h (masked_record h r)) n

upsert_all-write_unless :
    (b : Bool) (h : ObservationHeader) (r : CanonicalRecord) (us : List CanonicalRecord)
    (n : Records)
    → upsert_all h (if b then us else masked_record h r ∷ us) n
      ≡ upsert_all h us (write_unless b h r n)
unfolding upsert_all write_unless
upsert_all-write_unless true h r us n = refl
upsert_all-write_unless false h r us n = refl

find-write_unless_ne :
    (b : Bool) (h : ObservationHeader) (q r : CanonicalRecord) (n : Records)
    → r.id ≢ q.id
    → find (key_of h q) (write_unless b h r n) ≡ find (key_of h q) n
unfolding write_unless
find-write_unless_ne true h q r n e = refl
find-write_unless_ne false h q r n e =
    find-put_ne (key_of h q) (key_of h r) (upserted h (masked_record h r)) n (key_of_ne h r q e)

-- What becomes of the record that was found.
abbrev pub outcome :
    Bool → ObservationHeader → CanonicalRecord → Option MirrorRecord → Option MirrorRecord
outcome b h r o = if b then o else some (upserted h (masked_record h r) o)

find-write_unless_self :
    (b : Bool) (h : ObservationHeader) (r : CanonicalRecord) (n : Records)
    → find (key_of h r) (write_unless b h r n) ≡ outcome b h r (find (key_of h r) n)
unfolding write_unless
find-write_unless_self true h r n = refl
find-write_unless_self false h r n = find-put_self (key_of h r) (upserted h (masked_record h r)) n

-- The records that are written are those of other ids.
find-changed_ne :
    (h : ObservationHeader) (m : Records) (r : CanonicalRecord) (rs : List CanonicalRecord)
    (n : Records)
    → All (λ q. r.id ≢ q.id) rs
    → find (key_of h r) (upsert_all h (changed h m rs) n) ≡ find (key_of h r) n
unfolding changed upsert_all
find-changed_ne h m r [] n d = refl
find-changed_ne h m r (q ∷ rs) n (e, d) =
    ap (find (key_of h r)) (upsert_all-write_unless (same h m q) h q (changed h m rs) n)
    ∙ (find-changed_ne h m r rs (write_unless (same h m q) h q n) d
        ∙ find-write_unless_ne (same h m q) h r q n (λ p. e (sym p)))

still :
    (b : Bool) (h : ObservationHeader) (m : Records) (r : CanonicalRecord)
    (rs : List CanonicalRecord) (n : Records)
    → All (λ q. r.id ≢ q.id) rs
    → All (λ q. find (key_of h q) n ≡ find (key_of h q) m) rs
    → All (λ q. find (key_of h q) (write_unless b h r n) ≡ find (key_of h q) m) rs
still b h m r [] n d a = tt
still b h m r (q ∷ rs) n (e, d) (f, a) =
    (find-write_unless_ne b h q r n e ∙ f, still b h m r rs n d a)

-- What `diffObservation` and the fold leave of a returned record.
abbrev pub outcome_of : ObservationHeader → Records → CanonicalRecord → Option MirrorRecord
outcome_of h m r = outcome (same h m r) h r (find (key_of h r) m)

-- Once the changed records are written to a table that agrees with `m` on the returned ones, each
-- of these has its outcome.
pub find-changed :
    (h : ObservationHeader) (m : Records) (rs : List CanonicalRecord) (n : Records)
    → DifferentIds rs
    → All (λ r. find (key_of h r) n ≡ find (key_of h r) m) rs
    → All (λ r. find (key_of h r) (upsert_all h (changed h m rs) n) ≡ outcome_of h m r) rs
unfolding changed upsert_all
find-changed h m [] n d a = tt
find-changed h m (r ∷ rs) n (ne, d) (e, a) =
    let n' = write_unless (same h m r) h r n in
    let step = upsert_all-write_unless (same h m r) h r (changed h m rs) n in
    (
      ap (find (key_of h r)) step
          ∙ (find-changed_ne h m r rs n' ne
              ∙ (find-write_unless_self (same h m r) h r n ∙ ap (outcome (same h m r) h r) e)),
      subst (λ t. All (λ q. find (key_of h q) t ≡ outcome_of h m q) rs) (sym step)
          (find-changed h m rs n' d (still (same h m r) h m r rs n ne a)),
    )

pub outcome_of-same :
    (h : ObservationHeader) (m : Records) (r : CanonicalRecord)
    → is_same h.mask (masked_of h r) (outcome_of h m r) ≡ true
outcome_of-same h m r = elim (Bool-cases (same h m r)) [
  | inl e ↦ ap (λ b. is_same h.mask (masked_of h r) (outcome b h r (find (key_of h r) m))) e ∙ e
  | inr e ↦
      ap (λ b. is_same h.mask (masked_of h r) (outcome b h r (find (key_of h r) m))) e
      ∙ upserted-is_same h r (find (key_of h r) m)
]

pub outcome_of-Holds :
    (h : ObservationHeader) (m : Records) (r : CanonicalRecord)
    → (q : MirrorRecord) × (outcome_of h m r ≡ some q) × Holds h.mask r q
outcome_of-Holds h m r = is_same-Holds h r (outcome_of h m r) (outcome_of-same h m r)

outcome_fields :
    (b : Bool) (h : ObservationHeader) (r : CanonicalRecord) (o : Option MirrorRecord) (f : String)
    → includes f h.mask ≡ false
    → find f (fields_of (outcome b h r o)) ≡ find f (fields_of o)
outcome_fields true h r o f e = refl
outcome_fields false h r o f e = find-upserted h r o f e

pub outcome_of-kept :
    (h : ObservationHeader) (m : Records) (r : CanonicalRecord) (f : String)
    → includes f h.mask ≡ false
    → find f (fields_of (outcome_of h m r)) ≡ find f (fields_of (find (key_of h r) m))
outcome_of-kept h m r f e = outcome_fields (same h m r) h r (find (key_of h r) m) f e
