-- ===== src/Observations/Fold/Written.antt =====
-- The fields of a record that is written: those of the mask as returned, the others as before.
use atomic_plugins.Prelude.{
  String, str_eq, eq_iff, Bool, Bool-cases, All, true, false, Option, some, List, [], ◌∷◌, ◌≡◌, ◌≢◌,
  refl, ap, sym, subst, ◌∙◌, inl, inr, if◌then◌else◌, arith, none, ◌⊎◌,
}
use atomic_plugins.Prelude.Grouping.{
  find, put, OnceEach, All-put, put-OnceEach, find-put_self, find-put_ne,
}
use atomic_plugins.Observations.Json.{Json, stable_stringify}
use atomic_plugins.Observations.Types.{
  CanonicalRecord, ObservationHeader, MirrorRecord, Values, is_set, value_at, or_null,
}
use atomic_plugins.Observations.Diff.{includes, pick, all_of, is_same, masked_of, masked_record}
use atomic_plugins.Observations.Fold.{merged, fields_of, upserted}

find_picked :
    (fields : Values) (f : String) (mask : List String) (out : Values)
    → find f out ≡ some (value_at f fields)
    → find f (pick fields mask out) ≡ some (value_at f fields)
unfolding pick
find_picked fields f [] out h = h
find_picked fields f (g ∷ mask) out h =
    find_picked fields f mask (put g (λ _. value_at g fields) out) (elim (Bool-cases (str_eq g f)) [
      | inl e ↦
          subst (λ i. find i (put g (λ _. value_at g fields) out) ≡ some (value_at i fields))
            ((eq_iff g f).0 e) (find-put_self g (λ _. value_at g fields) out)
      | inr e ↦ find-put_ne f g (λ _. value_at g fields) out (λ p. ground (arith, eq_iff g f)) ∙ h
    ])

-- Each field of the mask is in the picked object.
find-pick :
    (fields : Values) (mask : List String) (out : Values)
    → All (λ f. find f (pick fields mask out) ≡ some (value_at f fields)) mask
unfolding pick
find-pick fields [] out = tt
find-pick fields (f ∷ mask) out = (
  find_picked fields f mask (put f (λ _. value_at f fields) out)
      (find-put_self f (λ _. value_at f fields) out),
  find-pick fields mask (put f (λ _. value_at f fields) out),
)

pick-OnceEach :
    (fields : Values) (mask : List String) (out : Values)
    → OnceEach out
    → OnceEach (pick fields mask out)
unfolding pick
pick-OnceEach fields [] out h = h
pick-OnceEach fields (f ∷ mask) out h =
    pick-OnceEach fields mask (put f (λ _. value_at f fields) out)
      (put-OnceEach f (λ _. value_at f fields) out h)

find-merged_ne :
    (f : String) (fields more : Values)
    → All (λ e. f ≢ e.0) more
    → find f (merged fields more) ≡ find f fields
unfolding merged
find-merged_ne f fields [] h = refl
find-merged_ne f fields ((g, v) ∷ more) (n, h) =
    find-merged_ne f (put g (λ _. v) fields) more h
    ∙ find-put_ne f g (λ _. v) fields (λ e. n (sym e))

-- The second object's fields win.
find-merged :
    (f : String) (fields more : Values) (w : Json)
    → OnceEach more
    → find f more ≡ some w
    → find f (merged fields more) ≡ some w
unfolding merged find
find-merged f fields [] w o h = cc
find-merged f fields ((g, v) ∷ more) w (n, o) h = elim (Bool-cases (str_eq g f)) [
  | inl e ↦
      let same_name = (eq_iff g f).0 e in
      subst (λ i. find i (merged (put g (λ _. v) fields) more) ≡ some v) same_name
        (find-merged_ne g (put g (λ _. v) fields) more n ∙ find-put_self g (λ _. v) fields)
      ∙ (ap (λ b. if b then some v else find f more) (sym e) ∙ h)
  | inr e ↦
      find-merged f (put g (λ _. v) fields) more w o
        (ap (λ b. if b then some v else find f more) (sym e) ∙ h)
]

-- A test that all names pass.
all_of-true :
    (test : String → Bool) (names : List String)
    → All (λ f. test f ≡ true) names
    → all_of test names ≡ true
unfolding all_of
all_of-true test [] h = refl
all_of-true test (f ∷ names) (e, h) = rw (e, all_of-true test names h) refl

agreeing :
    (fields : Values) (masked more : Values) (names : List String)
    → OnceEach masked
    → All (λ f. find f masked ≡ some (value_at f fields)) names
    → All
        (λ f.
          str_eq
            (stable_stringify (value_at f (merged more masked)))
            (stable_stringify (value_at f masked))
          ≡ true)
        names
agreeing fields masked more [] o h = tt
agreeing fields masked more (f ∷ names) o (e, h) = (
  (eq_iff _ _).1 (
      ap (λ v. stable_stringify (or_null v))
        (find-merged f more masked (value_at f fields) o e ∙ sym e)),
  agreeing fields masked more names o h,
)

-- A record that was written is the same as it was returned.
pub upserted-is_same :
    (h : ObservationHeader) (r : CanonicalRecord) (o : Option MirrorRecord)
    → is_same h.mask (masked_of h r) (some (upserted h (masked_record h r) o)) ≡ true
unfolding is_same upserted is_set
upserted-is_same h r o = all_of-true _ h.mask (
    agreeing r.fields (masked_of h r) (fields_of o) h.mask (pick-OnceEach r.fields h.mask [] tt)
      (find-pick r.fields h.mask []))

pick-names :
    (f : String) (fields : Values) (mask : List String) (out : Values)
    → includes f mask ≡ false
    → All (λ e. f ≢ e.0) out
    → All (λ e. f ≢ e.0) (pick fields mask out)
unfolding pick includes
pick-names f fields [] out h n = n
pick-names f fields (g ∷ mask) out h n =
    pick-names f fields mask (put g (λ _. value_at g fields) out) (ground arith) (
      All-put f g (λ _. value_at g fields) out
        (λ p. let same = (eq_iff g f).1 (sym p) in ground arith) n)

-- A field outside the mask stays as it was.
pub find-upserted :
    (h : ObservationHeader) (r : CanonicalRecord) (o : Option MirrorRecord) (f : String)
    → includes f h.mask ≡ false
    → find f (upserted h (masked_record h r) o).fields ≡ find f (fields_of o)
unfolding upserted
find-upserted h r o f e =
    find-merged_ne f (fields_of o) (masked_of h r) (pick-names f r.fields h.mask [] e tt)

abbrev pub IsUnset : Option String → Type 0
IsUnset o = (o ≡ none) ⊎ (o ≡ some "")

-- The record has, as texts, the values of the fields of the mask that were returned, and is marked
-- neither as absent nor as deleted.
abbrev pub Holds : List String → CanonicalRecord → MirrorRecord → Type 0
Holds mask r q =
    IsUnset q.absent_since
    × IsUnset q.deleted_at
    × All (λ g. stable_stringify (value_at g q.fields) ≡ stable_stringify (value_at g r.fields))
        mask

unset : (o : Option String) → is_set o ≡ false → IsUnset o
unfolding is_set
unset none h = inl refl
unset (some s) h = inr (ap some ((eq_iff s "").0 (ground arith)))

values_alike :
    (r : CanonicalRecord) (q : MirrorRecord) (masked : Values) (names : List String)
    → all_of
        (λ f.
          str_eq (stable_stringify (value_at f q.fields)) (stable_stringify (value_at f masked)))
        names
      ≡ true
    → All (λ f. find f masked ≡ some (value_at f r.fields)) names
    → All
        (λ g. stable_stringify (value_at g q.fields) ≡ stable_stringify (value_at g r.fields))
        names
unfolding all_of
values_alike r q masked [] h e = tt
values_alike r q masked (f ∷ names) h (e, es) = (
  (eq_iff (stable_stringify (value_at f q.fields)) (stable_stringify (value_at f masked))).0
        (ground arith)
      ∙ ap (λ o. stable_stringify (or_null o)) e,
  values_alike r q masked names (ground arith) es,
)

-- What the code's test accepts holds what was returned.
pub is_same-Holds :
    (h : ObservationHeader) (r : CanonicalRecord) (o : Option MirrorRecord)
    → is_same h.mask (masked_of h r) o ≡ true
    → (q : MirrorRecord) × (o ≡ some q) × Holds h.mask r q
unfolding is_same
is_same-Holds h r none e = absurd (cc)
is_same-Holds h r (some q) e = (
  q,
  refl,
  (
    unset q.absent_since (ground arith),
    unset q.deleted_at (ground arith),
    values_alike r q (masked_of h r) h.mask (ground arith) (find-pick r.fields h.mask []),
  ),
)
