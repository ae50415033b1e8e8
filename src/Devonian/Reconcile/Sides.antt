-- ===== src/Devonian/Reconcile/Sides.antt =====
-- The values of one property in devonian/src/reconcileRecord.ts, compared by their texts.
use atomic_plugins.Prelude.{
  ◌≡◌, refl, sym, ap, ◌∙◌, inl, inr, String, Bool, true, false, not, ◌&&◌, Option, none, some,
  if◌then◌else◌, Bool-cases, eq_iff, arith,
}
use atomic_plugins.Devonian.Reconcile.{same_text, equal, text_of}
use atomic_plugins.Devonian.Reconcile.Visited.{true-not-false}

pub if_true : (b : Bool) → (if b then true else false) ≡ b
if_true true = refl
if_true false = refl

same_text_refl : (s : Option String) → same_text s s ≡ true
unfolding same_text
same_text_refl none = refl
same_text_refl (some s) = (eq_iff s s).1 refl

same_text_trans :
    (s t u : Option String) → same_text s u ≡ true → same_text t u ≡ true → same_text s t ≡ true
unfolding same_text
same_text_trans none none u h k = refl
same_text_trans none (some t) none h k = k
same_text_trans none (some t) (some u) h k = h
same_text_trans (some s) none none h k = h
same_text_trans (some s) none (some u) h k = k
same_text_trans (some s) (some t) none h k = absurd (true-not-false (sym h))
same_text_trans (some s) (some t) (some u) h k =
    (eq_iff s t).1 ((eq_iff s u).0 h ∙ sym ((eq_iff t u).0 k))

same_text_sym : (s t : Option String) → same_text s t ≡ true → same_text t s ≡ true
unfolding same_text
same_text_sym none none h = refl
same_text_sym none (some t) h = h
same_text_sym (some s) none h = h
same_text_sym (some s) (some t) h = (eq_iff t s).1 (sym ((eq_iff s t).0 h))

pub held :
    {A : Type 0} (k : Bool) (o : Option A) (here there : A)
    → o ≡ (if k then some there else none)
    → elim o [ some v ↦ v | none ↦ here ] ≡ (if k then there else here)
held true o here there e = rw e refl
held false o here there e = rw e refl

neither :
    {A : Type 0} {s h : Bool} (here there : A)
    → s ≡ false
    → h ≡ false
    → (if not s && h then there else here) ≡ here
neither here there e f = rw (e, f) refl

only_theirs :
    {A : Type 0} {s h t : Bool} (here there : A)
    → s ≡ false
    → h ≡ false
    → t ≡ true
    → (if not s && (not h && t) then here else there) ≡ here
only_theirs here there e f g = rw (e, f, g) refl

pub clash_only :
    (s h t : Bool)
    → (not s && (not h && not t)) ≡ true
    → ((not s && h) ≡ false) × ((not s && (not h && t)) ≡ false)
clash_only s h t e = ground arith

module _ {Value : Type 0} (stringify : Value → String) where
  pub equal_refl : (v : Option Value) → equal stringify v v ≡ true
  unfolding equal
  equal_refl v = same_text_refl (text_of stringify v)

  equal_sym : (v w : Option Value) → equal stringify v w ≡ true → equal stringify w v ≡ true
  unfolding equal
  equal_sym v w h = same_text_sym (text_of stringify v) (text_of stringify w) h

  equal_trans :
      (u v w : Option Value)
      → equal stringify u w ≡ true
      → equal stringify v w ≡ true
      → equal stringify u v ≡ true
  unfolding equal
  equal_trans u v w h k =
      same_text_trans (text_of stringify u) (text_of stringify v) (text_of stringify w) h k

  pub agreement :
      (s h t : Bool) (here there a b : Option Value)
      → s ≡ equal stringify here there
      → a ≡ (if not s && h then there else here)
      → b ≡ (if not s && (not h && t) then here else there)
      → (not s && (not h && not t)) ≡ false
      → equal stringify a b ≡ true
  agreement true h t here there a b q e f n = rw (e, f) (sym q)
  agreement false true t here there a b q e f n = rw (e, f) (equal_refl there)
  agreement false false true here there a b q e f n = rw (e, f) (equal_refl here)
  agreement false false false here there a b q e f n = absurd (true-not-false n)

  pub change_kept :
      (before here there a b : Option Value)
      → equal stringify there before ≡ true
      → a
        ≡ (if not (equal stringify here there) && equal stringify here before then there else here)
      → b ≡ (
          if not (equal stringify here there)
            && (not (equal stringify here before) && equal stringify there before)
          then here
          else there)
      → (a ≡ here) × (equal stringify b here ≡ true)
  change_kept before here there a b t e f = elim (Bool-cases (equal stringify here there)) [
    | inl s ↦ (
      e ∙ ap (λ q. if not q && equal stringify here before then there else here) s,
      ap (λ v. equal stringify v here)
            (f
              ∙ ap
                  (λ q.
                    if not q && (not (equal stringify here before) && equal stringify there before)
                    then here
                    else there)
                  s)
          ∙ equal_sym here there s,
    )
    | inr s ↦ elim (Bool-cases (equal stringify here before)) [
      | inl h ↦ absurd (true-not-false (sym (equal_trans here there before h t) ∙ s))
      | inr h ↦
          let given : b ≡ here = f ∙ only_theirs here there s h t in
          (e ∙ neither here there s h, ap (λ v. equal stringify v here) given ∙ equal_refl here)
    ]
  ]
