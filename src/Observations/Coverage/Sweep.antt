-- ===== src/Observations/Coverage/Sweep.antt =====
-- The sweep of `addCoverage` (integrations/timesheets/app/observations.ts) over the points.
use atomic_plugins.Prelude.{
  ℕ, ◌≤◌, ◌<◌, ◌≡◌, refl, sym, ap, ◌∙◌, ◌⊎◌, inl, inr, String, Bool, true, false, ◌&&◌, Option,
  none, List, [], ◌∷◌, leb, ltb, leb→le, if◌then◌else◌, arith, All, All_weaken, Bool-cases,
}
use atomic_plugins.Observations.Coverage.{
  CoverageSegment, Bounds, get_bound, covering, push_covered, sweep,
}
use atomic_plugins.Observations.Coverage.Times.{
  latest_of, latest_of-none, latest_of_assoc, covers, at_time, IsProper, at_time-push_span,
  push_span-IsProper, best, later-best, Splits, at_time-best,
}
use atomic_plugins.Observations.Coverage.Points.{Among, Ascending, Ascending-Among}

module _ (ms : String → ℕ) (key : String) (bs : Bounds) (spans : List CoverageSegment) where
  abbrev within : Bool → Option ℕ → Option ℕ
  within b x = if b then x else none

  push_covered_lem :
      (a b t : ℕ) (merged cs : List CoverageSegment)
      → a ≤ b
      → ms (get_bound a bs) ≡ a
      → ms (get_bound b bs) ≡ b
      → All (IsProper ms) merged
      → (leb a t && ltb t b ≡ true → at_time ms spans t ≡ best ms cs)
      → at_time ms (push_covered ms key bs a b merged cs) t
        ≡ latest_of (at_time ms merged t) (within (leb a t && ltb t b) (at_time ms spans t))
  unfolding push_covered best
  push_covered_lem a b t merged [] le ea eb h e = elim (Bool-cases (leb a t && ltb t b)) [
    | inl inside ↦ rw (inside, e inside) (sym (latest_of-none _))
    | inr outside ↦ rw outside (sym (latest_of-none _))
  ]
  push_covered_lem a b t merged (c ∷ cs) le ea eb h e =
      at_time-push_span ms a merged _ t h ea (omega arith)
      ∙ elim (Bool-cases (leb a t && ltb t b)) [
        | inl inside ↦
            rw (ea, eb, inside, e inside) (ap (latest_of _) (later-best ms c.confirmed_at cs))
        | inr outside ↦ rw (ea, eb, outside)
      ]

  push_covered-IsProper :
      (a b : ℕ) (merged cs : List CoverageSegment)
      → a ≤ b
      → ms (get_bound a bs) ≡ a
      → ms (get_bound b bs) ≡ b
      → All (IsProper ms) merged
      → All (IsProper ms) (push_covered ms key bs a b merged cs)
  unfolding push_covered
  push_covered-IsProper a b merged [] le ea eb h = h
  push_covered-IsProper a b merged (c ∷ cs) le ea eb h =
      push_span-IsProper ms a merged _ h ea (omega arith)

  -- The ends of a span that the sweep has still to meet are among the points left.
  abbrev pub Known : ℕ → List ℕ → CoverageSegment → Type 0
  Known a ps c = ((ms c.from ≤ a) ⊎ Among (ms c.from) ps) × ((ms c.to ≤ a) ⊎ Among (ms c.to) ps)

  Known-Splits :
      (a b : ℕ) (ps : List ℕ) (c : CoverageSegment)
      → Ascending b ps
      → Known a (b ∷ ps) c
      → Splits ms a b c
  Known-Splits a b ps c r (from, to) = (part (ms c.from) from, part (ms c.to) to)
    where
      part : (x : ℕ) → (x ≤ a) ⊎ Among x (b ∷ ps) → (x ≤ a) ⊎ (b ≤ x)
      part x (inl h) = inl h
      part x (inr (inl e)) = inr (omega arith)
      part x (inr (inr h)) = inr (Ascending-Among b x ps r h)

  Known-next :
      (a b : ℕ) (ps : List ℕ) (c : CoverageSegment) → a ≤ b → Known a (b ∷ ps) c → Known b ps c
  Known-next a b ps c le (from, to) = (part (ms c.from) from, part (ms c.to) to)
    where
      part : (x : ℕ) → (x ≤ a) ⊎ Among x (b ∷ ps) → (x ≤ b) ⊎ Among x ps
      part x (inl h) = inl (omega arith)
      part x (inr (inl e)) = inl (omega arith)
      part x (inr (inr h)) = inr h

  past_all :
      (a t : ℕ) (cs : List CoverageSegment) → a ≤ t → All (Known a []) cs → at_time ms cs t ≡ none
  unfolding at_time
  past_all a t [] le h = refl
  past_all a t (c ∷ cs) le ((from, to), h) =
      let outside : covers ms c t ≡ false = ground arith in rw (outside, past_all a t cs le h)

  inside_bounds : (a b t : ℕ) → (leb a t && ltb t b) ≡ true → (a ≤ t) × (t < b)
  inside_bounds a b t h = ground arith

  two_parts :
      (a b t : ℕ) (x y : Option ℕ)
      → a ≤ b
      → latest_of (latest_of x (within (leb a t && ltb t b) y)) (within (leb b t) y)
        ≡ latest_of x (within (leb a t) y)
  two_parts a b t x y le =
      latest_of_assoc x (within (leb a t && ltb t b) y) (within (leb b t) y)
      ∙ ap (latest_of x) (elim (Bool-cases (leb b t)) [
        | inl after ↦
            let late : (leb a t && ltb t b) ≡ false = ground arith in
            let long : leb a t ≡ true = ground arith in rw (after, late, long)
        | inr before ↦
            let same : (leb a t && ltb t b) ≡ leb a t = ground arith in
            rw (before, same) (latest_of-none (within (leb a t) y))
      ])

  pub at_time-sweep :
      (a : ℕ) (ps : List ℕ) (merged : List CoverageSegment) (t : ℕ)
      → Ascending a ps
      → All (Known a ps) spans
      → All (IsProper ms) merged
      → ((x : ℕ) → Among x (a ∷ ps) → ms (get_bound x bs) ≡ x)
      → at_time ms (sweep ms key bs spans (a ∷ ps) merged) t
        ≡ latest_of (at_time ms merged t) (within (leb a t) (at_time ms spans t))
  unfolding sweep
  at_time-sweep a [] merged t r k h g = elim (Bool-cases (leb a t)) [
    | inl after ↦ rw (after, past_all a t spans (leb→le a t after) k) (sym (latest_of-none _))
    | inr before ↦ rw before (sym (latest_of-none _))
  ]
  at_time-sweep a (b ∷ ps) merged t (le, r) k h g =
      let ea = g a (inl refl) in
      let eb = g b (inr (inl refl)) in
      at_time-sweep b ps _ t r
        (All_weaken (Known a (b ∷ ps)) (Known b ps) (λ c q. Known-next a b ps c le q) spans k)
        (push_covered-IsProper a b merged (covering ms a b spans) le ea eb h) (λ x q. g x (inr q))
      ∙ ap (λ z. latest_of z (within (leb b t) (at_time ms spans t)))
          (push_covered_lem a b t merged (covering ms a b spans) le ea eb h (λ inside.
            at_time-best ms a b t spans (inside_bounds a b t inside).0
              (inside_bounds a b t inside).1
              (All_weaken (Known a (b ∷ ps)) (Splits ms a b) (λ c q. Known-Splits a b ps c r q)
                spans k)))
      ∙ two_parts a b t (at_time ms merged t) (at_time ms spans t) le
