-- ===== src/Observations/Coverage/Latest.antt =====
-- `addCoverage` (integrations/timesheets/app/observations.ts) against an independent reading: the
-- latest confirmation of each instant, for each key.
use atomic_plugins.Prelude.{
  keep, ℕ, ◌≤◌, ◌<◌, ◌≡◌, ◌≢◌, refl, sym, ap, ◌∙◌, ◌⊎◌, inl, inr, String, str_eq, eq_iff, Bool,
  false, not, Option, none, List, [], ◌∷◌, ◌++◌, leb, ltb, lt→ltb, if◌then◌else◌, arith, All,
  All_weaken, Bool-cases,
}
use mathlib.Core.List.{append-nil}
use atomic_plugins.Observations.Coverage.{
  CoverageSegment, Bounds, get_bound, sort_points, bounds_of, push_span, push_covered, sweep,
  has_key, merged_spans, add_coverage,
}
use atomic_plugins.Observations.Coverage.Times.{
  latest_of, latest_of-none, covers, given, at_time, at_time-append,
}
use atomic_plugins.Observations.Coverage.Points.{
  Among, Ascending, Among-sort_points, Among-of_sort, Ascending-sort_points, Ascending-Among, times,
  get_bound-Named, Ends, bounds_of_lem,
}
use atomic_plugins.Observations.Coverage.Sweep.{Known, at_time-sweep}

-- The latest confirmation that the segments of `key` give the instant `t`, if any covers it.
abbrev pub latest : (String → ℕ) → List CoverageSegment → String → ℕ → Option ℕ
latest ms coverage key t = at_time ms (keep (has_key key) coverage) t

module _ (ms : String → ℕ) where
  before_all :
      (p t : ℕ) (ps : List ℕ) (cs : List CoverageSegment)
      → Ascending p ps
      → t < p
      → All (Ends ms (p ∷ ps)) cs
      → at_time ms cs t ≡ none
  unfolding at_time
  before_all p t ps [] r h e = refl
  before_all p t ps (c ∷ cs) r h ((from, to), e) =
      let low = Ascending-Among p (ms c.from) (p ∷ ps) (omega arith, r) from in
      let outside : covers ms c t ≡ false = ground arith in rw (outside, before_all p t ps cs r h e)

  no-Ends : (cs : List CoverageSegment) (t : ℕ) → All (Ends ms []) cs → at_time ms cs t ≡ none
  unfolding at_time
  no-Ends [] t h = refl
  no-Ends (c ∷ cs) t h = absurd (h.0.0)

  Ends-Known :
      (key : String) (bs : Bounds) (spans : List CoverageSegment) (p : ℕ) (ps : List ℕ)
      (c : CoverageSegment)
      → Ends ms (p ∷ ps) c
      → Known ms key bs spans p ps c
  Ends-Known key bs spans p ps c (from, to) = (part (ms c.from) from, part (ms c.to) to)
    where
      part : (x : ℕ) → Among x (p ∷ ps) → (x ≤ p) ⊎ Among x ps
      part x (inl e) = inl (omega arith)
      part x (inr h) = inr h

  sweep_all :
      (key : String) (bs : Bounds) (spans : List CoverageSegment) (ps : List ℕ) (t : ℕ)
      → Ascending 0 ps
      → All (Ends ms ps) spans
      → ((x : ℕ) → Among x ps → ms (get_bound x bs) ≡ x)
      → at_time ms (sweep ms key bs spans ps []) t ≡ at_time ms spans t
  unfolding sweep at_time
  sweep_all key bs spans [] t r e g = sym (no-Ends spans t e)
  sweep_all key bs spans (p ∷ ps) t r e g =
      at_time-sweep ms key bs spans p ps [] t r.1
        (All_weaken (Ends ms (p ∷ ps)) (Known ms key bs spans p ps) (Ends-Known key bs spans p ps)
          spans e)
        tt g
      ∙ elim (Bool-cases (leb p t)) [
        | inl after ↦ rw after
        | inr before ↦ rw before (sym (before_all p t ps spans r.1 (ground arith) e))
      ]

  pub at_time-merged_spans :
      (key : String) (spans : List CoverageSegment) (t : ℕ)
      → at_time ms (merged_spans ms key spans) t ≡ at_time ms spans t
  unfolding merged_spans
  at_time-merged_spans key spans t =
      let (named, ends, _) = bounds_of_lem ms spans [] tt in
      let bs = bounds_of ms spans [] in
      sweep_all key bs spans (sort_points (times bs)) t (Ascending-sort_points (times bs))
        (All_weaken (Ends ms (times bs)) (Ends ms (sort_points (times bs)))
          (λ c q. (
            Among-sort_points (ms c.from) (times bs) q.0,
            Among-sort_points (ms c.to) (times bs) q.1,
          ))
          spans ends)
        (λ x q. get_bound-Named ms x bs named (Among-of_sort x (times bs) q))

  -- The key of every segment.
  abbrev HasKey : String → CoverageSegment → Type 0
  HasKey key c = c.key ≡ key

  push_span-HasKey :
      (a : ℕ) (key : String) (cs : List CoverageSegment) (c : CoverageSegment)
      → All (HasKey key) cs
      → HasKey key c
      → All (HasKey key) (push_span ms a cs c)
  unfolding push_span
  push_span-HasKey a key [] c h k = (k, tt)
  push_span-HasKey a key (l ∷ []) c (p, h) k = ground arith
  push_span-HasKey a key (l ∷ m ∷ cs) c (p, h) k = (p, push_span-HasKey a key (m ∷ cs) c h k)

  push_covered-HasKey :
      (key : String) (bs : Bounds) (a b : ℕ) (merged cs : List CoverageSegment)
      → All (HasKey key) merged
      → All (HasKey key) (push_covered ms key bs a b merged cs)
  unfolding push_covered
  push_covered-HasKey key bs a b merged [] h = h
  push_covered-HasKey key bs a b merged (c ∷ cs) h = push_span-HasKey a key merged _ h refl

  sweep-HasKey :
      (key : String) (bs : Bounds) (spans : List CoverageSegment) (ps : List ℕ)
      (merged : List CoverageSegment)
      → All (HasKey key) merged
      → All (HasKey key) (sweep ms key bs spans ps merged)
  unfolding sweep
  sweep-HasKey key bs spans [] merged h = h
  sweep-HasKey key bs spans (a ∷ []) merged h = h
  sweep-HasKey key bs spans (a ∷ b ∷ ps) merged h =
      sweep-HasKey key bs spans (b ∷ ps) _ (push_covered-HasKey key bs a b merged _ h)

-- `filter` and the keys.
keep-append :
    (f : CoverageSegment → Bool) (cs ds : List CoverageSegment)
    → keep f (cs ++ ds) ≡ keep f cs ++ keep f ds
keep-append f [] ds = refl
keep-append f (c ∷ cs) ds = ground (arith, keep-append f cs ds)

keep_own :
    (key : String) (cs : List CoverageSegment)
    → All (λ c. c.key ≡ key) cs
    → keep (has_key key) cs ≡ cs
keep_own key [] h = refl
keep_own key (c ∷ cs) (e, h) = ground (arith, eq_iff c.key key, keep_own key cs h)

keep_foreign :
    (key other : String) (cs : List CoverageSegment)
    → key ≢ other
    → All (λ c. c.key ≡ key) cs
    → keep (has_key other) cs ≡ []
keep_foreign key other [] n h = refl
keep_foreign key other (c ∷ cs) n (e, h) =
    ground (arith, eq_iff c.key other, keep_foreign key other cs n h)

keep_rest_own :
    (key : String) (cs : List CoverageSegment)
    → keep (has_key key) (keep (λ c. not (has_key key c)) cs) ≡ []
keep_rest_own key [] = refl
keep_rest_own key (c ∷ cs) = ground (arith, keep_rest_own key cs)

keep_rest_foreign :
    (key other : String) (cs : List CoverageSegment)
    → key ≢ other
    → keep (has_key other) (keep (λ c. not (has_key key c)) cs) ≡ keep (has_key other) cs
keep_rest_foreign key other [] n = refl
keep_rest_foreign key other (c ∷ cs) n =
    ground (arith, eq_iff c.key key, eq_iff c.key other, keep_rest_foreign key other cs n)

module _ (ms : String → ℕ) where
  merged-HasKey :
      (key : String) (spans : List CoverageSegment)
      → All (λ c. c.key ≡ key) (merged_spans ms key spans)
  unfolding merged_spans
  merged-HasKey key spans = sweep-HasKey ms key _ spans _ [] tt

  -- `addCoverage` of a span that is not empty
  unfoldable pub added : CoverageSegment → List CoverageSegment → List CoverageSegment
  added s coverage =
      keep (λ c. not (has_key s.key c)) coverage
      ++ merged_spans ms s.key (keep (has_key s.key) coverage ++ s ∷ [])

  pub keep-added_own :
      (coverage : List CoverageSegment) (s : CoverageSegment)
      → keep (has_key s.key) (added s coverage)
        ≡ merged_spans ms s.key (keep (has_key s.key) coverage ++ s ∷ [])
  unfolding added
  keep-added_own coverage s =
      let spans = keep (has_key s.key) coverage ++ s ∷ [] in
      keep-append (has_key s.key) (keep (λ c. not (has_key s.key c)) coverage)
        (merged_spans ms s.key spans)
      ∙ rw (keep_rest_own s.key coverage)
          (keep_own s.key (merged_spans ms s.key spans) (merged-HasKey s.key spans))

  pub keep-added_foreign :
      (coverage : List CoverageSegment) (s : CoverageSegment) (key : String)
      → s.key ≢ key
      → keep (has_key key) (added s coverage) ≡ keep (has_key key) coverage
  unfolding added
  keep-added_foreign coverage s key n =
      let spans = keep (has_key s.key) coverage ++ s ∷ [] in
      keep-append (has_key key) (keep (λ c. not (has_key s.key c)) coverage)
        (merged_spans ms s.key spans)
      ∙ rw (keep_foreign s.key key (merged_spans ms s.key spans) n (merged-HasKey s.key spans))
          (append-nil _ ∙ keep_rest_foreign s.key key coverage n)

  latest-added_own :
      (coverage : List CoverageSegment) (s : CoverageSegment) (t : ℕ)
      → latest ms (added s coverage) s.key t ≡ latest_of (latest ms coverage s.key t) (given ms s t)
  unfolding at_time
  latest-added_own coverage s t =
      ap (λ l. at_time ms l t) (keep-added_own coverage s)
      ∙ at_time-merged_spans ms s.key (keep (has_key s.key) coverage ++ s ∷ []) t
      ∙ at_time-append ms (keep (has_key s.key) coverage) (s ∷ []) t
      ∙ ap (latest_of (latest ms coverage s.key t)) (latest_of-none (given ms s t))

  pub add_coverage-added :
      (coverage : List CoverageSegment) (s : CoverageSegment)
      → ms s.from < ms s.to
      → add_coverage ms coverage s.key s.from s.to s.confirmed_at ≡ added s coverage
  unfolding add_coverage added
  add_coverage-added coverage s h = rw (lt→ltb (ms s.from) (ms s.to) h)

  -- What adding a span does to the latest confirmation of an instant `t` of `key`: if the span is
  -- of that key and covers `t`, it counts with what was there; all else stays as it was. This holds
  -- of every coverage and every span, also an empty one or one that runs backwards.
  pub latest-add_coverage :
      (coverage : List CoverageSegment) (s : CoverageSegment) (key : String) (t : ℕ)
      → latest ms (add_coverage ms coverage s.key s.from s.to s.confirmed_at) key t
        ≡ latest_of (latest ms coverage key t) (if str_eq s.key key then given ms s t else none)
  unfolding add_coverage added
  latest-add_coverage coverage s key t = elim (Bool-cases (ltb (ms s.from) (ms s.to))) [
    | inl forward ↦ rw forward (elim (Bool-cases (str_eq s.key key)) [
      | inl same ↦ rw (same, ← (eq_iff s.key key).0 same) (latest-added_own coverage s t)
      | inr other ↦ rw other (
          ap (λ l. at_time ms l t)
            (keep-added_foreign coverage s key (λ e. ground (arith, eq_iff s.key key)))
          ∙ sym (latest_of-none (latest ms coverage key t)))
    ])
    | inr empty ↦ rw empty (
        let outside : given ms s t ≡ none = ground arith in
        rw outside (elim (Bool-cases (str_eq s.key key)) [
          | inl same ↦ rw same (sym (latest_of-none (latest ms coverage key t)))
          | inr other ↦ rw other (sym (latest_of-none (latest ms coverage key t)))
        ]))
  ]
