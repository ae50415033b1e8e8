-- ===== src/Observations/Coverage/Order.antt =====
-- The order of a key's segments (integrations/timesheets/app/observations.ts).
use atomic_plugins.Prelude.{
  keep, ℕ, ◌≤◌, ◌<◌, ◌≡◌, ◌≢◌, refl, inl, inr, String, str_eq, eq_iff, false, List, [], ◌∷◌, ◌++◌,
  ltb, ltb→lt, arith, All, All_weaken, Pairs, Bool-cases,
}
use atomic_plugins.Observations.Coverage.{
  CoverageSegment, Bounds, get_bound, sort_points, bounds_of, covering, push_span, push_covered,
  sweep, has_key, merged_spans, add_coverage, merge_coverage,
}
use atomic_plugins.Observations.Coverage.Points.{
  Among, Ascending, Among-of_sort, Ascending-sort_points, times, get_bound-Named, bounds_of_lem,
}
use atomic_plugins.Observations.Coverage.Latest.{
  added, keep-added_own, keep-added_foreign, add_coverage-added,
}

module _ (ms : String → ℕ) where
  abbrev pub Before : CoverageSegment → CoverageSegment → Type 0
  Before c d = (ms c.from ≤ ms d.from) × (ms c.to ≤ ms d.from)

  abbrev From : ℕ → ℕ → CoverageSegment → Type 0
  From j k c = (j ≤ ms c.from) × (k ≤ ms c.from)

  abbrev UpTo : ℕ → CoverageSegment → Type 0
  UpTo b c = (ms c.from ≤ b) × (ms c.to ≤ b)

  push_span-From :
      (j k a : ℕ) (cs : List CoverageSegment) (c : CoverageSegment)
      → All (From j k) cs
      → From j k c
      → All (From j k) (push_span ms a cs c)
  unfolding push_span
  push_span-From j k a [] c h f = (f, tt)
  push_span-From j k a (l ∷ []) c (p, h) f = ground arith
  push_span-From j k a (l ∷ m ∷ cs) c (p, h) f = (p, push_span-From j k a (m ∷ cs) c h f)

  -- The segments made so far: sorted, and ending by `a`.
  abbrev Done : ℕ → List CoverageSegment → Type 0
  Done a cs = Pairs Before cs × All (UpTo a) cs

  push_span-Done :
      (a b : ℕ) (cs : List CoverageSegment) (c : CoverageSegment)
      → Done a cs
      → ms c.from ≡ a
      → ms c.to ≡ b
      → a ≤ b
      → Done b (push_span ms a cs c)
  unfolding push_span
  push_span-Done a b [] c d from to le = ((tt, tt), ((omega arith, omega arith), tt))
  push_span-Done a b (l ∷ []) c d from to le = ground arith
  push_span-Done a b (l ∷ m ∷ cs) c ((p, h), (u, v)) from to le =
      let (h', v') = push_span-Done a b (m ∷ cs) c (h, v) from to le in
      (
        (push_span-From (ms l.from) (ms l.to) a (m ∷ cs) c p (omega arith, omega arith), h'),
        ((omega arith, omega arith), v'),
      )

  push_covered-Done :
      (key : String) (bs : Bounds) (a b : ℕ) (merged cs : List CoverageSegment)
      → a ≤ b
      → ms (get_bound a bs) ≡ a
      → ms (get_bound b bs) ≡ b
      → Done a merged
      → Done b (push_covered ms key bs a b merged cs)
  unfolding push_covered
  push_covered-Done key bs a b merged [] le ea eb (h, u) =
      (h, All_weaken (UpTo a) (UpTo b) (λ c q. (omega arith, omega arith)) merged u)
  push_covered-Done key bs a b merged (c ∷ cs) le ea eb d = push_span-Done a b merged _ d ea eb le

  sweep-Done :
      (key : String) (bs : Bounds) (spans : List CoverageSegment) (a : ℕ) (ps : List ℕ)
      (merged : List CoverageSegment)
      → Ascending a ps
      → ((x : ℕ) → Among x (a ∷ ps) → ms (get_bound x bs) ≡ x)
      → Done a merged
      → Pairs Before (sweep ms key bs spans (a ∷ ps) merged)
  unfolding sweep
  sweep-Done key bs spans a [] merged r g d = d.0
  sweep-Done key bs spans a (b ∷ ps) merged (le, r) g d =
      sweep-Done key bs spans b ps _ r (λ x q. g x (inr q))
        (push_covered-Done key bs a b merged (covering ms a b spans) le (g a (inl refl))
          (g b (inr (inl refl))) d)

  start :
      (key : String) (bs : Bounds) (spans : List CoverageSegment) (ps : List ℕ)
      → Ascending 0 ps
      → ((x : ℕ) → Among x ps → ms (get_bound x bs) ≡ x)
      → Pairs Before (sweep ms key bs spans ps [])
  unfolding sweep
  start key bs spans [] r g = tt
  start key bs spans (p ∷ ps) r g = sweep-Done key bs spans p ps [] r.1 g (tt, tt)

  pub merged_spans-sorted :
      (key : String) (spans : List CoverageSegment) → Pairs Before (merged_spans ms key spans)
  unfolding merged_spans
  merged_spans-sorted key spans =
      let (named, _, _) = bounds_of_lem ms spans [] tt in
      let bs = bounds_of ms spans [] in
      start key bs spans (sort_points (times bs)) (Ascending-sort_points (times bs))
        (λ x q. get_bound-Named ms x bs named (Among-of_sort x (times bs) q))

  -- For each key, the segments in the list are in the order of time and do not overlap.
  abbrev pub IsOrdered : List CoverageSegment → Type 0
  IsOrdered coverage = (key : String) → Pairs Before (keep (has_key key) coverage)

  own :
      (coverage : List CoverageSegment) (s : CoverageSegment)
      → ms s.from < ms s.to
      → Pairs Before
          (keep (has_key s.key) (add_coverage ms coverage s.key s.from s.to s.confirmed_at))
  own coverage s h =
      rw (add_coverage-added ms coverage s h, keep-added_own ms coverage s)
        (merged_spans-sorted s.key (keep (has_key s.key) coverage ++ s ∷ []))

  foreign :
      (coverage : List CoverageSegment) (s : CoverageSegment) (key : String)
      → s.key ≢ key
      → keep (has_key key) (add_coverage ms coverage s.key s.from s.to s.confirmed_at)
        ≡ keep (has_key key) coverage
  unfolding add_coverage added
  foreign coverage s key n = elim (Bool-cases (ltb (ms s.from) (ms s.to))) [
    | inl forward ↦ rw forward (keep-added_foreign ms coverage s key n)
    | inr empty ↦ rw empty
  ]

  pub unchanged :
      (coverage : List CoverageSegment) (s : CoverageSegment)
      → ltb (ms s.from) (ms s.to) ≡ false
      → add_coverage ms coverage s.key s.from s.to s.confirmed_at ≡ coverage
  unfolding add_coverage
  unchanged coverage s h = rw h

  ordered :
      (coverage : List CoverageSegment) (s : CoverageSegment) (key : String)
      → IsOrdered coverage
      → Pairs Before
          (keep (has_key key) (add_coverage ms coverage s.key s.from s.to s.confirmed_at))
  ordered coverage s key v = elim (Bool-cases (ltb (ms s.from) (ms s.to))) [
    | inr empty ↦ rw (unchanged coverage s empty) (v key)
    | inl forward ↦ elim (Bool-cases (str_eq s.key key)) [
      | inl same ↦ rw (← (eq_iff s.key key).0 same) (own coverage s (ltb→lt _ _ forward))
      | inr other ↦ rw (foreign coverage s key (λ e. ground (arith, eq_iff s.key key))) (v key)
    ]
  ]

  -- Adding a span keeps the segments of every key sorted and disjoint.
  pub add_coverage-IsOrdered :
      (coverage : List CoverageSegment) (s : CoverageSegment)
      → IsOrdered coverage
      → IsOrdered (add_coverage ms coverage s.key s.from s.to s.confirmed_at)
  add_coverage-IsOrdered coverage s v key = ordered coverage s key v

  -- Merging spans of any form and order into a coverage that is sorted and disjoint for every key
  -- gives one that is.
  pub merge_coverage-IsOrdered :
      (a b : List CoverageSegment) → IsOrdered a → IsOrdered (merge_coverage ms a b)
  unfolding merge_coverage
  merge_coverage-IsOrdered a [] v = v
  merge_coverage-IsOrdered a (s ∷ b) v =
      merge_coverage-IsOrdered (add_coverage ms a s.key s.from s.to s.confirmed_at) b
        (add_coverage-IsOrdered a s v)
