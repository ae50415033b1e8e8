-- ===== src/Observations/Fold/Alike.antt =====
-- Coverages that differ in the order of their segments only.
use atomic_plugins.Prelude.{
  keep, ℕ, String, eq_iff, All, All_weaken, Pairs, true, false, Bool-cases, not, List, [], ◌∷◌,
  ◌++◌, ◌≡◌, ◌≤◌, inl, inr, ap, sym, subst, ◌∙◌, arith, ltb, ltb→lt, if◌then◌else◌,
}
use atomic_plugins.Prelude.JsText.{text_lt}
use atomic_plugins.Prelude.TextOrder.{text_lt_irrefl, text_lt_asym, text_lt_trans}
use atomic_plugins.Prelude.Sorting.{sort_by, IsWeakOrder, InOrder, keep-sort_by}
use atomic_plugins.Prelude.Reordering.{sort_by-InOrder, sort_by-sort_by}
use atomic_plugins.Observations.Coverage.{CoverageSegment, has_key, add_coverage, merged_spans}
use atomic_plugins.Observations.Coverage.Latest.{added, add_coverage-added}
use atomic_plugins.Observations.Coverage.Order.{
  Before, IsOrdered, add_coverage-IsOrdered, unchanged,
}
use atomic_plugins.Observations.Types.{ObservationHeader, Scope, range_scope, id_scope}
use atomic_plugins.Observations.Fold.{coverage_key, covered, segment_before}

module _ (ms : String → ℕ) where
  segment_before_asym :
      (x y : CoverageSegment) → segment_before ms x y ≡ true → segment_before ms y x ≡ false
  segment_before_asym x y h = ground (arith, text_lt_asym x.key y.key, text_lt_asym y.key x.key)

  segment_before_trans :
      (x y z : CoverageSegment)
      → segment_before ms y x ≡ false
      → segment_before ms z y ≡ false
      → segment_before ms z x ≡ false
  segment_before_trans x y z h k = ground (
    arith,
    text_lt_trans x.key y.key z.key,
    text_lt_trans z.key y.key x.key,
    text_lt_trans y.key z.key x.key,
    text_lt_trans y.key x.key z.key,
    text_lt_trans z.key x.key y.key,
    text_lt_trans x.key z.key y.key,
  )

  pub segment_before-IsWeakOrder : IsWeakOrder (segment_before ms)
  segment_before-IsWeakOrder = record { asym = segment_before_asym; trans = segment_before_trans }

  abbrev pub sorted : List CoverageSegment → List CoverageSegment
  sorted = sort_by (segment_before ms)

  not_before :
      (c d : CoverageSegment)
      → d.key ≡ c.key
      → ms c.from ≤ ms d.from
      → segment_before ms d c ≡ false
  not_before c d e p =
      let same = ap (λ k. text_lt k c.key) e ∙ text_lt_irrefl c.key in ground (arith, same)

  in_front :
      (c : CoverageSegment) (cs : List CoverageSegment)
      → All (λ d. d.key ≡ c.key) cs
      → All (Before ms c) cs
      → All (InOrder (segment_before ms) c) cs
  in_front c [] k h = tt
  in_front c (d ∷ cs) (e, k) (p, h) = (not_before c d e p.0, in_front c cs k h)

  in_order :
      (key : String) (cs : List CoverageSegment)
      → All (λ c. c.key ≡ key) cs
      → Pairs (Before ms) cs
      → Pairs (InOrder (segment_before ms)) cs
  in_order key [] k h = tt
  in_order key (c ∷ cs) (e, k) (p, h) = (
    in_front c cs (All_weaken (λ d. d.key ≡ key) (λ d. d.key ≡ c.key) (λ d q. q ∙ sym e) cs k) p,
    in_order key cs k h,
  )

  own_key :
      (key : String) (cs : List CoverageSegment) → All (λ c. c.key ≡ key) (keep (has_key key) cs)
  own_key key [] = tt
  own_key key (c ∷ cs) = ground (arith, eq_iff c.key key, own_key key cs)

  -- The segments of a key that are in the order of time are in that of `sortCoverage`.
  own_sorted :
      (key : String) (cs : List CoverageSegment)
      → IsOrdered ms cs
      → keep (has_key key) (sorted cs) ≡ keep (has_key key) cs
  own_sorted key cs o =
      keep-sort_by (segment_before ms) segment_before-IsWeakOrder (has_key key) cs
      ∙ sort_by-InOrder (segment_before ms) segment_before-IsWeakOrder (keep (has_key key) cs)
          (in_order key (keep (has_key key) cs) (own_key key cs) (o key))

  pub sorted-IsOrdered : (cs : List CoverageSegment) → IsOrdered ms cs → IsOrdered ms (sorted cs)
  sorted-IsOrdered cs o key = rw (own_sorted key cs o) (o key)

  -- Two coverages that sort to the same.
  abbrev pub AreAlike : List CoverageSegment → List CoverageSegment → Type 0
  AreAlike cs ds = IsOrdered ms cs × IsOrdered ms ds × (sorted cs ≡ sorted ds)

  others :
      (key : String) (cs more : List CoverageSegment)
      → sorted (keep (λ c. not (has_key key c)) cs ++ more)
        ≡ sorted (keep (λ c. not (has_key key c)) (sorted cs) ++ more)
  others key cs more = sym (
      ap (λ l. sorted (l ++ more))
        (keep-sort_by (segment_before ms) segment_before-IsWeakOrder (λ c. not (has_key key c)) cs)
      ∙ sort_by-sort_by (segment_before ms) segment_before-IsWeakOrder
          (keep (λ c. not (has_key key c)) cs) more)

  abbrev respanned : CoverageSegment → List CoverageSegment → List CoverageSegment
  respanned s cs = merged_spans ms s.key (keep (has_key s.key) cs ++ s ∷ [])

  added_alike :
      (s : CoverageSegment) (cs ds : List CoverageSegment)
      → AreAlike cs ds
      → sorted (added ms s cs) ≡ sorted (added ms s ds)
  unfolding added
  added_alike s cs ds (o, p, e) =
      let own =
        sym (own_sorted s.key cs o) ∙ (ap (keep (has_key s.key)) e ∙ own_sorted s.key ds p) in
      others s.key cs (respanned s cs)
      ∙ (ap (λ l. sorted (keep (λ c. not (has_key s.key c)) l ++ respanned s cs)) e
          ∙ (sym (others s.key ds (respanned s cs))
              ∙ ap
                  (λ l.
                    sorted
                      (keep (λ c. not (has_key s.key c)) ds ++ merged_spans ms s.key (l ++ s ∷ [])))
                  own))

  add_coverage_alike :
      (s : CoverageSegment) (cs ds : List CoverageSegment)
      → AreAlike cs ds
      → AreAlike
          (add_coverage ms cs s.key s.from s.to s.confirmed_at)
          (add_coverage ms ds s.key s.from s.to s.confirmed_at)
  add_coverage_alike s cs ds (o, p, e) = (
    add_coverage-IsOrdered ms cs s o,
    add_coverage-IsOrdered ms ds s p,
    elim (Bool-cases (ltb (ms s.from) (ms s.to))) [
      | inl forward ↦
          let h = ltb→lt (ms s.from) (ms s.to) forward in
          rw (add_coverage-added ms cs s h, add_coverage-added ms ds s h)
            (added_alike s cs ds (o, p, e))
      | inr empty ↦ rw (unchanged ms cs s empty, unchanged ms ds s empty) e
    ],
  )

  pub covered_alike :
      (h : ObservationHeader) (s : Scope) (cs ds : List CoverageSegment)
      → AreAlike cs ds
      → AreAlike (covered ms h s cs) (covered ms h s ds)
  unfolding covered
  covered_alike h (id_scope s) cs ds a = a
  covered_alike h (range_scope s) cs ds a = elim (Bool-cases h.complete) [
    | inl e ↦
        subst
          (λ b.
            AreAlike
              (if b then add_coverage ms cs (coverage_key s) s.from s.to h.received_at else cs)
              (if b then add_coverage ms ds (coverage_key s) s.from s.to h.received_at else ds))
          (sym e)
          (add_coverage_alike
            (record {
              key = coverage_key s;
              from = s.from;
              to = s.to;
              confirmed_at = h.received_at;
            })
            cs ds a)
    | inr e ↦
        subst
          (λ b.
            AreAlike
              (if b then add_coverage ms cs (coverage_key s) s.from s.to h.received_at else cs)
              (if b then add_coverage ms ds (coverage_key s) s.from s.to h.received_at else ds))
          (sym e) a
  ]
