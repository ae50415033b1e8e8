-- ===== src/Observations/Fold/Snapshot.antt =====
-- Folding onto a mirror that was folded before.
use atomic_plugins.Prelude.{ℕ, String, All, List, [], ◌∷◌, ◌++◌, ◌≡◌, ap, refl, sym, ◌∙◌}
use atomic_plugins.Prelude.Sorting.{sort_by, InOrder, InOrder-sort_by}
use atomic_plugins.Prelude.Reordering.{sort_by-append, sort_by-InOrder}
use atomic_plugins.Observations.Coverage.{CoverageSegment}
use atomic_plugins.Observations.Coverage.Order.{IsOrdered}
use atomic_plugins.Observations.Types.{ObservationHeader, Incremental, Mirror, Scope}
use atomic_plugins.Observations.Fold.{
  incremental_before, covered, upsert_all, mark_all, apply_incremental, apply_all, fold,
  segment_before,
}
use atomic_plugins.Observations.Fold.Order.{incremental_before-IsWeakOrder}
use atomic_plugins.Observations.Fold.Alike.{
  segment_before-IsWeakOrder, sorted, AreAlike, sorted-IsOrdered, covered_alike,
}

module _ (ms : String → ℕ) where
  -- The mirror as `fold` leaves it.
  abbrev settled : Mirror → Mirror
  settled m = record m { coverage = sorted ms m.coverage }

  apply_all_alike :
      (is : List Incremental) (m n : Mirror)
      → m.records ≡ n.records
      → AreAlike ms m.coverage n.coverage
      → settled (apply_all ms m is) ≡ settled (apply_all ms n is)
  unfolding apply_all apply_incremental
  apply_all_alike [] m n r a = λ k. record { records = r k; coverage = a.2 k }
  apply_all_alike (i ∷ is) m n r a =
      apply_all_alike is (apply_incremental ms m i) (apply_incremental ms n i)
        (ap (λ l. mark_all i.header i.absent (upsert_all i.header i.upserts l)) r)
        (covered_alike ms i.header i.header.scope m.coverage n.coverage a)

  apply_all-append :
      (m : Mirror) (is js : List Incremental)
      → apply_all ms m (is ++ js) ≡ apply_all ms (apply_all ms m is) js
  unfolding apply_all
  apply_all-append m [] js = refl
  apply_all-append m (i ∷ is) js = apply_all-append (apply_incremental ms m i) is js

  covered-IsOrdered :
      (h : ObservationHeader) (s : Scope) (cs : List CoverageSegment)
      → IsOrdered ms cs
      → IsOrdered ms (covered ms h s cs)
  covered-IsOrdered h s cs o = (covered_alike ms h s cs cs (o, o, refl)).0

  apply_all-IsOrdered :
      (m : Mirror) (is : List Incremental)
      → IsOrdered ms m.coverage
      → IsOrdered ms (apply_all ms m is).coverage
  unfolding apply_all apply_incremental
  apply_all-IsOrdered m [] o = o
  apply_all-IsOrdered m (i ∷ is) o =
      apply_all-IsOrdered (apply_incremental ms m i) is
        (covered-IsOrdered i.header i.header.scope m.coverage o)

  -- Folding a first part of the differences and the rest onto the mirror that gives is folding all
  -- of them, where none of the rest comes before one of the first part in the order of the fold. In
  -- the coverage to start from the segments of each key are in the order of time and do not overlap.
  pub fold-append :
      (base : Mirror) (is js : List Incremental)
      → IsOrdered ms base.coverage
      → All (λ i. All (InOrder (incremental_before ms) i) js) is
      → fold ms (fold ms base is) js ≡ fold ms base (is ++ js)
  unfolding fold
  fold-append base is js o h =
      let w = incremental_before-IsWeakOrder ms in
      let front = sort_by (incremental_before ms) is in
      let rest = sort_by (incremental_before ms) js in
      let m = apply_all ms base front in
      let p = apply_all-IsOrdered base front o in
      apply_all_alike rest (settled m) m refl (
        sorted-IsOrdered ms m.coverage p,
        p,
        sort_by-InOrder (segment_before ms) (segment_before-IsWeakOrder ms) (sorted ms m.coverage)
            (InOrder-sort_by (segment_before ms) (segment_before-IsWeakOrder ms) m.coverage),
      )
      ∙ ap settled (
          sym (apply_all-append base front rest)
          ∙ ap (apply_all ms base) (sym (sort_by-append (incremental_before ms) w is js h)))
