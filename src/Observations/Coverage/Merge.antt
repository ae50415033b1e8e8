-- ===== src/Observations/Coverage/Merge.antt =====
-- `mergeCoverage` of integrations/timesheets/app/observations.ts and what two coverages confirm.
use atomic_plugins.Prelude.{
  ℕ, ◌≡◌, sym, ap, ◌∙◌, inl, inr, String, str_eq, none, List, [], ◌∷◌, if◌then◌else◌, Bool-cases,
}
use atomic_plugins.Observations.Coverage.{CoverageSegment, add_coverage, merge_coverage}
use atomic_plugins.Observations.Coverage.Times.{
  latest_of, latest_of-none, latest_of_comm, latest_of_assoc, latest_of_idem, given, at_time,
}
use atomic_plugins.Observations.Coverage.Latest.{latest, latest-add_coverage}

module _ (ms : String → ℕ) where
  latest_cons :
      (s : CoverageSegment) (b : List CoverageSegment) (key : String) (t : ℕ)
      → latest ms (s ∷ b) key t
        ≡ latest_of (if str_eq s.key key then given ms s t else none) (latest ms b key t)
  unfolding at_time
  latest_cons s b key t = elim (Bool-cases (str_eq s.key key)) [
    | inl same ↦ rw same
    | inr other ↦ rw other
  ]

  -- An instant's confirmation in the merged coverage is the later of its confirmations in the two,
  -- for every key: whatever order and form the segments have, none is lost and none is made up.
  pub latest-merge_coverage :
      (a b : List CoverageSegment) (key : String) (t : ℕ)
      → latest ms (merge_coverage ms a b) key t ≡ latest_of (latest ms a key t) (latest ms b key t)
  unfolding merge_coverage at_time
  latest-merge_coverage a [] key t = sym (latest_of-none (latest ms a key t))
  latest-merge_coverage a (s ∷ b) key t =
      latest-merge_coverage (add_coverage ms a s.key s.from s.to s.confirmed_at) b key t
      ∙ ap (λ x. latest_of x (latest ms b key t)) (latest-add_coverage ms a s key t)
      ∙ latest_of_assoc (latest ms a key t) (if str_eq s.key key then given ms s t else none)
          (latest ms b key t)
      ∙ ap (latest_of (latest ms a key t)) (sym (latest_cons s b key t))

  -- So merging is commutative and idempotent up to the form of the segments.
  pub merge_coverage_comm :
      (a b : List CoverageSegment) (key : String) (t : ℕ)
      → (latest ms (merge_coverage ms a b) key t ≡ latest ms (merge_coverage ms b a) key t)
        × (latest ms (merge_coverage ms a a) key t ≡ latest ms a key t)
  merge_coverage_comm a b key t = (
    latest-merge_coverage a b key t
        ∙ latest_of_comm (latest ms a key t) (latest ms b key t)
        ∙ sym (latest-merge_coverage b a key t),
    latest-merge_coverage a a key t ∙ latest_of_idem (latest ms a key t),
  )
