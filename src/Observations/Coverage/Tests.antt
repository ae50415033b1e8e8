-- ===== src/Observations/Coverage/Tests.antt =====
-- Coverage on a clock with one digit.
use Prim.Native.Char.{code}
use atomic_plugins.Prelude.{ℕ, ◌-◌, ◌≡◌, refl, String, str_eq, none, List, [], ◌∷◌, if◌then◌else◌}
use atomic_plugins.Observations.Coverage.{CoverageSegment, add_coverage, merge_coverage}
use atomic_plugins.Observations.Coverage.Times.{latest_of, given}
use atomic_plugins.Observations.Coverage.Latest.{latest, latest-add_coverage}
use atomic_plugins.Observations.Coverage.Merge.{merge_coverage_comm}

abbrev clock : String → ℕ
clock String.[] = 0
clock (String.◌∷◌ c s) = code c - 48

abbrev span : String → String → String → CoverageSegment
span from to at = record { key = "k"; from = from; to = to; confirmed_at = at }

abbrev seen : List CoverageSegment
seen = span "1" "4" "7" ∷ span "6" "8" "7" ∷ []

-- A read over [3, 7) at 9: its span is one segment, and what it does not cover keeps its time.
overlay :
    add_coverage clock seen "k" "3" "7" "9"
    ≡ span "1" "3" "7" ∷ span "3" "7" "9" ∷ span "7" "8" "7" ∷ []
unfolding add_coverage
overlay = refl

latest-add_coverage_example :
    latest clock (add_coverage clock seen "k" "3" "7" "9") "k" 5
    ≡ latest_of
        (latest clock seen "k" 5)
        (if str_eq "k" "k" then given clock (span "3" "7" "9") 5 else none)
latest-add_coverage_example = latest-add_coverage clock seen (span "3" "7" "9") "k" 5

merge_coverage_comm_example :
    (latest clock (merge_coverage clock seen (span "2" "7" "5" ∷ [])) "k" 3
      ≡ latest clock (merge_coverage clock (span "2" "7" "5" ∷ []) seen) "k" 3)
    × (latest clock (merge_coverage clock seen seen) "k" 3 ≡ latest clock seen "k" 3)
merge_coverage_comm_example = merge_coverage_comm clock seen (span "2" "7" "5" ∷ []) "k" 3
