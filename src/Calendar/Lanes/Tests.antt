-- ===== src/Calendar/Lanes/Tests.antt =====
-- A column with three events that overlap and one after them.
use atomic_plugins.Prelude.{ℕ, ◌<◌, ◌≡◌, refl, false, none, List, [], ◌∷◌, map, arith, All, Pairs}
use atomic_plugins.Calendar.Lanes.{Segment, pack_column}
use atomic_plugins.Calendar.Lanes.Layout.{Apart}
use atomic_plugins.Calendar.Lanes.Column.{pack_column-Apart}

abbrev piece : ℕ → ℕ → ℕ → Segment ℕ
piece n start end = record {
  event = n;
  date = "2026-03-02";
  all_day = false;
  start_min = start;
  end_min = end;
  day_of = none;
}

abbrev column : List (Segment ℕ)
column = piece 1 540 600 ∷ piece 2 550 660 ∷ piece 3 610 640 ∷ piece 4 660 700 ∷ []

lanes_of_column :
    map {B = ℕ × ℕ × ℕ} (λ b. (b.lane, b.lanes, b.cluster)) (pack_column column)
    ≡ (0, 2, 0) ∷ (1, 2, 0) ∷ (0, 2, 0) ∷ (0, 1, 1) ∷ []
unfolding pack_column
lanes_of_column = refl

pack_column-Apart_example :
    Pairs Apart (pack_column column) × All (λ b. b.lane < b.lanes) (pack_column column)
pack_column-Apart_example = pack_column-Apart column (omega arith)
