-- ===== src/Calendar/Lanes.antt =====
-- `packColumn` of integrations/calendar/app/events.ts: overlapping events of one day side by side.
mod Ends
pub mod Layout
pub mod Column
mod Tests
use atomic_plugins.Prelude.{
  ℕ, zero, suc, ◌+◌, max, ◌≤◌, ◌≡◌, String, Bool, true, false, ◌&&◌, Option, none, some, List, [],
  ◌∷◌, ◌++◌, map, leb, length, set, if◌then◌else◌,
}

-- A piece of an event on one day; the type of the events is a parameter.
pub record Segment (E : Type 0) : Type 0 where
  pub event : E
  pub date : String
  pub all_day : Bool
  pub start_min : ℕ
  pub end_min : ℕ
  pub day_of : Option (ℕ × ℕ)

pub record Block (E : Type 0) : Type 0 where
  pub segment : Segment E
  pub lane : ℕ
  pub lanes : ℕ
  pub cluster : ℕ

-- The variables of the loop. `cluster_end` is read only while the cluster has a block, so that its
-- start value, -1 in the code, is 0 here: the larger of it and a minute is the minute.
pub record Packing (E : Type 0) : Type 0 where
  pub out : List (Block E)
  pub cluster : List (Block E)
  pub lane_ends : List ℕ
  pub cluster_end : ℕ
  pub clusters : ℕ

-- `laneEnds.findIndex(end => end <= start)`
abbrev one_more : Option ℕ → Option ℕ
one_more none = none
one_more (some i) = some (suc i)

pub find_lane : List ℕ → ℕ → Option ℕ
find_lane [] start = none
find_lane (e ∷ es) start = if leb e start then some 0 else one_more (find_lane es start)

-- The lane of a segment, and the ends of the lanes once it is there.
pub choose_lane : List ℕ → ℕ → ℕ × List ℕ
choose_lane ends start = elim (find_lane ends start) [
  | none ↦ (length ends, ends ++ 0 ∷ [])
  | some lane ↦ (lane, ends)
]

module _ {E : Type 0} where
  abbrev pub empty : Packing E
  empty = record { out = []; cluster = []; lane_ends = []; cluster_end = 0; clusters = 0 }

  abbrev pub with_lanes : ℕ → Block E → Block E
  with_lanes n b = record b { lanes = n }

  pub close : Packing E → Packing E
  close p = record {
    out = p.out ++ map (with_lanes (length p.lane_ends)) p.cluster;
    cluster = [];
    lane_ends = [];
    cluster_end = p.cluster_end;
    clusters = p.clusters + 1;
  }

  abbrev pub has_block : List (Block E) → Bool
  has_block [] = false
  has_block (b ∷ bs) = true

  pub close_before : Segment E → Packing E → Packing E
  close_before s p =
      if has_block p.cluster && leb p.cluster_end s.start_min
      then record (close p) { cluster_end = 0 }
      else p

  pub place : Segment E → Packing E → Packing E
  place s p =
      let (lane, ends) = choose_lane p.lane_ends s.start_min in
      record p {
        lane_ends = set ends lane s.end_min;
        cluster =
            p.cluster
            ++ (record { segment = s; lane = lane; lanes = 0; cluster = p.clusters }) ∷ [];
        cluster_end = max p.cluster_end s.end_min;
      }

  pub pack : List (Segment E) → Packing E → Packing E
  pack [] p = p
  pack (s ∷ ss) p = pack ss (place s (close_before s p))

  unfoldable pub pack_column : List (Segment E) → List (Block E)
  unfolding pack place close_before close find_lane choose_lane
  pack_column sorted = let p = pack sorted empty in (if has_block p.cluster then close p else p).out
