-- ===== src/Observations/Coverage.antt =====
-- Coverage in integrations/timesheets/app/observations.ts: where complete reads have looked, and
-- when each span was last confirmed. Instants are the texts that arrived; `ms`, the code's
-- `Date.parse`, is a parameter, and the instants are taken to parse.
mod Points
mod Times
mod Sweep
pub mod Latest
pub mod Order
pub mod Merge
mod Tests
use atomic_plugins.Prelude.{
  keep, ℕ, ◌<◌, String, str_eq, Bool, true, false, not, ◌&&◌, List, [], ◌∷◌, ◌++◌, map, ltb, leb,
  ◌==◌, if◌then◌else◌,
}

pub record CoverageSegment : Type 0 where
  pub key : String
  pub from : String
  pub to : String
  pub confirmed_at : String

-- The map from instants to the first text that named them.
abbrev pub Bounds : Type 0
Bounds = List (ℕ × String)

pub has_bound : ℕ → Bounds → Bool
has_bound t [] = false
has_bound t ((u, s) ∷ bs) = if u == t then true else has_bound t bs

-- `bounds.get(t)!`; the empty text stands for a missing entry, which is never asked for.
pub get_bound : ℕ → Bounds → String
get_bound t [] = ""
get_bound t ((u, s) ∷ bs) = if u == t then s else get_bound t bs

-- `[...].sort((a, b) => a - b)`
pub insert_point : ℕ → List ℕ → List ℕ
insert_point p [] = p ∷ []
insert_point p (q ∷ qs) = if leb p q then p ∷ q ∷ qs else q ∷ insert_point p qs

pub sort_points : List ℕ → List ℕ
sort_points [] = []
sort_points (p ∷ ps) = insert_point p (sort_points ps)

abbrev pub has_key : String → CoverageSegment → Bool
has_key key c = str_eq c.key key

module _ (ms : String → ℕ) where
  pub note_bound : String → Bounds → Bounds
  note_bound s bs = if has_bound (ms s) bs then bs else bs ++ (ms s, s) ∷ []

  pub bounds_of : List CoverageSegment → Bounds → Bounds
  bounds_of [] bs = bs
  bounds_of (c ∷ cs) bs = bounds_of cs (note_bound c.to (note_bound c.from bs))

  -- the spans that cover the whole of `[a, b)`
  abbrev pub covering : ℕ → ℕ → List CoverageSegment → List CoverageSegment
  covering a b = keep λ c. leb (ms c.from) a && leb b (ms c.to)

  -- `reduce((x, y) => (ms(y) > ms(x) ? y : x))`
  pub later : String → List CoverageSegment → String
  later x [] = x
  later x (c ∷ cs) = later (if ltb (ms x) (ms c.confirmed_at) then c.confirmed_at else x) cs

  -- Joins a span that starts at `a` to the last one, if it goes on from there with the same confirmation.
  pub push_span : ℕ → List CoverageSegment → CoverageSegment → List CoverageSegment
  push_span a [] c = c ∷ []
  push_span a (l ∷ []) c =
      if ms l.to == a && str_eq l.confirmed_at c.confirmed_at
      then record l { to = c.to } ∷ []
      else l ∷ c ∷ []
  push_span a (l ∷ m ∷ cs) c = l ∷ push_span a (m ∷ cs) c

  -- the segment of `key` over `[a, b)`, if any span covers it
  pub push_covered :
      String → Bounds → ℕ → ℕ → List CoverageSegment → List CoverageSegment → List CoverageSegment
  push_covered key bs a b merged [] = merged
  push_covered key bs a b merged (c ∷ cs) = push_span a merged (record {
    key = key;
    from = get_bound a bs;
    to = get_bound b bs;
    confirmed_at = later c.confirmed_at cs;
  })

  -- the loop over neighbouring points
  pub sweep :
      String → Bounds → List CoverageSegment → List ℕ → List CoverageSegment → List CoverageSegment
  sweep key bs spans [] merged = merged
  sweep key bs spans (a ∷ []) merged = merged
  sweep key bs spans (a ∷ b ∷ ps) merged =
      sweep key bs spans (b ∷ ps) (push_covered key bs a b merged (covering a b spans))

  pub merged_spans : String → List CoverageSegment → List CoverageSegment
  merged_spans key spans =
      let bs = bounds_of spans [] in sweep key bs spans (sort_points (map (λ b. b.0) bs)) []

  unfoldable pub add_coverage :
      List CoverageSegment → String → String → String → String → List CoverageSegment
  unfolding merged_spans sweep push_covered push_span later bounds_of note_bound has_bound get_bound
      sort_points insert_point
  add_coverage coverage key from to at =
      if not (ltb (ms from) (ms to))
      then coverage
      else (keep (λ c. not (has_key key c)) coverage
          ++ merged_spans key (
              keep (has_key key) coverage
              ++ record { key = key; from = from; to = to; confirmed_at = at } ∷ []))

  unfoldable pub merge_coverage : List CoverageSegment → List CoverageSegment → List CoverageSegment
  merge_coverage a [] = a
  merge_coverage a (s ∷ b) = merge_coverage (add_coverage a s.key s.from s.to s.confirmed_at) b
