-- ===== src/Calendar/Lanes/Layout.antt =====
-- What holds between the rounds of `packColumn` (integrations/calendar/app/events.ts).
use atomic_plugins.Prelude.{
  ℕ, ◌≤◌, ◌<◌, ◌≡◌, ◌≢◌, refl, sym, ap, ◌⊎◌, inl, inr, ◌&&◌, List, [], ◌∷◌, ◌++◌, map, leb, length,
  set, get_or, arith, All, All-append, All-left, All-right, All_weaken, All-map, Pairs, Pairs_snoc,
  Bool-cases, ℕ_discrete, length-set,
}
use atomic_plugins.Calendar.Lanes.Ends.{get_or-set_self, get_or-set_ne, Chosen, choose_lane-Chosen}
use mathlib.Core.List.{append-nil, append_assoc}
use atomic_plugins.Calendar.Lanes.{
  Segment, Block, Packing, choose_lane, close, close_before, place, has_block, with_lanes,
}

module _ {E : Type 0} where
  -- Either the earlier block ends before the later one starts, or the two stand in different lanes
  -- of one cluster.
  abbrev pub Apart : Block E → Block E → Type 0
  Apart a b =
      (a.segment.end_min ≤ b.segment.start_min) ⊎ ((a.cluster ≡ b.cluster) × (a.lane ≢ b.lane))

  -- Starts do not fall along the list; `t` is at most the first.
  abbrev pub Rising : ℕ → List (Segment E) → Type 0
  Rising t [] = Unit
  Rising t (s ∷ ss) = (t ≤ s.start_min) × Rising s.start_min ss

  abbrev pub Over : ℕ → Block E → Type 0
  Over t b = b.segment.end_min ≤ t

  -- A block of the open cluster: its lane exists, and the lane's end tells when it is free again.
  abbrev pub Held : ℕ → Packing E → Block E → Type 0
  Held t p b =
      (b.lane < length p.lane_ends)
      × ((b.segment.end_min ≤ t) ⊎ (b.segment.end_min ≤ get_or p.lane_ends b.lane 0))
      × (b.segment.end_min ≤ p.cluster_end)
      × (b.cluster ≡ p.clusters)

  -- What holds between the rounds of the loop, once starts have come to `t`.
  pub record Packed (t : ℕ) (p : Packing E) : Type 0 where
    pub apart : Pairs Apart (p.out ++ p.cluster)
    pub over : All (Over t) p.out
    pub held : All (Held t p) p.cluster
    pub closed : All (λ b. b.lane < b.lanes) p.out

  module _ (t : ℕ) (s : Segment E) (p : Packing E) (rise : t ≤ s.start_min) where
    abbrev placed : Block E
    placed = record {
      segment = s;
      lane = (choose_lane p.lane_ends s.start_min).0;
      lanes = 0;
      cluster = p.clusters;
    }

    lane_free :
        (b : Block E) (lane : ℕ)
        → (b.segment.end_min ≤ t) ⊎ (b.segment.end_min ≤ get_or p.lane_ends b.lane 0)
        → get_or p.lane_ends lane 0 ≤ s.start_min
        → b.lane ≡ lane
        → b.segment.end_min ≤ s.start_min
    lane_free b lane late free q =
        let same : get_or p.lane_ends b.lane 0 ≡ get_or p.lane_ends lane 0 =
          ap (λ i. get_or p.lane_ends i 0) q in
        omega arith

    place-late :
        (b : Block E) (lane : ℕ) (ends : List ℕ)
        → Chosen p.lane_ends s.start_min lane ends
        → b.lane < length p.lane_ends
        → (b.segment.end_min ≤ t) ⊎ (b.segment.end_min ≤ get_or p.lane_ends b.lane 0)
        → (b.segment.end_min ≤ s.start_min)
          ⊎ (b.segment.end_min ≤ get_or (set ends lane s.end_min) b.lane 0)
    place-late b lane ends c below late = elim (ℕ_discrete b.lane lane) [
      | yes q ↦ elim c.free [
        | inl new ↦ absurd (omega arith)
        | inr free ↦ inl (lane_free b lane late free q)
      ]
      | no n ↦
          let kept = get_or-set_ne ends lane b.lane s.end_min (λ q. n (sym q)) in
          omega (arith, kept, c.same b.lane below)
    ]

    place-Held : (b : Block E) → Held t p b → Held s.start_min (place s p) b
    unfolding place
    place-Held b (below, late, early, same) =
        let c = choose_lane-Chosen p.lane_ends s.start_min in
        let ends = (choose_lane p.lane_ends s.start_min).1 in
        let lane = (choose_lane p.lane_ends s.start_min).0 in
        (
          omega (arith, length-set ends lane s.end_min, c.longer),
          place-late b lane ends c below late,
          omega arith,
          same,
        )

    place-Apart : (b : Block E) → Held t p b → Apart b placed
    place-Apart b (below, late, early, same) =
        let c = choose_lane-Chosen p.lane_ends s.start_min in
        elim c.free [
          | inl new ↦ inr (same, omega arith)
          | inr free ↦ elim (ℕ_discrete b.lane (choose_lane p.lane_ends s.start_min).0) [
            | yes q ↦ inl (lane_free b (choose_lane p.lane_ends s.start_min).0 late free q)
            | no n ↦ inr (same, n)
          ]
        ]

    held_new : Held s.start_min (place s p) placed
    unfolding place
    held_new =
        let c = choose_lane-Chosen p.lane_ends s.start_min in
        let ends = (choose_lane p.lane_ends s.start_min).1 in
        let lane = (choose_lane p.lane_ends s.start_min).0 in
        (
          omega (arith, length-set ends lane s.end_min, c.inside),
          inr (omega (arith, get_or-set_self ends lane s.end_min c.inside)),
          omega arith,
          refl,
        )

  relaned_all :
      (n : ℕ) (b : Block E) (bs : List (Block E))
      → All (Apart b) bs
      → All (Apart b) (map (with_lanes n) bs)
  relaned_all n b bs h = All-map (Apart b) (with_lanes n) bs h

  -- The number of lanes, written when a cluster closes, does not matter to what is apart.
  relaned_pairs :
      (n : ℕ) (xs bs : List (Block E))
      → Pairs Apart (xs ++ bs)
      → Pairs Apart (xs ++ map (with_lanes n) bs)
  relaned_pairs n [] [] h = h
  relaned_pairs n [] (b ∷ bs) (p, h) = (relaned_all n b bs p, relaned_pairs n [] bs h)
  relaned_pairs n (x ∷ xs) bs (p, h) = (
    All-append (Apart x) xs (map (with_lanes n) bs) (All-left (Apart x) xs bs p)
        (relaned_all n x bs (All-right (Apart x) xs bs p)),
    relaned_pairs n xs bs h,
  )

  pub close-Packed :
      (t u : ℕ) (p : Packing E)
      → p.cluster_end ≤ u
      → t ≤ u
      → Packed t p
      → (e : ℕ) → Packed u (record (close p) { cluster_end = e })
  unfolding close
  close-Packed t u p late rise v e =
      let n = length p.lane_ends in
      record {
        apart = rw append-nil (relaned_pairs n p.out p.cluster v.apart);
        over =
            All-append (Over u) p.out (map (with_lanes n) p.cluster)
              (All_weaken (Over t) (Over u) (λ b h. omega arith) p.out v.over)
              (All-map (Over u) (with_lanes n) p.cluster
                (All_weaken (Held t p) (Over u) (λ b h. omega arith) p.cluster v.held));
        held = tt;
        closed =
            All-append (λ b. b.lane < b.lanes) p.out (map (with_lanes n) p.cluster) v.closed
              (All-map (λ b. b.lane < b.lanes) (with_lanes n) p.cluster
                (All_weaken (Held t p) (λ b. b.lane < n) (λ b h. h.0) p.cluster v.held));
      }

  -- A segment is placed: out, unless the cluster is empty, ends before the segment starts.
  pub place-Packed :
      (t : ℕ) (s : Segment E) (p : Packing E)
      → t ≤ s.start_min
      → Packed t p
      → Packed s.start_min (place s p)
  unfolding place
  place-Packed t s p rise v = record {
    apart = rw (← append_assoc) (
        Pairs_snoc Apart (p.out ++ p.cluster) (placed t s p rise) v.apart (
          All-append (λ b. Apart b (placed t s p rise)) p.out p.cluster
            (All_weaken (Over t) (λ b. Apart b (placed t s p rise)) (λ b h. inl (omega arith)) p.out
              v.over)
            (All_weaken (Held t p) (λ b. Apart b (placed t s p rise)) (place-Apart t s p rise)
              p.cluster v.held)));
    over = All_weaken (Over t) (Over s.start_min) (λ b h. omega arith) p.out v.over;
    held =
        All-append (Held s.start_min (place s p)) p.cluster _
          (All_weaken (Held t p) (Held s.start_min (place s p)) (place-Held t s p rise) p.cluster
            v.held)
          (held_new t s p rise, tt);
    closed = v.closed;
  }

  pub close_before-Packed :
      (t : ℕ) (s : Segment E) (p : Packing E)
      → t ≤ s.start_min
      → Packed t p
      → (u : ℕ) × (u ≤ s.start_min) × Packed u (close_before s p)
  unfolding close_before
  close_before-Packed t s p rise v =
      elim (Bool-cases (has_block p.cluster && leb p.cluster_end s.start_min)) [
        | inl shut ↦
            rw shut (
              s.start_min,
              omega arith,
              close-Packed t s.start_min p (ground (arith, shut)) rise v 0,
            )
        | inr more ↦ rw more (t, rise, v)
      ]
