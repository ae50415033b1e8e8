-- ===== src/Calendar/Lanes/Column.antt =====
-- The whole of `packColumn` (integrations/calendar/app/events.ts).
use atomic_plugins.Prelude.{
  ℕ, max, ◌<◌, ◌≡◌, refl, sym, ap, ◌∙◌, inl, inr, false, ◌&&◌, List, [], ◌∷◌, ◌++◌, map, leb,
  length, if◌then◌else◌, arith, All, Pairs, Pairs-left, Bool-cases,
}
use mathlib.Core.List.{append-nil, append_assoc, map-append}
use atomic_plugins.Calendar.Lanes.{
  Segment, Block, Packing, empty, close, close_before, place, pack, has_block, pack_column,
  with_lanes,
}
use atomic_plugins.Calendar.Lanes.Layout.{
  Apart, Rising, Packed, place-Packed, close_before-Packed, close-Packed,
}

module _ {E : Type 0} where
  pack-Packed :
      (t : ℕ) (ss : List (Segment E)) (p : Packing E)
      → Rising t ss
      → Packed t p
      → (u : ℕ) × Packed u (pack ss p)
  unfolding pack
  pack-Packed t [] p r v = (t, v)
  pack-Packed t (s ∷ ss) p (rise, r) v =
      let (u, h, w) = close_before-Packed t s p rise v in
      pack-Packed s.start_min ss (place s (close_before s p)) r
        (place-Packed u s (close_before s p) h w)

  abbrev closed_up : Packing E → Packing E
  closed_up p = if has_block p.cluster then close p else p

  closed_up-Packed : (u : ℕ) (p : Packing E) → Packed u p → (w : ℕ) × Packed w (closed_up p)
  unfolding close
  closed_up-Packed u p v = elim (Bool-cases (has_block p.cluster)) [
    | inl some_left ↦
        let w = max u p.cluster_end in
        rw some_left (w, close-Packed u w p (omega arith) (omega arith) v p.cluster_end)
    | inr none_left ↦ rw none_left (u, v)
  ]

  empty-Packed : Packed 0 (empty {E = E})
  empty-Packed = record { apart = tt; over = tt; held = tt; closed = tt }

  -- In the layout of a column whose starts do not fall, two blocks that overlap in time stand in
  -- different lanes of one cluster, and every block's lane is one of its cluster's.
  pub pack_column-Apart :
      (ss : List (Segment E))
      → Rising 0 ss
      → Pairs Apart (pack_column ss) × All (λ b. b.lane < b.lanes) (pack_column ss)
  unfolding pack_column
  pack_column-Apart ss r =
      let (u, v) = pack-Packed 0 ss empty r empty-Packed in
      let (w, z) = closed_up-Packed u (pack ss empty) v in
      (Pairs-left Apart _ (closed_up (pack ss empty)).cluster z.apart, z.closed)

  abbrev segments_of : List (Block E) → List (Segment E)
  segments_of = map λ b. b.segment

  abbrev shown : Packing E → List (Segment E)
  shown p = segments_of p.out ++ segments_of p.cluster

  segments-relaned :
      (n : ℕ) (bs : List (Block E)) → segments_of (map (with_lanes n) bs) ≡ segments_of bs
  segments-relaned n [] = refl
  segments-relaned n (b ∷ bs) = ap (◌∷◌ b.segment) (segments-relaned n bs)

  shown-close : (p : Packing E) → segments_of (close p).out ≡ shown p
  unfolding close
  shown-close p = rw (map-append, segments-relaned (length p.lane_ends) p.cluster)

  shown-close_before : (s : Segment E) (p : Packing E) → shown (close_before s p) ≡ shown p
  unfolding close_before close
  shown-close_before s p =
      elim (Bool-cases (has_block p.cluster && leb p.cluster_end s.start_min)) [
        | inl shut ↦ rw shut (append-nil _ ∙ shown-close p)
        | inr more ↦ rw more
      ]

  shown-place : (s : Segment E) (p : Packing E) → shown (place s p) ≡ shown p ++ s ∷ []
  unfolding place
  shown-place s p = simp (map-append, append_assoc)

  shown-pack : (ss : List (Segment E)) (p : Packing E) → shown (pack ss p) ≡ shown p ++ ss
  unfolding pack
  shown-pack [] p = sym (append-nil _)
  shown-pack (s ∷ ss) p =
      shown-pack ss (place s (close_before s p))
      ∙ ap (λ l. l ++ ss)
          (shown-place s (close_before s p) ∙ ap (λ l. l ++ s ∷ []) (shown-close_before s p))
      ∙ append_assoc (shown p) (s ∷ []) ss

  no_block : (bs : List (Block E)) → has_block bs ≡ false → bs ≡ []
  no_block [] h = refl
  no_block (b ∷ bs) h = cc

  segments-closed_up : (p : Packing E) → segments_of (closed_up p).out ≡ shown p
  segments-closed_up p = elim (Bool-cases (has_block p.cluster)) [
    | inl some_left ↦ rw some_left (shown-close p)
    | inr none_left ↦ rw none_left (rw (no_block p.cluster none_left) (sym (append-nil _)))
  ]

  -- The layout shows each segment of the column once, in the column's order.
  pub segments-pack_column : (ss : List (Segment E)) → map (λ b. b.segment) (pack_column ss) ≡ ss
  unfolding pack_column
  segments-pack_column ss = segments-closed_up (pack ss empty) ∙ shown-pack ss empty
