-- ===== src/Observations/Coverage/Points.antt =====
-- The points of the sweep in integrations/timesheets/app/observations.ts: the ends of the spans,
-- sorted, each with the text that named it.
use atomic_plugins.Prelude.{
  ℕ, ◌≤◌, ◌≡◌, refl, sym, ◌∙◌, ◌⊎◌, inl, inr, String, true, List, [], ◌∷◌, ◌++◌, map, leb, leb→le,
  ◌==◌, arith, All, All-append, Bool-cases, ==_iff,
}
use atomic_plugins.Observations.Coverage.{
  CoverageSegment, Bounds, has_bound, get_bound, insert_point, sort_points, note_bound, bounds_of,
}

-- `x` is one of the points.
abbrev pub Among : ℕ → List ℕ → Type 0
Among x [] = ⊥
Among x (p ∷ ps) = (x ≡ p) ⊎ Among x ps

-- No point is below the one before it, and none below `a`.
abbrev pub Ascending : ℕ → List ℕ → Type 0
Ascending a [] = Unit
Ascending a (p ∷ ps) = (a ≤ p) × Ascending p ps

Among-insert_point_self : (x : ℕ) (ps : List ℕ) → Among x (insert_point x ps)
unfolding insert_point
Among-insert_point_self x [] = inl refl
Among-insert_point_self x (p ∷ ps) = elim (Bool-cases (leb x p)) [
  | inl le ↦ rw le (inl refl)
  | inr gt ↦ rw gt (inr (Among-insert_point_self x ps))
]

Among-insert_point : (x p : ℕ) (ps : List ℕ) → Among x ps → Among x (insert_point p ps)
unfolding insert_point
Among-insert_point x p [] h = absurd h
Among-insert_point x p (q ∷ ps) h = elim (Bool-cases (leb p q)) [
  | inl le ↦ rw le (inr h)
  | inr gt ↦ rw gt (elim h [ inl e ↦ inl e | inr r ↦ inr (Among-insert_point x p ps r) ])
]

pub Among-sort_points : (x : ℕ) (ps : List ℕ) → Among x ps → Among x (sort_points ps)
unfolding sort_points
Among-sort_points x [] h = absurd h
Among-sort_points x (p ∷ ps) (inl e) = rw e (Among-insert_point_self p (sort_points ps))
Among-sort_points x (p ∷ ps) (inr h) =
    Among-insert_point x p (sort_points ps) (Among-sort_points x ps h)

Among-of_insert : (x p : ℕ) (ps : List ℕ) → Among x (insert_point p ps) → (x ≡ p) ⊎ Among x ps
unfolding insert_point
Among-of_insert x p [] h = h
Among-of_insert x p (q ∷ ps) h = elim (Bool-cases (leb p q)) [
  | inl le ↦ rw le at h
  | inr gt ↦
      let later : (x ≡ q) ⊎ Among x (insert_point p ps) = rw gt at h in
      elim later [
        | inl e ↦ inr (inl e)
        | inr r ↦ elim (Among-of_insert x p ps r) [ inl e ↦ inl e | inr k ↦ inr (inr k) ]
      ]
]

pub Among-of_sort : (x : ℕ) (ps : List ℕ) → Among x (sort_points ps) → Among x ps
unfolding sort_points
Among-of_sort x [] h = h
Among-of_sort x (p ∷ ps) h = elim (Among-of_insert x p (sort_points ps) h) [
  | inl e ↦ inl e
  | inr r ↦ inr (Among-of_sort x ps r)
]

Ascending-insert_point :
    (a p : ℕ) (ps : List ℕ) → a ≤ p → Ascending a ps → Ascending a (insert_point p ps)
unfolding insert_point
Ascending-insert_point a p [] h r = (h, tt)
Ascending-insert_point a p (q ∷ ps) h (k, r) = elim (Bool-cases (leb p q)) [
  | inl le ↦ rw le (h, (leb→le p q le, r))
  | inr gt ↦ rw gt (k, Ascending-insert_point q p ps (ground arith) r)
]

pub Ascending-sort_points : (ps : List ℕ) → Ascending 0 (sort_points ps)
unfolding sort_points
Ascending-sort_points [] = tt
Ascending-sort_points (p ∷ ps) =
    Ascending-insert_point 0 p (sort_points ps) (omega arith) (Ascending-sort_points ps)

pub Ascending-Among : (a x : ℕ) (ps : List ℕ) → Ascending a ps → Among x ps → a ≤ x
Ascending-Among a x [] r h = absurd h
Ascending-Among a x (p ∷ ps) (k, r) (inl e) = omega arith
Ascending-Among a x (p ∷ ps) (k, r) (inr h) = omega (arith, Ascending-Among p x ps r h)

abbrev pub times : Bounds → List ℕ
times = map λ b. b.0

module _ (ms : String → ℕ) where
  -- Each text parses to the point that it stands for.
  abbrev pub Named : Bounds → Type 0
  Named = All λ b. ms b.1 ≡ b.0

  pub get_bound-Named :
      (t : ℕ) (bs : Bounds) → Named bs → Among t (times bs) → ms (get_bound t bs) ≡ t
  unfolding get_bound
  get_bound-Named t [] n h = absurd h
  get_bound-Named t ((u, s) ∷ bs) (e, n) h = elim (Bool-cases (u == t)) [
    | inl same ↦ rw same (e ∙ (==_iff u t).0 same)
    | inr other ↦
        rw other (get_bound-Named t bs n (elim h [ inl q ↦ absurd (ground arith) | inr r ↦ r ]))
  ]

  has_bound→Among : (t : ℕ) (bs : Bounds) → has_bound t bs ≡ true → Among t (times bs)
  unfolding has_bound
  has_bound→Among t [] h = cc
  has_bound→Among t ((u, s) ∷ bs) h = elim (Bool-cases (u == t)) [
    | inl same ↦ inl (sym ((==_iff u t).0 same))
    | inr other ↦ inr (has_bound→Among t bs (ground arith))
  ]

  Among-snoc :
      (t u : ℕ) (s : String) (bs : Bounds)
      → Among t (times bs)
      → Among t (times (bs ++ (u, s) ∷ []))
  Among-snoc t u s [] h = absurd h
  Among-snoc t u s (b ∷ bs) (inl e) = inl e
  Among-snoc t u s (b ∷ bs) (inr h) = inr (Among-snoc t u s bs h)

  Among-last : (u : ℕ) (s : String) (bs : Bounds) → Among u (times (bs ++ (u, s) ∷ []))
  Among-last u s [] = inl refl
  Among-last u s (b ∷ bs) = inr (Among-last u s bs)

  -- A text is noted, and what was noted stays.
  note_bound_lem :
      (s : String) (bs : Bounds)
      → Named bs
      → Named (note_bound ms s bs)
        × Among (ms s) (times (note_bound ms s bs))
        × ((t : ℕ) → Among t (times bs) → Among t (times (note_bound ms s bs)))
  unfolding note_bound
  note_bound_lem s bs n = elim (Bool-cases (has_bound (ms s) bs)) [
    | inl old ↦ rw old (n, has_bound→Among (ms s) bs old, λ t h. h)
    | inr new ↦ rw new (
      All-append (λ b. ms b.1 ≡ b.0) bs ((ms s, s) ∷ []) n (refl, tt),
      Among-last (ms s) s bs,
      λ t h. Among-snoc t (ms s) s bs h,
    )
  ]

  -- Both ends of a span are among the points.
  abbrev pub Ends : List ℕ → CoverageSegment → Type 0
  Ends ps c = Among (ms c.from) ps × Among (ms c.to) ps

  pub bounds_of_lem :
      (cs : List CoverageSegment) (bs : Bounds)
      → Named bs
      → Named (bounds_of ms cs bs)
        × All (Ends (times (bounds_of ms cs bs))) cs
        × ((t : ℕ) → Among t (times bs) → Among t (times (bounds_of ms cs bs)))
  unfolding bounds_of
  bounds_of_lem [] bs n = (n, tt, λ t h. h)
  bounds_of_lem (c ∷ cs) bs n =
      let (n1, from, old1) = note_bound_lem c.from bs n in
      let (n2, to, old2) = note_bound_lem c.to (note_bound ms c.from bs) n1 in
      let (n3, ends, old3) = bounds_of_lem cs (note_bound ms c.to (note_bound ms c.from bs)) n2 in
      (n3, ((old3 _ (old2 _ from), old3 _ to), ends), λ t h. old3 t (old2 t (old1 t h)))
