-- ===== src/Observations/Coverage/Times.antt =====
-- When an instant was last confirmed, by a list of spans. An independent reading of the coverage
-- of integrations/timesheets/app/observations.ts, and of its sweep.
use atomic_plugins.Prelude.{
  ℕ, max, ◌≤◌, ◌<◌, ◌≡◌, refl, sym, ap, ◌∙◌, ◌⊎◌, inl, inr, String, str_eq, eq_iff, Bool, true,
  false, ◌&&◌, Option, none, some, List, [], ◌∷◌, ◌++◌, leb, ltb, ltb→lt, ◌==◌, if◌then◌else◌,
  arith, All, Bool-cases,
}
use atomic_plugins.Observations.Coverage.{CoverageSegment, covering, later, push_span}

-- The later of two confirmations, either of which may be missing.
abbrev pub latest_of : Option ℕ → Option ℕ → Option ℕ
latest_of none y = y
latest_of (some a) none = some a
latest_of (some a) (some b) = some (max a b)

pub latest_of-none : (x : Option ℕ) → latest_of x none ≡ x
latest_of-none none = refl
latest_of-none (some a) = refl

pub latest_of_comm : (x y : Option ℕ) → latest_of x y ≡ latest_of y x
latest_of_comm none y = sym (latest_of-none y)
latest_of_comm (some a) none = refl
latest_of_comm (some a) (some b) = ap some (omega arith)

pub latest_of_assoc : (x y z : Option ℕ) → latest_of (latest_of x y) z ≡ latest_of x (latest_of y z)
latest_of_assoc none y z = refl
latest_of_assoc (some a) none z = refl
latest_of_assoc (some a) (some b) none = refl
latest_of_assoc (some a) (some b) (some c) = ap some (omega arith)

pub latest_of_idem : (x : Option ℕ) → latest_of x x ≡ x
latest_of_idem none = refl
latest_of_idem (some a) = ap some (omega arith)

absorbed :
    (a b : ℕ) (z : Option ℕ)
    → a < b
    → latest_of (some b) z ≡ latest_of (some a) (latest_of (some b) z)
absorbed a b none h = ap some (omega arith)
absorbed a b (some c) h = ap some (omega arith)

covered :
    (a b : ℕ) (z : Option ℕ)
    → b ≤ a
    → latest_of (some a) z ≡ latest_of (some a) (latest_of (some b) z)
covered a b none h = ap some (omega arith)
covered a b (some c) h = ap some (omega arith)

module _ (ms : String → ℕ) where
  abbrev pub covers : CoverageSegment → ℕ → Bool
  covers c t = leb (ms c.from) t && ltb t (ms c.to)

  -- the confirmation that one span gives an instant
  abbrev pub given : CoverageSegment → ℕ → Option ℕ
  given c t = if covers c t then some (ms c.confirmed_at) else none

  unfoldable pub at_time : List CoverageSegment → ℕ → Option ℕ
  at_time [] t = none
  at_time (c ∷ cs) t = latest_of (given c t) (at_time cs t)

  pub at_time-append :
      (cs ds : List CoverageSegment) (t : ℕ)
      → at_time (cs ++ ds) t ≡ latest_of (at_time cs t) (at_time ds t)
  unfolding at_time
  at_time-append [] ds t = refl
  at_time-append (c ∷ cs) ds t =
      ap (latest_of (given c t)) (at_time-append cs ds t)
      ∙ sym (latest_of_assoc (given c t) (at_time cs t) (at_time ds t))

  -- A span that does not run backwards.
  abbrev pub IsProper : CoverageSegment → Type 0
  IsProper c = ms c.from ≤ ms c.to

  given-joined :
      (l c : CoverageSegment) (a t : ℕ)
      → IsProper l
      → ms c.from ≡ a
      → a ≤ ms c.to
      → ms l.to ≡ a
      → l.confirmed_at ≡ c.confirmed_at
      → given (record l { to = c.to }) t ≡ latest_of (given l t) (given c t)
  given-joined l c a t h from up to same =
      let stamp : ms l.confirmed_at ≡ ms c.confirmed_at = ap ms same in ground arith

  joined_parts :
      (l c : CoverageSegment) (a : ℕ)
      → (ms l.to == a && str_eq l.confirmed_at c.confirmed_at) ≡ true
      → (ms l.to ≡ a) × (l.confirmed_at ≡ c.confirmed_at)
  joined_parts l c a h = ground (arith, eq_iff l.confirmed_at c.confirmed_at)

  pub at_time-push_span :
      (a : ℕ) (cs : List CoverageSegment) (c : CoverageSegment) (t : ℕ)
      → All IsProper cs
      → ms c.from ≡ a
      → a ≤ ms c.to
      → at_time (push_span ms a cs c) t ≡ latest_of (at_time cs t) (given c t)
  unfolding at_time push_span
  at_time-push_span a [] c t h from up = latest_of-none _
  at_time-push_span a (l ∷ []) c t (p, h) from up =
      elim (Bool-cases (ms l.to == a && str_eq l.confirmed_at c.confirmed_at)) [
        | inl joined ↦
            rw (joined, at_time)
              (latest_of-none (given (record l { to = c.to }) t)
                ∙ given-joined l c a t p from up (joined_parts l c a joined).0
                    (joined_parts l c a joined).1
                ∙ ap (λ x. latest_of x (given c t)) (sym (latest_of-none (given l t))))
        | inr apart ↦
            rw (apart, at_time) (rw (latest_of-none (given c t), latest_of-none (given l t)))
      ]
  at_time-push_span a (l ∷ m ∷ cs) c t (p, h) from up =
      ap (latest_of (given l t)) (at_time-push_span a (m ∷ cs) c t h from up)
      ∙ sym (latest_of_assoc (given l t) (at_time (m ∷ cs) t) (given c t))

  pub push_span-IsProper :
      (a : ℕ) (cs : List CoverageSegment) (c : CoverageSegment)
      → All IsProper cs
      → ms c.from ≡ a
      → a ≤ ms c.to
      → All IsProper (push_span ms a cs c)
  unfolding push_span
  push_span-IsProper a [] c h from up = (omega arith, tt)
  push_span-IsProper a (l ∷ []) c (p, h) from up = ground arith
  push_span-IsProper a (l ∷ m ∷ cs) c (p, h) from up =
      (p, push_span-IsProper a (m ∷ cs) c h from up)

  -- What a list of spans confirms at best, wherever they lie.
  unfoldable pub best : List CoverageSegment → Option ℕ
  best [] = none
  best (c ∷ cs) = latest_of (some (ms c.confirmed_at)) (best cs)

  pub later-best :
      (x : String) (cs : List CoverageSegment)
      → some (ms (later ms x cs)) ≡ latest_of (some (ms x)) (best cs)
  unfolding later best
  later-best x [] = refl
  later-best x (c ∷ cs) = elim (Bool-cases (ltb (ms x) (ms c.confirmed_at))) [
    | inl more ↦ rw more (
        later-best c.confirmed_at cs
        ∙ absorbed (ms x) (ms c.confirmed_at) (best cs) (ltb→lt _ _ more))
    | inr less ↦
        rw less (later-best x cs ∙ covered (ms x) (ms c.confirmed_at) (best cs) (ground arith))
  ]

  -- No end of a span lies strictly between `a` and `b`.
  abbrev pub Splits : ℕ → ℕ → CoverageSegment → Type 0
  Splits a b c = ((ms c.from ≤ a) ⊎ (b ≤ ms c.from)) × ((ms c.to ≤ a) ⊎ (b ≤ ms c.to))

  -- So an instant there is covered by the spans that cover all of `[a, b)`.
  pub at_time-best :
      (a b t : ℕ) (cs : List CoverageSegment)
      → a ≤ t
      → t < b
      → All (Splits a b) cs
      → at_time cs t ≡ best (covering ms a b cs)
  unfolding at_time best
  at_time-best a b t [] low high h = refl
  at_time-best a b t (c ∷ cs) low high (p, h) =
      elim (Bool-cases (leb (ms c.from) a && leb b (ms c.to))) [
        | inl all ↦
            let inside : covers c t ≡ true = ground arith in
            rw (all, best, inside)
              (ap (latest_of (some (ms c.confirmed_at))) (at_time-best a b t cs low high h))
        | inr part ↦
            let outside : covers c t ≡ false = ground arith in
            rw (part, outside) (at_time-best a b t cs low high h)
      ]
