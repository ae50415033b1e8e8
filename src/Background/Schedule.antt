-- ===== src/Background/Schedule.antt =====
-- When the passes of devonian/src/background/BackgroundSync.ts run: spacing and backoff.
use atomic_plugins.Prelude.{
  ℕ, zero, suc, ◌+◌, ◌*◌, ◌^◌, ◌≤◌, min, max, ap, ◌≡◌, refl, ◌∙◌, ◌⊎◌, Bool, true, false, List, [],
  ◌∷◌, ◌++◌, String, Option, none, some, arith, length,
}
use native.Mathlib.Nat.{add-zero, pow-suc}
use atomic_plugins.Background.{
  State, Slot, stored, Options, Pass, throws, ran, failed, TickResult, due, refusal, run_pass,
  attempt, backoff, backoff_cap, after_failure, or_else,
}

-- After an attempt that ran its pass with success, an unforced attempt reads the clock at the
-- scheduled time or later if it runs a pass at all.
pub attempt_spacing :
    (o : Options) (force : Bool) (p q : Pass) (slot slot' slot'' : Slot) (r r' : TickResult)
    → attempt o force p slot ≡ some (r, slot')
    → r.outcome ≡ ran
    → attempt o false q slot' ≡ some (r', slot'')
    → (r'.outcome ≡ ran) ⊎ (r'.outcome ≡ failed)
    → p.scheduled + o.interval_ms ≤ q.checked
unfolding attempt run_pass refusal due
attempt_spacing o force p q slot slot' slot'' r r' first ok second pass = ground arith

-- Passes that fail for a while: each throws an error that is not permanent.
abbrev pub AllTransient : List Pass → Type 0
AllTransient [] = Unit {0}
AllTransient (p ∷ ps) = ((m : String) × (p.end ≡ throws m false)) × AllTransient ps

-- The store after a series of forced attempts.
pub attempts : Options → List Pass → Slot → Option Slot
attempts o [] slot = some slot
attempts o (p ∷ ps) slot = elim (attempt o true p slot) [
  | none ↦ none
  | some (r, slot') ↦ attempts o ps slot'
]

-- The longest wait: the one that the options give, or the longer of the interval and one hour.
abbrev pub longest : Options → ℕ
longest o = elim o.max_backoff_ms [ none ↦ max o.interval_ms 3_600_000 | some ms ↦ ms ]

-- What the store holds after a streak of failures, `n` of them before the last: their number, and
-- the time of the next try. After the first the wait is one interval, and each further one doubles it.
pub record Backed (o : Options) (n : ℕ) (p : Pass) (last : Option ℕ) (s : State) : Type 0 where
  pub failures : s.failures ≡ n + 1
  pub next_due_at : s.next_due_at ≡ some (p.ended + min (o.interval_ms * 2 ^ n) (longest o))
  pub last_success_at : s.last_success_at ≡ last
  pub paused : s.paused ≡ none

or_else_lem : (o : Option ℕ) (n : ℕ) → or_else o n ≡ elim o [ none ↦ n | some m ↦ m ]
or_else_lem none n = refl
or_else_lem (some m) n = refl

backoff_lem : (o : Options) (n : ℕ) → backoff o n ≡ min (o.interval_ms * 2 ^ n) (longest o)
unfolding backoff backoff_cap
backoff_lem o n =
    ap (min (o.interval_ms * 2 ^ n)) (or_else_lem o.max_backoff_ms (max o.interval_ms 3_600_000))

attempt-Backed :
    (o : Options) (p : Pass) (s : State) (m : String)
    → p.end ≡ throws m false
    → s.paused ≡ none
    → (s' : State) × (r : TickResult) × (attempt o true p (stored s) ≡ some (r, stored s'))
      × Backed o s.failures p s.last_success_at s'
unfolding attempt refusal run_pass after_failure
attempt-Backed o p s m e h = (
  after_failure o p s m false,
  record { outcome = failed; state = after_failure o p s m false; error = some m },
  ground arith,
  record {
    failures = refl;
    next_due_at = ap (λ w. some (p.ended + w)) (backoff_lem o s.failures);
    last_success_at = refl;
    paused = refl;
  },
)

Backed-after :
    (o : Options) (ps : List Pass) (p : Pass) (s s' s'' : State) (q : Pass)
    → Backed o s.failures q s.last_success_at s'
    → Backed o (s'.failures + length ps) p s'.last_success_at s''
    → Backed o (s.failures + suc (length ps)) p s.last_success_at s''
Backed-after o ps p s s' s'' q b c =
    let same : s'.failures + length ps ≡ s.failures + suc (length ps) = omega arith in
    record {
      failures = omega arith;
      next_due_at = rw (← same) c.next_due_at;
      last_success_at = c.last_success_at ∙ b.last_success_at;
      paused = c.paused;
    }

-- After a streak of passes that fail with errors that are not permanent, the next try is due a wait
-- after the last pass ended: the interval, doubled for each failure on record before that pass, and
-- at most the longest wait. The failures are counted, and the time of the last success stays on
-- record. The streak starts at any state that is not paused, and its attempts are forced.
pub attempts-Backed :
    (o : Options) (ps : List Pass) (p : Pass) (s : State)
    → s.paused ≡ none
    → AllTransient (ps ++ p ∷ [])
    → (s' : State) × (attempts o (ps ++ p ∷ []) (stored s) ≡ some (stored s'))
      × Backed o (s.failures + length ps) p s.last_success_at s'
unfolding attempts
attempts-Backed o [] p s h t =
    let (m, e) = t.0 in
    let (s', r, done, b) = attempt-Backed o p s m e h in (s', rw (done, attempts), rw add-zero b)
attempts-Backed o (q ∷ ps) p s h t =
    let (m, e) = t.0 in
    let (s', r, done, b) = attempt-Backed o q s m e h in
    let (s'', later, c) = attempts-Backed o ps p s' b.paused t.1 in
    (s'', rw (done, attempts) later, Backed-after o ps p s s' s'' q b c)

two_pow_pos : (n : ℕ) → 1 ≤ 2 ^ n
two_pow_pos zero = omega arith
two_pow_pos (suc n) = rw (pow-suc 2 n) (omega (arith, two_pow_pos n))

-- The wait after a failure lies between the smaller of interval and cap, and the cap.
pub backoff_bounds :
    (o : Options) (n : ℕ)
    → (min o.interval_ms (backoff_cap o) ≤ backoff o n) × (backoff o n ≤ backoff_cap o)
unfolding backoff
backoff_bounds o n = (grind (arith, two_pow_pos n), omega arith)
