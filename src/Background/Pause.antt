-- ===== src/Background/Pause.antt =====
-- Pauses in devonian/src/background/BackgroundSync.ts: what a permanent failure leaves behind.
use atomic_plugins.Prelude.{
  ℕ, ◌≡◌, ◌≢◌, refl, true, false, List, [], ◌∷◌, String, Option, none, some, arith, length,
  replicate, eq_iff,
}
use atomic_plugins.Background.{
  State, Slot, stored, Options, Pass, throws, TickOutcome, is_paused, TickResult, truthy, due,
  refusal, run_pass, attempt, tick, status, sync_now, resume, report, cleared, after_failure,
}

-- A call of the scheduler's methods under a free lease, with what it meets.
pub data Call : Type 0 where
  ticks : ℕ → Pass → Call
  syncs : Pass → Call

unfoldable pub call : Options → Call → Slot → Option (TickResult × Slot)
call o (ticks now p) slot = tick o now slot false p slot
call o (syncs p) slot = sync_now o p slot

-- The outcomes of a series of calls and the store after it; `none` if a call throws.
pub calls : Options → List Call → Slot → Option (List TickOutcome × Slot)
calls o [] slot = some ([], slot)
calls o (c ∷ cs) slot = elim (call o c slot) [
  | none ↦ none
  | some (r, slot') ↦ elim (calls o cs slot') [
    | none ↦ none
    | some (outcomes, last) ↦ some (r.outcome ∷ outcomes, last)
  ]
]

call_paused :
    (o : Options) (c : Call) (s : State)
    → truthy s.paused ≡ true
    → (r : TickResult) × (call o c (stored s) ≡ some (r, stored s)) × (r.outcome ≡ is_paused)
unfolding call tick sync_now attempt refusal
call_paused o (ticks now p) s h = (report is_paused s, ground arith, refl)
call_paused o (syncs p) s h = (report is_paused s, ground arith, refl)

calls_paused :
    (o : Options) (cs : List Call) (s : State)
    → truthy s.paused ≡ true
    → calls o cs (stored s) ≡ some (replicate (length cs) is_paused, stored s)
unfolding calls
calls_paused o [] s h = refl
calls_paused o (c ∷ cs) s h =
    let (r, done, e) = call_paused o c s h in rw (done, calls, calls_paused o cs s h, e)

-- A pass that fails for good, with a message that is not empty, pauses the schedule: of the calls
-- after it, ticks and manual syncs alike, none runs a pass or writes the store.
pub calls_after_permanent :
    (o : Options) (p : Pass) (m : String) (s : State) (cs : List Call)
    → p.end ≡ throws m true
    → m ≢ ""
    → truthy s.paused ≡ false
    → (s' : State) × (r : TickResult) × (sync_now o p (stored s) ≡ some (r, stored s'))
      × (calls o cs (stored s') ≡ some (replicate (length cs) is_paused, stored s'))
unfolding sync_now attempt refusal run_pass after_failure
calls_after_permanent o p m s cs e h free = (
  after_failure o p s m true,
  record { outcome = is_paused; state = after_failure o p s m true; error = some m },
  ground arith,
  calls_paused o cs (after_failure o p s m true) (ground (arith, eq_iff m "")),
)

-- With an empty message the same failure is reported as a pause but is none: the next tick, at
-- whatever time, runs a pass again.
pub tick_after_empty_message :
    (o : Options) (p q : Pass) (now : ℕ) (s : State)
    → p.end ≡ throws "" true
    → truthy s.paused ≡ false
    → (s' : State) × (r : TickResult) × (sync_now o p (stored s) ≡ some (r, stored s'))
      × (r.outcome ≡ is_paused)
      × (tick o now (stored s') false q (stored s') ≡ some (run_pass o q q.end s'))
unfolding sync_now attempt refusal run_pass after_failure tick due
tick_after_empty_message o p q now s e free = (
  after_failure o p s "" true,
  record { outcome = is_paused; state = after_failure o p s "" true; error = some "" },
  ground arith,
  refl,
  refl,
)

-- After `resume`, on any readable store, the next tick runs its pass whatever the time, and the last
-- success and the last error are still on record.
pub tick-resume :
    (o : Options) (p : Pass) (now : ℕ) (slot : Slot) (s : State)
    → status slot ≡ some s
    → (s' : State) × (resume slot ≡ some (s', stored s'))
      × (s'.last_success_at ≡ s.last_success_at)
      × (s'.last_error ≡ s.last_error)
      × (tick o now (stored s') false p (stored s') ≡ some (run_pass o p p.end s'))
unfolding resume tick attempt refusal due
tick-resume o p now slot s e = (cleared s, rw e, refl, refl, refl)
