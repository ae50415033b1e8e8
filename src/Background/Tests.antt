-- ===== src/Background/Tests.antt =====
-- Runs of the background scheduler, and its theorems at concrete inputs.
use atomic_plugins.Prelude.{ℕ, ◌+◌, ◌≡◌, refl, true, false, [], ◌∷◌, none, some, arith, eq_iff}
use atomic_plugins.Background.{
  cleared, State, absent, stored, Options, Pass, PassEnd, succeeds, throws, is_paused, TickOutcome,
  run_pass, attempt, tick, sync_now, fresh, due, refusal, TickResult, backoff, backoff_cap,
}
use atomic_plugins.Background.Schedule.{Backed, attempts, attempts-Backed}
use atomic_plugins.Background.Pause.{
  ticks, syncs, calls, calls_after_permanent, tick_after_empty_message,
}
use atomic_plugins.Background.Lease
use atomic_plugins.Background.Lease.{
  Step, Reach, here, next, press, take, begin, finish, press_resume, take_resume, read_resume,
  write_resume, runs, asks_resume, holds_resume, clears, attempted, resumed, ended, calls_of,
  replay, leave, World, start, Reach-Serial, Reach-exclusive, holds, stay, enter, move,
}

abbrev hourly : Options
hourly = record { interval_ms = 1_000; max_backoff_ms = some 5_000 }

abbrev pass_at : ℕ → PassEnd → Pass
pass_at t e = record { checked = t; started = t; ended = t + 10; scheduled = t + 10; end = e }

abbrev failing : Pass
failing = pass_at 100 (throws "offline" false)

abbrev after_good : State
after_good = record {
  failures = 0;
  next_due_at = some 1_110;
  last_attempt_at = some 100;
  last_success_at = some 110;
  last_error = none;
  paused = none;
}

fourth_wait : backoff hourly 3 ≡ 5_000
unfolding backoff backoff_cap
fourth_wait = refl

early :
    attempt hourly false (pass_at 1_000 succeeds) (stored after_good)
    ≡ some (
      record { outcome = TickOutcome.not_due; state = after_good; error = none },
      stored after_good,
    )
unfolding attempt refusal due
early = refl

attempts-Backed_example :
    (s : State) × (attempts hourly (failing ∷ failing ∷ []) (stored fresh) ≡ some (stored s))
    × Backed hourly 1 failing none s
attempts-Backed_example =
    attempts-Backed hourly (failing ∷ []) failing fresh refl
      (("offline", refl), (("offline", refl), tt))

calls_after_permanent_example :
    (s : State) × (r : TickResult) × (sync_now hourly
        (pass_at 5 (throws "revoked" true))
        (stored fresh)
      ≡ some (r, stored s))
    × (calls hourly (ticks 90_000 failing ∷ syncs failing ∷ []) (stored s)
        ≡ some (is_paused ∷ is_paused ∷ [], stored s))
calls_after_permanent_example =
    calls_after_permanent hourly (pass_at 5 (throws "revoked" true)) "revoked" fresh
      (ticks 90_000 failing ∷ syncs failing ∷ []) refl (λ e. ground (arith, eq_iff "revoked" ""))
      refl

tick_after_empty_message_example :
    (s : State) × (r : TickResult) × (sync_now hourly (pass_at 5 (throws "" true)) (stored fresh)
      ≡ some (r, stored s))
    × (r.outcome ≡ is_paused)
    × (tick hourly 6 (stored s) false failing (stored s)
        ≡ some (run_pass hourly failing failing.end s))
tick_after_empty_message_example =
    tick_after_empty_message hourly (pass_at 5 (throws "" true)) failing 6 fresh refl refl

-- Context 1 asks for a manual sync, takes the lease and runs.
abbrev asked : World
asked = stay (start absent) 1 (Lease.asks true)

pressed : Reach hourly (start absent) asked
pressed = next here (press 1 refl)

abbrev held : World
held = enter asked 1 (holds true)

taken : Reach hourly (start absent) held
unfolding stay move
taken = next pressed (take 1 true refl refl)

abbrev running : World
running = stay held 1 (runs true 100 fresh)

abbrev failed_once : World
failed_once = leave running 1 (run_pass hourly failing failing.end fresh).1

one_attempt : Reach hourly (start absent) failed_once
unfolding stay move enter leave refusal
one_attempt =
    next (next taken (begin 1 100 true fresh refl refl refl))
      (finish 1 100 true fresh failing refl refl)

-- Then context 2 resumes.
abbrev waiting : World
waiting = stay failed_once 2 asks_resume

abbrev resuming : World
resuming = enter waiting 2 holds_resume

abbrev read : World
read = stay resuming 2 (clears (run_pass hourly failing failing.end fresh).0.state)

abbrev resumed_after : World
resumed_after = leave read 2 (stored (cleared (run_pass hourly failing failing.end fresh).0.state))

two_calls : Reach hourly (start absent) resumed_after
unfolding stay move enter leave run_pass
two_calls =
    next
      (next (next (next one_attempt (press_resume 2 refl)) (take_resume 2 refl refl))
        (read_resume 2 (run_pass hourly failing failing.end fresh).0.state refl refl))
      (write_resume 2 (run_pass hourly failing failing.end fresh).0.state refl)

Reach-Serial_example : replay hourly (calls_of hourly two_calls) absent ≡ some resumed_after.slot
Reach-Serial_example = Reach-Serial hourly absent two_calls

both_calls : calls_of hourly two_calls ≡ resumed ∷ attempted true failing ∷ []
unfolding calls_of two_calls one_attempt taken pressed
both_calls = refl

Reach-exclusive_example : ◌≡◌ {A = ℕ} 1 1
unfolding enter move
Reach-exclusive_example = Reach-exclusive hourly absent 1 1 taken tt tt
