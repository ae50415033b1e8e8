-- ===== src/Background.antt =====
-- devonian/src/background/BackgroundSync.ts: the persisted background sync scheduler.
pub mod Schedule
pub mod Pause
pub mod Lease
mod Tests
use atomic_plugins.Prelude.{
  ℕ, suc, ◌+◌, ◌*◌, ◌^◌, min, max, String, str_eq, Bool, true, false, not, ◌&&◌, Option, none, some,
  leb, if◌then◌else◌,
}

-- What is persisted under the scheduler's name. The ISO 8601 strings are written from whole epoch
-- milliseconds and stand for them.
pub record State : Type 0 where
  pub failures : ℕ
  pub next_due_at : Option ℕ
  pub last_attempt_at : Option ℕ
  pub last_success_at : Option ℕ
  pub last_error : Option String
  pub paused : Option String

-- The entry of the state store: missing, text that does not parse to a state, or a state.
pub data Slot : Type 0 where
  absent corrupt : Slot
  stored : State → Slot

pub data TickOutcome : Type 0 where
  ran not_due busy is_paused failed : TickOutcome

pub record TickResult : Type 0 where
  pub outcome : TickOutcome
  pub state : State
  pub error : Option String

-- `intervalMs` is a positive integer; `maxBackoffMs` may be left out.
pub record Options : Type 0 where
  pub interval_ms : ℕ
  pub max_backoff_ms : Option ℕ

-- What one attempt meets: the clock each time that it is read, and how the pass ends. A pass that
-- fails throws an error, whose message is kept, and which the host may call permanent.
pub data PassEnd : Type 0 where
  succeeds : PassEnd
  throws : String → Bool → PassEnd

pub record Pass : Type 0 where
  pub checked : ℕ
  pub started : ℕ
  pub ended : ℕ
  pub scheduled : ℕ
  pub end : PassEnd

-- `none` is a thrown error: the stored state is corrupt.
infixl 5 ◌>>=◌
abbrev ◌>>=◌ {ℓ κ} : {A : Type ℓ} {B : Type κ} → Option A → (A → Option B) → Option B
none >>= k = none
some a >>= k = k a

abbrev pub fresh : State
fresh = record {
  failures = 0;
  next_due_at = none;
  last_attempt_at = none;
  last_success_at = none;
  last_error = none;
  paused = none;
}

abbrev pub status : Slot → Option State
status absent = some fresh
status corrupt = none
status (stored s) = some s

-- `state.paused` as a condition: the empty string counts as false.
abbrev pub truthy : Option String → Bool
truthy none = false
truthy (some s) = not (str_eq s "")

abbrev is_due_at : Option ℕ → ℕ → Bool
is_due_at none now = true
is_due_at (some at) now = leb at now

unfoldable pub due : State → ℕ → Bool
due s now = is_due_at s.next_due_at now

abbrev or_else : Option ℕ → ℕ → ℕ
or_else none d = d
or_else (some n) d = n

unfoldable pub backoff_cap : Options → ℕ
backoff_cap o = or_else o.max_backoff_ms (max o.interval_ms 3_600_000)

-- `Math.min(intervalMs * 2 ** (failures - 1), maxBackoffMs)`, after `failures - 1` earlier ones
unfoldable pub backoff : Options → ℕ → ℕ
backoff o earlier = min (o.interval_ms * 2 ^ earlier) (backoff_cap o)

after_failure : Options → Pass → State → String → Bool → State
after_failure o p s message permanent = record {
  failures = s.failures + 1;
  next_due_at = if permanent then none else some (p.ended + backoff o s.failures);
  last_attempt_at = some p.started;
  last_success_at = s.last_success_at;
  last_error = some message;
  paused = if permanent then some message else none;
}

after_success : Options → Pass → State
after_success o p = record {
  failures = 0;
  next_due_at = some (p.scheduled + o.interval_ms);
  last_attempt_at = some p.started;
  last_success_at = some p.ended;
  last_error = none;
  paused = none;
}

abbrev report : TickOutcome → State → TickResult
report outcome s = record { outcome = outcome; state = s; error = none }

-- The part of `attempt` from the pass on: the new state is written, and returned with the outcome.
unfoldable pub run_pass : Options → Pass → PassEnd → State → TickResult × Slot
unfolding after_failure after_success
run_pass o p succeeds s = (report ran (after_success o p), stored (after_success o p))
run_pass o p (throws message permanent) s =
    let next = after_failure o p s message permanent in
    (
      record {
        outcome = if permanent then is_paused else failed;
        state = next;
        error = some message;
      },
      stored next,
    )

-- Why no pass is run, if none is: a pause, or a time that has not come.
unfoldable pub refusal : Bool → ℕ → State → Option TickOutcome
refusal force now s =
    if truthy s.paused
    then some is_paused
    else if not force && not (due s now)
    then some not_due
    else none

-- The body under the lease; `force` is a person's "sync now".
unfoldable pub attempt : Options → Bool → Pass → Slot → Option (TickResult × Slot)
attempt o force p slot = do
  s ← status slot
  elim (refusal force p.checked s) [
    | some why ↦ some (report why s, slot)
    | none ↦ some (run_pass o p p.end s)
  ]

-- `tryWith`: what runs if the lease is free. The state is read again inside the lease or, if the
-- lease is taken, for the report.
try_attempt : Options → Bool → Pass → Slot → Option (TickResult × Slot)
try_attempt o true p slot = do s ← status slot; some (report busy s, slot)
try_attempt o false p slot = attempt o false p slot

-- `before` is the store when the tick first reads it, at `now`; `slot` is the store when the lease
-- is asked for, since other contexts may write in between. `held` says whether one has the lease.
unfoldable pub tick : Options → ℕ → Slot → Bool → Pass → Slot → Option (TickResult × Slot)
unfolding try_attempt
tick o now before held p slot = do
  s ← status before
  elim (refusal false now s) [
    | some why ↦ some (report why s, slot)
    | none ↦ try_attempt o held p slot
  ]

-- Waits for the lease, then runs whatever the due time.
unfoldable pub sync_now : Options → Pass → Slot → Option (TickResult × Slot)
sync_now o p slot = attempt o true p slot

-- Clears a pause. The last error stays on record.
abbrev cleared : State → State
cleared s = record s { paused = none; next_due_at = none; failures = 0 }

unfoldable pub resume : Slot → Option (State × Slot)
resume slot = do s ← status slot; some (cleared s, stored (cleared s))
