-- ===== src/Background/Lease.antt =====
-- Several contexts (tabs, workers) over one store and one lease: the interleavings of the
-- calls of devonian/src/background/BackgroundSync.ts.
use atomic_plugins.Prelude.{
  ℕ, ◌≡◌, ◌≢◌, ◌∙◌, ap, refl, inl, inr, Bool, true, false, Option, none, some, List, [], ◌∷◌, arith,
  Bool-cases, ==_iff, ◌==◌, if◌then◌else◌,
}
use atomic_plugins.Background.{
  State, Slot, stored, Options, Pass, TickOutcome, refusal, run_pass, attempt, status, resume,
  cleared,
}

-- Where a context stands. `asks` wants the lease for a tick or for a manual sync (`force`),
-- `holds` has it and is about to read the store, `runs` has read it and runs the pass, `clears`
-- has read it for `resume`.
pub data Phase : Type 0 where
  idle : Phase
  asks holds : Bool → Phase
  runs : Bool → ℕ → State → Phase
  asks_resume holds_resume : Phase
  clears : State → Phase

pub record World : Type 0 where
  pub slot : Slot
  pub holder : Option ℕ
  pub phase : ℕ → Phase

-- A call that wrote the store: an attempt with its pass, or a `resume`.
pub data Call : Type 0 where
  attempted : Bool → Pass → Call
  resumed : Call

unfoldable pub move : (ℕ → Phase) → ℕ → Phase → ℕ → Phase
move phase c to d = if d == c then to else phase d

-- `held.set`, then `held.delete` in `finally`: between the two the lease is held.
unfoldable pub enter : World → ℕ → Phase → World
enter w c to = record w { holder = some c; phase = move w.phase c to }

unfoldable pub leave : World → ℕ → Slot → World
leave w c slot = record { slot = slot; holder = none; phase = move w.phase c idle }

unfoldable pub stay : World → ℕ → Phase → World
stay w c to = record w { phase = move w.phase c to }

module _ (o : Options) where
  pub data Step (w : World) : World → Type 0 where
    -- the first part of `tick`: the store is read with no lease
    look :
        (c now : ℕ) (s : State)
        → w.phase c ≡ idle
        → status w.slot ≡ some s
        → refusal false now s ≡ none
        → Step w (stay w c (asks false))
    -- `syncNow` and `resume` ask at once
    press : (c : ℕ) → w.phase c ≡ idle → Step w (stay w c (asks true))
    press_resume : (c : ℕ) → w.phase c ≡ idle → Step w (stay w c asks_resume)
    -- a tick gives up when the lease is taken
    give_up : (c d : ℕ) → w.phase c ≡ asks false → w.holder ≡ some d → Step w (stay w c idle)
    take :
        (c : ℕ) (force : Bool)
        → w.phase c ≡ asks force
        → w.holder ≡ none
        → Step w (enter w c (holds force))
    take_resume :
        (c : ℕ) → w.phase c ≡ asks_resume → w.holder ≡ none → Step w (enter w c holds_resume)
    -- under the lease: refused, or the pass begins, or the store does not parse
    refuse :
        (c now : ℕ) (force : Bool) (s : State) (why : TickOutcome)
        → w.phase c ≡ holds force
        → status w.slot ≡ some s
        → refusal force now s ≡ some why
        → Step w (leave w c w.slot)
    begin :
        (c now : ℕ) (force : Bool) (s : State)
        → w.phase c ≡ holds force
        → status w.slot ≡ some s
        → refusal force now s ≡ none
        → Step w (stay w c (runs force now s))
    throw :
        (c : ℕ) (force : Bool)
        → w.phase c ≡ holds force
        → status w.slot ≡ none
        → Step w (leave w c w.slot)
    -- the pass ends and its state is written
    finish :
        (c now : ℕ) (force : Bool) (s : State) (p : Pass)
        → w.phase c ≡ runs force now s
        → p.checked ≡ now
        → Step w (leave w c (run_pass o p p.end s).1)
    read_resume :
        (c : ℕ) (s : State)
        → w.phase c ≡ holds_resume
        → status w.slot ≡ some s
        → Step w (stay w c (clears s))
    throw_resume :
        (c : ℕ) → w.phase c ≡ holds_resume → status w.slot ≡ none → Step w (leave w c w.slot)
    write_resume :
        (c : ℕ) (s : State) → w.phase c ≡ clears s → Step w (leave w c (stored (cleared s)))

  pub data Reach (w : World) : World → Type 0 where
    here : Reach w w
    next : {u v : World} → Reach w u → Step u v → Reach w v

  -- The calls of which a step is the end that writes the store, the last first.
  unfoldable pub ended : {w u : World} → Step w u → List Call → List Call
  ended (finish c now force s p at same) calls = attempted force p ∷ calls
  ended (write_resume c s at) calls = resumed ∷ calls
  ended (look c now s at read ok) calls = calls
  ended (press c at) calls = calls
  ended (press_resume c at) calls = calls
  ended (give_up c d at held) calls = calls
  ended (take c force at free) calls = calls
  ended (take_resume c at free) calls = calls
  ended (refuse c now force s why at read stop) calls = calls
  ended (begin c now force s at read ok) calls = calls
  ended (throw c force at bad) calls = calls
  ended (read_resume c s at read) calls = calls
  ended (throw_resume c at bad) calls = calls

  unfoldable pub calls_of : {w u : World} → Reach w u → List Call
  unfolding ended
  calls_of here = []
  calls_of (next r st) = ended st (calls_of r)

  -- One whole call on the store, with nothing between its read and its write.
  abbrev pub perform : Call → Slot → Option Slot
  perform (attempted force p) slot = elim (attempt o force p slot) [
    | none ↦ none
    | some (r, after) ↦ some after
  ]
  perform resumed slot = elim (resume slot) [ none ↦ none | some (s, after) ↦ some after ]

  -- Whole calls one after another, of which the list has the last first.
  unfoldable pub replay : List Call → Slot → Option Slot
  replay [] slot = some slot
  replay (call ∷ calls) slot = elim (replay calls slot) [
    | none ↦ none
    | some before ↦ perform call before
  ]

  -- What holds of a context, by its phase: inside, it is the holder, and what it has read is what the
  -- store still holds.
  abbrev pub Fits : World → ℕ → Phase → Type 0
  Fits w c idle = Unit {0}
  Fits w c (asks force) = Unit {0}
  Fits w c asks_resume = Unit {0}
  Fits w c (holds force) = w.holder ≡ some c
  Fits w c holds_resume = w.holder ≡ some c
  Fits w c (runs force now s) =
      (w.holder ≡ some c) × (status w.slot ≡ some s) × (refusal force now s ≡ none)
  Fits w c (clears s) = (w.holder ≡ some c) × (status w.slot ≡ some s)

  abbrev pub Inv : World → Type 0
  Inv w = (c : ℕ) → Fits w c (w.phase c)

move_cases :
    (P : ℕ → Phase → Type 0) (phase : ℕ → Phase) (c : ℕ) (to : Phase)
    → P c to
    → ((d : ℕ) → d ≢ c → P d (phase d))
    → (d : ℕ) → P d (move phase c to d)
unfolding move
move_cases P phase c to new old d = elim (Bool-cases (d == c)) [
  | inl e ↦ rw (e, (==_iff d c).0 e) new
  | inr n ↦ rw n (old d (ground arith))
]

-- A context that is outside stays fit whatever happens to lease and store.
module _ (o : Options) (w w' : World) where
  Fits-free : (d : ℕ) (ph : Phase) → w.holder ≡ none → Fits o w d ph → Fits o w' d ph
  Fits-free d idle free f = tt
  Fits-free d (asks force) free f = tt
  Fits-free d asks_resume free f = tt
  Fits-free d (holds force) free f = cc
  Fits-free d holds_resume free f = cc
  Fits-free d (runs force now s) free f = cc (f.0)
  Fits-free d (clears s) free f = cc (f.0)

  Fits-other : (c d : ℕ) (ph : Phase) → w.holder ≡ some c → d ≢ c → Fits o w d ph → Fits o w' d ph
  Fits-other c d idle h n f = tt
  Fits-other c d (asks force) h n f = tt
  Fits-other c d asks_resume h n f = tt
  Fits-other c d (holds force) h n f = absurd (n (ground arith))
  Fits-other c d holds_resume h n f = absurd (n (ground arith))
  Fits-other c d (runs force now s) h n f = absurd (n (ground (arith, f.0)))
  Fits-other c d (clears s) h n f = absurd (n (ground (arith, f.0)))

Fits-stay :
    (o : Options) (w : World) (c : ℕ) (to : Phase) (d : ℕ) (ph : Phase)
    → Fits o w d ph
    → Fits o (stay w c to) d ph
unfolding stay
Fits-stay o w c to d idle f = tt
Fits-stay o w c to d (asks force) f = tt
Fits-stay o w c to d asks_resume f = tt
Fits-stay o w c to d (holds force) f = f
Fits-stay o w c to d holds_resume f = f
Fits-stay o w c to d (runs force now s) f = f
Fits-stay o w c to d (clears s) f = f

module _ (o : Options) (w : World) (v : Inv o w) where
  stay-Inv : (c : ℕ) (to : Phase) → Fits o w c to → Inv o (stay w c to)
  unfolding stay
  stay-Inv c to f =
      move_cases (Fits o (stay w c to)) w.phase c to (Fits-stay o w c to c to f)
        (λ d n. Fits-stay o w c to d (w.phase d) (v d))

  enter-Inv :
      (c : ℕ) (to : Phase) → Fits o (enter w c to) c to → w.holder ≡ none → Inv o (enter w c to)
  unfolding enter
  enter-Inv c to f free =
      move_cases (Fits o (enter w c to)) w.phase c to f
        (λ d n. Fits-free o w (enter w c to) d (w.phase d) free (v d))

  leave-Inv : (c : ℕ) (slot : Slot) → w.holder ≡ some c → Inv o (leave w c slot)
  unfolding leave
  leave-Inv c slot h =
      move_cases (Fits o (leave w c slot)) w.phase c idle tt
        (λ d n. Fits-other o w (leave w c slot) c d (w.phase d) h n (v d))

  -- What a context's phase says of lease and store.
  fits : (c : ℕ) (ph : Phase) → w.phase c ≡ ph → Fits o w c ph
  fits c ph e = rw e at (v c)

  -- Every step of a context keeps the invariant.
  pub step-Inv : {u : World} → Step o w u → Inv o u
  unfolding enter
  step-Inv (look c now s at read ok) = stay-Inv c (asks false) tt
  step-Inv (press c at) = stay-Inv c (asks true) tt
  step-Inv (press_resume c at) = stay-Inv c asks_resume tt
  step-Inv (give_up c d at held) = stay-Inv c idle tt
  step-Inv (take c force at free) = enter-Inv c (holds force) refl free
  step-Inv (take_resume c at free) = enter-Inv c holds_resume refl free
  step-Inv (refuse c now force s why at read stop) = leave-Inv c _ (fits c _ at)
  step-Inv (begin c now force s at read ok) = stay-Inv c (runs force now s) (fits c _ at, read, ok)
  step-Inv (throw c force at bad) = leave-Inv c _ (fits c _ at)
  step-Inv (finish c now force s p at same) = leave-Inv c _ (fits c _ at).0
  step-Inv (read_resume c s at read) = stay-Inv c (clears s) (fits c _ at, read)
  step-Inv (throw_resume c at bad) = leave-Inv c _ (fits c _ at)
  step-Inv (write_resume c s at) = leave-Inv c _ (fits c _ at).0

module _ (o : Options) (w : World) (v : Inv o w) where
  attempt_runs :
      (now : ℕ) (force : Bool) (s : State) (p : Pass)
      → status w.slot ≡ some s
      → refusal force now s ≡ none
      → p.checked ≡ now
      → attempt o force p w.slot ≡ some (run_pass o p p.end s)
  unfolding attempt refusal run_pass
  attempt_runs now force s p read ok same = rw (read, attempt) (rw (same, ok))

  resume_writes :
      (s : State) → status w.slot ≡ some s → resume w.slot ≡ some (cleared s, stored (cleared s))
  unfolding resume
  resume_writes s read = rw (read, resume)

  -- A step writes the store only as a whole call does on what the store holds then.
  step-replay :
      {u : World} (slot : Slot) (st : Step o w u) (calls : List Call)
      → replay o calls slot ≡ some w.slot
      → replay o (ended o st calls) slot ≡ some u.slot
  unfolding stay enter leave resume replay ended
  step-replay slot (finish c now force s p at same) calls z =
      let (h, read, ok) = fits o w v c _ at in
      ap (λ b. elim b [ none ↦ none | some before ↦ perform o (attempted force p) before ]) z
      ∙ ap (λ a. elim a [ none ↦ none | some (r, after) ↦ some after ])
          (attempt_runs now force s p read ok same)
  step-replay slot (write_resume c s at) calls z =
      let (h, read) = fits o w v c _ at in
      ap (λ b. elim b [ none ↦ none | some before ↦ perform o resumed before ]) z
      ∙ ap (λ a. elim a [ none ↦ none | some (t, after) ↦ some after ]) (resume_writes s read)
  step-replay slot (look c now s at read ok) calls z = z
  step-replay slot (press c at) calls z = z
  step-replay slot (press_resume c at) calls z = z
  step-replay slot (give_up c d at held) calls z = z
  step-replay slot (take c force at free) calls z = z
  step-replay slot (take_resume c at free) calls z = z
  step-replay slot (refuse c now force s why at read stop) calls z = z
  step-replay slot (begin c now force s at read ok) calls z = z
  step-replay slot (throw c force at bad) calls z = z
  step-replay slot (read_resume c s at read) calls z = z
  step-replay slot (throw_resume c at bad) calls z = z

-- All contexts idle and the lease free.
abbrev pub start : Slot → World
start slot = record { slot = slot; holder = none; phase = λ _. idle }

pub Reach-Inv : (o : Options) (slot : Slot) {w : World} → Reach o (start slot) w → Inv o w
Reach-Inv o slot here = λ c. tt
Reach-Inv o slot (next {u} r st) = step-Inv o u (Reach-Inv o slot r) st

-- Whatever the contexts do and however their steps interleave, the store holds what the attempts and
-- resumes that wrote it in this run leave behind if they are made whole, one after another, in the
-- order of their writes, on the store that the run started with.
pub Reach-Serial :
    (o : Options) (slot : Slot) {w : World} (r : Reach o (start slot) w)
    → replay o (calls_of o r) slot ≡ some w.slot
unfolding calls_of replay
Reach-Serial o slot here = refl
Reach-Serial o slot (next {u} r st) =
    step-replay o u (Reach-Inv o slot r) slot st (calls_of o r) (Reach-Serial o slot r)

-- Inside the lease: the phases in which a pass or a resume may read and write the store.
abbrev pub IsInside : Phase → Type 0
IsInside idle = ⊥
IsInside (asks force) = ⊥
IsInside asks_resume = ⊥
IsInside (holds force) = Unit {0}
IsInside holds_resume = Unit {0}
IsInside (runs force now s) = Unit {0}
IsInside (clears s) = Unit {0}

inside-holder :
    (o : Options) (w : World) (c : ℕ) (ph : Phase) → IsInside ph → Fits o w c ph → w.holder ≡ some c
inside-holder o w c idle i f = absurd i
inside-holder o w c (asks force) i f = absurd i
inside-holder o w c asks_resume i f = absurd i
inside-holder o w c (holds force) i f = f
inside-holder o w c holds_resume i f = f
inside-holder o w c (runs force now s) i f = f.0
inside-holder o w c (clears s) i f = f.0

-- At no time are two contexts inside the lease.
pub Reach-exclusive :
    (o : Options) (slot : Slot) {w : World} (c d : ℕ)
    → Reach o (start slot) w
    → IsInside (w.phase c)
    → IsInside (w.phase d)
    → c ≡ d
Reach-exclusive o slot {w} c d r i j =
    let v = Reach-Inv o slot r in
    ground (arith, inside-holder o w c (w.phase c) i (v c), inside-holder o w d (w.phase d) j (v d))
