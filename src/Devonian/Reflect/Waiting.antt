-- ===== src/Devonian/Reflect/Waiting.antt =====
-- `drain` of devonian/src/reflect/engine.ts: the looks at the pending writes.
use atomic_plugins.Prelude.{
  ℕ, zero, suc, ◌+◌, ◌≤◌, ◌<◌, String, Option, none, some, ◌≡◌, refl, ap, ◌∙◌, inl, inr, Bool-cases,
  Option-cases, arith, lt→ltb,
}
use atomic_plugins.Prelude.JsText.{◌+++◌}
use atomic_plugins.Devonian.Reflect.Client.{
  Client, Side, is_empty, first_stuck, look, drain_loop, drain,
}

module _ {S : Type 0} (side : Side S) (client : Client S) (max_attempts : ℕ) where
  -- The state after some waits.
  abbrev pub slept : ℕ → S → S
  slept zero s = s
  slept (suc n) s = slept n (side.sleep s)

  look_late :
      (deadline : ℕ) (s : S)
      → deadline < side.now s
      → (e : Option String) × (look side client max_attempts deadline s ≡ some e)
  unfolding look
  look_late deadline s h = elim (Bool-cases (is_empty (client.pending_writes s))) [
    | inl e ↦ (none, rw e refl)
    | inr e ↦ elim (Option-cases (first_stuck max_attempts (client.pending_writes s))) [
      | inl f ↦ (
        some "timed out waiting for write to settle",
        rw (e, f, lt→ltb deadline (side.now s) h) refl,
      )
      | inr (w, f) ↦ (some ("write failed: " +++ w), rw (e, f) refl)
    ]
  ]

  -- No look before that of `n` ends the waiting.
  abbrev pub Waits : ℕ → ℕ → S → Type 0
  Waits deadline zero s = Unit {0}
  Waits deadline (suc n) s =
      (look side client max_attempts deadline s ≡ none) × Waits deadline n (side.sleep s)

  abbrev pub Ends : ℕ → ℕ → S → Type 0
  Ends fuel deadline s =
      (n : ℕ) × (e : Option String) × (n ≤ fuel)
      × Waits deadline n s
      × (look side client max_attempts deadline (slept n s) ≡ some e)
      × (drain_loop side client max_attempts deadline (suc fuel) s ≡ (slept n s, e))

  on_look : Option (Option String) → S → S × Option String → S × Option String
  on_look none s rest = rest
  on_look (some e) s rest = (s, e)

  drain_loop_step :
      (fuel deadline : ℕ) (s : S) (o : Option (Option String))
      → look side client max_attempts deadline s ≡ o
      → drain_loop side client max_attempts deadline (suc fuel) s
        ≡ on_look o s (drain_loop side client max_attempts deadline fuel (side.sleep s))
  unfolding drain_loop on_look
  drain_loop_step fuel deadline s none e =
      ap
        (λ o. elim o [
          | some f ↦ (s, f)
          | none ↦ drain_loop side client max_attempts deadline fuel (side.sleep s)
        ])
        e
  drain_loop_step fuel deadline s (some f) e =
      ap
        (λ o. elim o [
          | some f ↦ (s, f)
          | none ↦ drain_loop side client max_attempts deadline fuel (side.sleep s)
        ])
        e

  drain_loop-Ends :
      (fuel deadline : ℕ) (s : S)
      → ((t : S) → side.now t < side.now (side.sleep t))
      → deadline < side.now s + fuel
      → Ends fuel deadline s
  unfolding on_look
  drain_loop-Ends zero deadline s tick h =
      let l = look_late deadline s (omega (arith, h)) in
      (zero, l.0, omega arith, tt, l.1, drain_loop_step zero deadline s (some l.0) l.1)
  drain_loop-Ends (suc fuel) deadline s tick h =
      elim (Option-cases (look side client max_attempts deadline s)) [
        | inl e ↦
            let rest =
              drain_loop-Ends fuel deadline (side.sleep s) tick (omega (arith, h, tick s)) in
            (
              suc rest.0,
              rest.1,
              omega (arith, rest.2),
              (e, rest.3),
              rest.4,
              drain_loop_step (suc fuel) deadline s none e ∙ rest.5,
            )
        | inr (o, e) ↦
            (zero, o, omega arith, tt, e, drain_loop_step (suc fuel) deadline s (some o) e)
      ]

  -- Where each sleep takes time, the waiting for a write ends at the first look that shows no pending
  -- write, a stuck one, or the deadline gone by: no look before shows any of these, the looks are
  -- those after no sleep, one sleep and so on, and there are at most as many sleeps as the timeout
  -- has milliseconds and one.
  pub drain_ends :
      (timeout : ℕ) (s : S)
      → ((t : S) → side.now t < side.now (side.sleep t))
      → (n : ℕ) × (e : Option String) × (n ≤ timeout + 1)
        × Waits (side.now s + timeout) n s
        × (look side client max_attempts (side.now s + timeout) (slept n s) ≡ some e)
        × (drain side client max_attempts timeout s ≡ (slept n s, e))
  unfolding drain
  drain_ends timeout s tick =
      drain_loop-Ends (timeout + 1) (side.now s + timeout) s tick (omega arith)
