-- ===== src/Devonian/Reflect/Client.antt =====
-- What devonian/src/reflect/engine.ts asks of the two sides, and `drain`, which waits for a write.
-- The clients of the package syncables are parameters over the state `S` of a side.
use atomic_plugins.Prelude.{
  ℕ, zero, suc, ◌+◌, String, Bool, true, false, not, ◌&&◌, Option, none, some, List, [], ◌∷◌, ltb,
  leb, str_eq, if◌then◌else◌,
}
use atomic_plugins.Prelude.JsText.{◌+++◌}

-- A record with `String(record[idField])` and those of its fields that are texts.
pub record Item : Type 0 where
  pub id : String
  pub title : Option String
  pub body : Option String
  pub state : Option String

abbrev pub or_text : String → Option String → String
or_text default none = default
or_text default (some s) = s

abbrev pub body_of : Item → String
body_of item = or_text "" item.body

abbrev pub state_of : Item → String
state_of item = or_text "open" item.state

pub record Draft : Type 0 where
  pub title : Option String
  pub body : String

pub record Write : Type 0 where
  pub attempts : ℕ
  pub last_error : Option String

-- The operations that may throw give the state that they leave and the error's message.
pub record Client (S : Type 0) : Type 0 where
  pub sync : S → S
  pub list : S → List Item
  pub get : S → String → Option Item
  pub create : S → Draft → S × Option String
  pub pending_writes : S → List Write

pub record Side (S : Type 0) : Type 0 where
  pub system : String
  pub issues : Client S
  pub comments : String → Client S
  pub set_state : S → String → String → S × Option String
  pub now : S → ℕ
  pub sleep : S → S

-- `w.attempts >= maxAttempts && w.lastError`
abbrev pub stuck_error : ℕ → Write → Option String
stuck_error max_attempts w = elim w.last_error [
  | none ↦ none
  | some e ↦ if leb max_attempts w.attempts && not (str_eq e "") then some e else none
]

unfoldable pub first_stuck : ℕ → List Write → Option String
first_stuck max_attempts [] = none
first_stuck max_attempts (w ∷ ws) = elim (stuck_error max_attempts w) [
  | some e ↦ some e
  | none ↦ first_stuck max_attempts ws
]

abbrev pub is_empty : {A : Type 0} → List A → Bool
is_empty [] = true
is_empty (x ∷ xs) = false

module _ {S : Type 0} (side : Side S) (client : Client S) (max_attempts deadline : ℕ) where
  -- What one look at the pending writes shows: the end of the waiting, with its error if any.
  unfoldable pub look : S → Option (Option String)
  look s =
      if is_empty (client.pending_writes s)
      then some none
      else elim (first_stuck max_attempts (client.pending_writes s)) [
        | some e ↦ some (some ("write failed: " +++ e))
        | none ↦
            if ltb deadline (side.now s)
            then some (some "timed out waiting for write to settle")
            else none
      ]

  unfoldable pub drain_loop : ℕ → S → S × Option String
  drain_loop zero s = (s, some "timed out waiting for write to settle")
  drain_loop (suc fuel) s = elim (look s) [
    | some e ↦ (s, e)
    | none ↦ drain_loop fuel (side.sleep s)
  ]

-- As many looks as the waiting has milliseconds, and two more.
unfoldable pub drain : {S : Type 0} → Side S → Client S → ℕ → ℕ → S → S × Option String
unfolding drain_loop
drain side client max_attempts timeout s =
    drain_loop side client max_attempts (side.now s + timeout) (suc (timeout + 1)) s
