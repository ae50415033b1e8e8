-- ===== src/Devonian/Reflect/States/Agreement.antt =====
-- `reflectState` of devonian/src/reflect/engine.ts: what it leaves of a pair.
use atomic_plugins.Prelude.{
  String, Bool, true, false, not, ◌&&◌, Option, none, some, List, [], ◌∷◌, ◌++◌, length,
  length-append, str_eq, eq_iff, if◌then◌else◌, ◌≡◌, ◌≢◌, refl, sym, ap, subst, ◌∙◌, inl, inr,
  Bool-cases, arith,
}
use mathlib.Core.Option.{some-injective}
use atomic_plugins.Prelude.Grouping.{find, put, find-put_self}
use atomic_plugins.Devonian.Reflect.Client.{Item, body_of, state_of, Side}
use atomic_plugins.Devonian.Reflect.Copies.{Settings, Failure, hash, is_of_system}
use atomic_plugins.Devonian.Reflect.States.{
  Pass, is_last, a_wins, recorded, write_a, write_b, agree, key_for, wins, reflect_states,
  with_both, reflect_ends, synced,
}

-- The next synchronisation of the side shows the issue in this state.
abbrev pub Shows : {S : Type 0} → Side S → S → String → String → Type 0
Shows side s id state =
    (i : Item) × (side.issues.get (side.issues.sync s) id ≡ some i) × (state_of i ≡ state)

-- A state that the service took without an error is what it gives at the next synchronisation. What
-- is read before that may be older.
abbrev pub ServesStates : {S : Type 0} → Side S → Type 0
ServesStates {S = S} side =
    (s : S) (id state : String)
    → (side.set_state s id state).1 ≡ none
    → Shows side (side.set_state s id state).0 id state

-- Without a last agreement, both sides count as changed.
abbrev changed : Option String → String → Bool
changed none state = true
changed (some l) state = not (str_eq state l)

-- The state of the side that alone changed, else that of the original.
abbrev pub winner_of : Option String → String → String → Bool → String
winner_of last a_state b_state a_is_copy =
    if changed last a_state && not (changed last b_state)
    then a_state
    else if changed last b_state && not (changed last a_state)
    then b_state
    else if a_is_copy
    then b_state
    else a_state

by_tests :
    (x y c : Bool) (s t : String)
    → (if (if not x && y then true else if not y && x then false else not c) then s else t)
      ≡ (if not x && not (not y) then s else if not y && not (not x) then t else if c then t else s)
by_tests true true true s t = refl
by_tests true true false s t = refl
by_tests true false c s t = refl
by_tests false true c s t = refl
by_tests false false true s t = refl
by_tests false false false s t = refl

winner_lem :
    (last : Option String) (s t : String) (c : Bool)
    → (if a_wins last s t c then s else t) ≡ winner_of last s t c
unfolding a_wins
winner_lem none s t true = refl
winner_lem none s t false = refl
winner_lem (some l) s t c = by_tests (str_eq s l) (str_eq t l) c s t

push_differs : {A : Type 0} (xs : List A) (x : A) → xs ++ x ∷ [] ≢ xs
push_differs xs x e = omega (arith, length-append xs (x ∷ []), ap length e)

is_last-some : (o : Option String) (state : String) → is_last o state ≡ true → o ≡ some state
is_last-some none state h = absurd (cc)
is_last-some (some l) state h = ap some ((eq_iff l state).0 h)

some-is_last : (o : Option String) (state : String) → o ≡ some state → is_last o state ≡ true
some-is_last none state h = absurd (cc)
some-is_last (some l) state h = (eq_iff l state).1 (some-injective _ _ h)

first_branch :
    {A : Type 0} (s w : Bool) (x y z : A) → s ≡ true → (if s then x else if w then y else z) ≡ x
first_branch true w x y z e = refl
first_branch false w x y z e = absurd (cc)

module _ {S : Type 0} (settings : Settings) (a b : Side S) where
  -- Both ends read the state, and it is in the ledger.
  abbrev pub AreAgreed : String → String → String → Pass S → Type 0
  AreAgreed a_id b_id state p =
      (i : Item) × (j : Item) × (a.issues.get p.a a_id ≡ some i)
      × (b.issues.get p.b b_id ≡ some j)
      × (state_of i ≡ state)
      × (state_of j ≡ state)
      × (find (key_for settings a b a_id b_id) p.ledger ≡ some state)

  -- What the next pass will read.
  abbrev pub next_read : Pass S → Pass S
  next_read = synced settings a b a.issues b.issues

  agree-AreAgreed :
      (a_id b_id state : String) (p : Pass S)
      → Shows a p.a a_id state
      → Shows b p.b b_id state
      → AreAgreed a_id b_id state
          (next_read (agree settings a b (key_for settings a b a_id b_id) state p))
  agree-AreAgreed a_id b_id state p (i, g, e) (j, h, f) =
      let key = key_for settings a b a_id b_id in
      let set = record p { ledger = put key (λ _. state) p.ledger } in
      elim (Bool-cases (is_last (find key p.ledger) state)) [
        | inl k ↦
            subst (λ t. AreAgreed a_id b_id state (next_read (if t then p else set))) (sym k)
              (i, j, g, h, e, f, is_last-some (find key p.ledger) state k)
        | inr k ↦
            subst (λ t. AreAgreed a_id b_id state (next_read (if t then p else set))) (sym k)
              (i, j, g, h, e, f, find-put_self key (λ _. state) p.ledger)
      ]

  recorded-AreAgreed :
      (a_id b_id target state : String) (error : Option String) (p : Pass S)
      → Shows a p.a a_id state
      → Shows b p.b b_id state
      → error ≡ none
      → AreAgreed a_id b_id state
          (next_read (recorded settings a b (key_for settings a b a_id b_id) target state error p))
  recorded-AreAgreed a_id b_id target state none p (i, g, e) (j, h, f) n =
      (i, j, g, h, e, f, find-put_self _ _ p.ledger)
  recorded-AreAgreed a_id b_id target state (some m) p g h n = absurd (cc)

  recorded_error :
      (key target state : String) (error : Option String) (p : Pass S)
      → (recorded settings a b key target state error p).summary.errors ≡ p.summary.errors
      → error ≡ none
  recorded_error key target state none p h = refl
  recorded_error key target state (some m) p h = absurd (push_differs p.summary.errors _ h)

  write_b-AreAgreed :
      (a_id b_id state : String) (p : Pass S)
      → ServesStates b
      → Shows a p.a a_id state
      → (write_b settings a b (key_for settings a b a_id b_id) b_id state p).summary.errors
        ≡ p.summary.errors
      → AreAgreed a_id b_id state
          (next_read (write_b settings a b (key_for settings a b a_id b_id) b_id state p))
  write_b-AreAgreed a_id b_id state p law g n =
      let done = b.set_state p.b b_id state in
      let key = key_for settings a b a_id b_id in
      let fine = recorded_error key (hash b.system b_id) state done.1 (record p { b = done.0 }) n in
      recorded-AreAgreed a_id b_id (hash b.system b_id) state done.1 (record p { b = done.0 }) g
        (law p.b b_id state fine) fine

  write_a-AreAgreed :
      (a_id b_id state : String) (p : Pass S)
      → ServesStates a
      → Shows b p.b b_id state
      → (write_a settings a b (key_for settings a b a_id b_id) a_id state p).summary.errors
        ≡ p.summary.errors
      → AreAgreed a_id b_id state
          (next_read (write_a settings a b (key_for settings a b a_id b_id) a_id state p))
  write_a-AreAgreed a_id b_id state p law h n =
      let done = a.set_state p.a a_id state in
      let key = key_for settings a b a_id b_id in
      let fine = recorded_error key (hash a.system a_id) state done.1 (record p { a = done.0 }) n in
      recorded-AreAgreed a_id b_id (hash a.system a_id) state done.1 (record p { a = done.0 })
        (law p.a a_id state fine) h fine

  -- By the code's choice.
  abbrev chosen : Pass S → String → String → Item → Item → String
  chosen p a_id b_id i j = if wins settings a b p a_id b_id i j then state_of i else state_of j

  -- By what changed since the last agreement.
  abbrev pub winner : Pass S → String → String → Item → Item → String
  winner p a_id b_id i j =
      winner_of (find (key_for settings a b a_id b_id) p.ledger) (state_of i) (state_of j)
        (is_of_system b.system (settings.markers.parse (body_of i)))

  pick :
      (a_id b_id : String) (s w : Bool) (sa sb : String) (errors : List Failure) (x y z : Pass S)
      → (s ≡ true → sa ≡ sb)
      → (sa ≡ sb → AreAgreed a_id b_id sa (next_read x))
      → (y.summary.errors ≡ errors → AreAgreed a_id b_id sa (next_read y))
      → (z.summary.errors ≡ errors → AreAgreed a_id b_id sb (next_read z))
      → (if s then x else if w then y else z).summary.errors ≡ errors
      → AreAgreed a_id b_id (if w then sa else sb) (next_read (if s then x else if w then y else z))
  pick a_id b_id true true sa sb errors x y z e f g h n = f (e refl)
  pick a_id b_id true false sa sb errors x y z e f g h n =
      subst (λ t. AreAgreed a_id b_id t (next_read x)) (e refl) (f (e refl))
  pick a_id b_id false true sa sb errors x y z e f g h n = g n
  pick a_id b_id false false sa sb errors x y z e f g h n = h n

  reflect_states-AreAgreed :
      (a_id b_id : String) (i j : Item) (p : Pass S)
      → ServesStates a
      → ServesStates b
      → Shows a p.a a_id (state_of i)
      → Shows b p.b b_id (state_of j)
      → (reflect_states settings a b a_id b_id i j p).summary.errors ≡ p.summary.errors
      → AreAgreed a_id b_id
          (chosen p a_id b_id i j)
          (next_read (reflect_states settings a b a_id b_id i j p))
  unfolding reflect_states
  reflect_states-AreAgreed a_id b_id i j p law_a law_b g h n =
      let key = key_for settings a b a_id b_id in
      pick a_id b_id (str_eq (state_of i) (state_of j)) (wins settings a b p a_id b_id i j)
        (state_of i) (state_of j) p.summary.errors (agree settings a b key (state_of i) p)
        (write_b settings a b key b_id (state_of i) p)
        (write_a settings a b key a_id (state_of j) p) (λ e. (eq_iff (state_of i) (state_of j)).0 e)
        (λ e. agree-AreAgreed a_id b_id (state_of i) p g (subst (Shows b p.b b_id) (sym e) h))
        (write_b-AreAgreed a_id b_id (state_of i) p law_b g)
        (write_a-AreAgreed a_id b_id (state_of j) p law_a h) n

  both_AreAgreed :
      (a_id b_id : String) (i j : Item) (o r : Option Item) (p : Pass S)
      → o ≡ some i
      → r ≡ some j
      → with_both settings a b a_id b_id o r p ≡ reflect_states settings a b a_id b_id i j p
  both_AreAgreed a_id b_id i j o r p g h = rw (g, h) refl

  -- Where both issues of a pair are there and a turn on it adds no error, both issues have one state
  -- after the next synchronisation, and it is in the ledger: that of `a` where it alone changed
  -- since the last agreement, of `b` where it alone did, else of the original. A state that is set
  -- without an error is taken to be what the next synchronisation shows, and so are the states that
  -- were read, of an issue that is not written: no one else changes them meanwhile.
  pub reflect_ends-AreAgreed :
      (a_id b_id : String) (i j : Item) (p : Pass S)
      → ServesStates a
      → ServesStates b
      → a.issues.get p.a a_id ≡ some i
      → b.issues.get p.b b_id ≡ some j
      → Shows a p.a a_id (state_of i)
      → Shows b p.b b_id (state_of j)
      → (reflect_ends settings a b a_id b_id p).summary.errors ≡ p.summary.errors
      → AreAgreed a_id b_id
          (winner p a_id b_id i j)
          (next_read (reflect_ends settings a b a_id b_id p))
  unfolding reflect_ends
  reflect_ends-AreAgreed a_id b_id i j p law_a law_b g h shows_a shows_b n =
      let e = both_AreAgreed a_id b_id i j _ _ p g h in
      let key = key_for settings a b a_id b_id in
      subst (λ w. AreAgreed a_id b_id w (next_read (reflect_ends settings a b a_id b_id p)))
        (winner_lem (find key p.ledger) (state_of i) (state_of j)
          (is_of_system b.system (settings.markers.parse (body_of i))))
        (subst (λ q. AreAgreed a_id b_id (chosen p a_id b_id i j) (next_read q)) (sym e)
          (reflect_states-AreAgreed a_id b_id i j p law_a law_b shows_a shows_b
            (sym (ap (λ q. q.summary.errors) e) ∙ n)))

  AreAgreed_still :
      (a_id b_id state : String) (q : Pass S)
      → AreAgreed a_id b_id state q
      → reflect_ends settings a b a_id b_id q ≡ q
  unfolding reflect_ends reflect_states
  AreAgreed_still a_id b_id state q (i, j, g, h, e, f, l) =
      let key = key_for settings a b a_id b_id in
      both_AreAgreed a_id b_id i j _ _ q g h
      ∙ first_branch (str_eq (state_of i) (state_of j)) (wins settings a b q a_id b_id i j)
          (agree settings a b key (state_of i) q) (write_b settings a b key b_id (state_of i) q)
          (write_a settings a b key a_id (state_of j) q) ((eq_iff _ _).1 (e ∙ sym f))
      ∙ ap (λ t. if t then q else record q { ledger = put key (λ _. state_of i) q.ledger })
          (some-is_last (find key q.ledger) (state_of i) (l ∙ ap some (sym e)))

  -- Where both issues of a pair are there and a turn on it adds no error, a second turn after the
  -- next synchronisation changes nothing at all. A state that is set without an error is taken to be
  -- what the next synchronisation shows, and so are the states that were read, of an issue that is
  -- not written: no one else changes them meanwhile.
  pub reflect_ends_again :
      (a_id b_id : String) (i j : Item) (p : Pass S)
      → ServesStates a
      → ServesStates b
      → a.issues.get p.a a_id ≡ some i
      → b.issues.get p.b b_id ≡ some j
      → Shows a p.a a_id (state_of i)
      → Shows b p.b b_id (state_of j)
      → (reflect_ends settings a b a_id b_id p).summary.errors ≡ p.summary.errors
      → reflect_ends settings a b a_id b_id (next_read (reflect_ends settings a b a_id b_id p))
        ≡ next_read (reflect_ends settings a b a_id b_id p)
  reflect_ends_again a_id b_id i j p law_a law_b g h shows_a shows_b n =
      AreAgreed_still a_id b_id (winner p a_id b_id i j)
        (next_read (reflect_ends settings a b a_id b_id p))
        (reflect_ends-AreAgreed a_id b_id i j p law_a law_b g h shows_a shows_b n)
