-- ===== src/Devonian/Reflect/Tests.antt =====
-- Two small trackers: a clock and the issues, of which one is copied and then closed. A marker is
-- the identifier of the original here.
use atomic_plugins.Prelude.{
  ℕ, ◌+◌, ◌≤◌, String, true, Option, none, some, List, [], ◌∷◌, ◌++◌, length, str_eq, if◌then◌else◌,
  ◌≡◌, refl, arith, Bool-cases, inl, inr, ap, sym, ◌∙◌,
}
use atomic_plugins.Prelude.JsText.{decimal, text_lt}
use atomic_plugins.Prelude.Grouping.{find}
use atomic_plugins.Devonian.Reflect.Links.{key, counterpart, joined}
use atomic_plugins.Devonian.Reflect.Client.{Item, state_of, Client, Side, look, drain, drain_loop}
use atomic_plugins.Devonian.Reflect.Waiting.{slept, Waits, drain_ends}
use atomic_plugins.Devonian.Reflect.Copies.{
  Settings, Progress, of_issues, existing_after, is_copy_of, find_copy, create_copy, reflect_item,
  reflect_items, reflect_all,
}
use atomic_plugins.Devonian.Reflect.Copies.Second.{reflect_all_again}
use atomic_plugins.Devonian.Reflect.States.{Pass, a_wins, reflect_states, reflect_ends, pair_key}
use atomic_plugins.Devonian.Reflect.States.Agreement.{
  Shows, ServesStates, AreAgreed, winner, next_read, reflect_ends-AreAgreed, reflect_ends_again,
}

record Tracker : Type 0 where
  time : ℕ
  items : List Item

abbrev with_id : String → List Item → Option Item
with_id id [] = none
with_id id (i ∷ items) = if str_eq i.id id then some i else with_id id items

abbrev with_state : String → String → List Item → List Item
with_state id state [] = []
with_state id state (i ∷ items) =
    let rest = with_state id state items in
    (if str_eq i.id id then record i { state = some state } else i) ∷ rest

abbrev issues_of : Client Tracker
issues_of = record {
  sync = λ s. s;
  list = λ s. s.items;
  get = λ s id. with_id id s.items;
  create = λ s d. (
    record s {
      items =
          s.items
          ++ (record {
            id = decimal (length s.items);
            title = d.title;
            body = some d.body;
            state = none;
          })
            ∷ [];
    },
    none,
  );
  pending_writes = λ s. [];
}

abbrev tracker : String → Side Tracker
tracker name = record {
  system = name;
  issues = issues_of;
  comments = λ id. record issues_of { list = λ s. [] };
  set_state = λ s id state. (record s { items = with_state id state s.items }, none);
  now = λ s. s.time;
  sleep = λ s. record s { time = s.time + 20 };
}

abbrev settings : Settings
settings = record {
  markers = record {
    parse = λ body.
        if str_eq body "" then none else some (record { system = "a"; kind = "issue"; id = body });
    embed = λ body ref. ref.id;
    strip = λ body. body;
  };
  max_attempts = 5;
  drain_timeout = 15000;
  bidirectional = true;
}

abbrev open_issue : Item
open_issue = record { id = "i"; title = some "Bug"; body = none; state = none }

abbrev start : Progress Tracker
start = record {
  to = record { time = 0; items = [] };
  links = [];
  summary = record { created = []; updated = []; errors = [] };
}

-- The first pass makes the copy and links it.
copied_once :
    (reflect_all settings
      (of_issues "a" "b")
      (tracker "a")
      (tracker "b")
      issues_of
      (open_issue ∷ [])
      start).to.items
    ≡ record { id = "0"; title = some "Bug"; body = some "i"; state = none } ∷ []
unfolding reflect_all existing_after reflect_items reflect_item create_copy find_copy is_copy_of
    drain drain_loop look counterpart find key decimal
copied_once = refl

abbrev first_pass : Progress Tracker
first_pass =
    reflect_all settings (of_issues "a" "b") (tracker "a") (tracker "b") issues_of (open_issue ∷ [])
      start

abbrev second_pass : Progress Tracker
second_pass =
    reflect_all settings (of_issues "a" "b") (tracker "a") (tracker "b") issues_of (open_issue ∷ [])
      (record { to = first_pass.to; links = first_pass.links; summary = start.summary })

reflect_all_again_example : (second_pass.to ≡ first_pass.to) × (second_pass.summary ≡ start.summary)
unfolding reflect_all existing_after reflect_items reflect_item create_copy find_copy is_copy_of
    drain drain_loop look counterpart find key decimal
reflect_all_again_example =
    reflect_all_again settings (of_issues "a" "b") (tracker "a") (tracker "b") issues_of
      (open_issue ∷ []) start first_pass.to start.summary refl

abbrev slow : Side Tracker
slow = record (tracker "b") {
  issues = record issues_of {
    pending_writes = λ s. record { attempts = 0; last_error = none } ∷ [];
  };
}

with_id-with_state :
    (id state : String) (items : List Item) (item : Item)
    → with_id id items ≡ some item
    → (i : Item) × (with_id id (with_state id state items) ≡ some i) × (state_of i ≡ state)
with_id-with_state id state [] item h = absurd (cc)
with_id-with_state id state (j ∷ items) item h = elim (Bool-cases (str_eq j.id id)) [
  | inl e ↦ (record j { state = some state }, rw (e, e) refl, refl)
  | inr e ↦
      let rest =
        with_id-with_state id state items item
          (sym (ap (λ b. if b then some j else with_id id items) e) ∙ h) in
      (rest.0, rw (e, e) rest.1, rest.2)
]

-- A side whose reads are as old as its last synchronisation with the service.
record Delayed : Type 0 where
  stored : List Item
  served : List Item

abbrev set_served : String → String → Delayed → Option Item → Delayed × Option String
set_served id state s none = (s, some "state update failed with status 404")
set_served id state s (some i) = (record s { served = with_state id state s.served }, none)

abbrev delayed_issues : Client Delayed
delayed_issues = record {
  sync = λ s. record s { stored = s.served };
  list = λ s. s.stored;
  get = λ s id. with_id id s.stored;
  create = λ s d. (s, none);
  pending_writes = λ s. [];
}

abbrev delayed : String → Side Delayed
delayed name = record {
  system = name;
  issues = delayed_issues;
  comments = λ id. delayed_issues;
  set_state = λ s id state. set_served id state s (with_id id s.served);
  now = λ s. 0;
  sleep = λ s. s;
}

served_again :
    (name id state : String) (s : Delayed) (o : Option Item)
    → with_id id s.served ≡ o
    → (set_served id state s o).1 ≡ none
    → Shows (delayed name) (set_served id state s o).0 id state
served_again name id state s none e h = absurd (cc)
served_again name id state s (some i) e h = with_id-with_state id state s.served i e

delayed-ServesStates : (name : String) → ServesStates (delayed name)
delayed-ServesStates name s id state h = served_again name id state s (with_id id s.served) refl h

-- The copy is closed after both were open.
abbrev closed : Item
closed = record { id = "0"; title = some "Bug"; body = some "i"; state = some "closed" }

abbrev parted : Pass Delayed
parted = record {
  a = record { stored = open_issue ∷ []; served = open_issue ∷ [] };
  b = record { stored = closed ∷ []; served = closed ∷ [] };
  links = first_pass.links;
  ledger = ("a#i|b#0", "open") ∷ [];
  summary = start.summary;
}

abbrev turned : Pass Delayed
turned = reflect_ends settings (delayed "a") (delayed "b") "i" "0" parted

reflect_ends-AreAgreed_example :
    AreAgreed settings
      (delayed "a")
      (delayed "b")
      "i"
      "0"
      (winner settings (delayed "a") (delayed "b") parted "i" "0" open_issue closed)
      (next_read settings (delayed "a") (delayed "b") turned)
unfolding reflect_ends reflect_states a_wins find pair_key joined text_lt
reflect_ends-AreAgreed_example =
    reflect_ends-AreAgreed settings (delayed "a") (delayed "b") "i" "0" open_issue closed parted
      (delayed-ServesStates "a") (delayed-ServesStates "b") refl refl (open_issue, refl, refl)
      (closed, refl, refl) refl

reflect_ends_again_example :
    reflect_ends settings
      (delayed "a")
      (delayed "b")
      "i"
      "0"
      (next_read settings (delayed "a") (delayed "b") turned)
    ≡ next_read settings (delayed "a") (delayed "b") turned
unfolding reflect_ends reflect_states a_wins find pair_key joined text_lt
reflect_ends_again_example =
    reflect_ends_again settings (delayed "a") (delayed "b") "i" "0" open_issue closed parted
      (delayed-ServesStates "a") (delayed-ServesStates "b") refl refl (open_issue, refl, refl)
      (closed, refl, refl) refl

-- The change of the copy wins: the service has the original closed, and what is read is older.
original_closed :
    (turned.a.served ≡ record open_issue { state = some "closed" } ∷ [])
    × (turned.a.stored ≡ open_issue ∷ [])
unfolding reflect_ends reflect_states a_wins find pair_key joined text_lt
original_closed = (refl, refl)

drain_ends_example :
    (n : ℕ) × (e : Option String) × (n ≤ 100 + 1)
    × Waits slow slow.issues 5 (0 + 100) n start.to
    × (look slow slow.issues 5 (0 + 100) (slept slow slow.issues 5 n start.to) ≡ some e)
    × (drain slow slow.issues 5 100 start.to ≡ (slept slow slow.issues 5 n start.to, e))
drain_ends_example = drain_ends slow slow.issues 5 100 start.to λ t. omega arith
