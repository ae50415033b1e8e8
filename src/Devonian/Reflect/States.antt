-- ===== src/Devonian/Reflect/States.antt =====
-- devonian/src/reflect/engine.ts: `reflectState`, which keeps the two ends of a pair open or closed
-- together, `reflectComments` and the whole pass.
pub mod Agreement
use atomic_plugins.Prelude.{
  String, Bool, true, false, not, ◌&&◌, Option, none, some, List, [], ◌∷◌, ◌++◌, str_eq,
  if◌then◌else◌,
}
use atomic_plugins.Prelude.Grouping.{find, put}
use atomic_plugins.Devonian.Reflect.Links.{Link, IdMap, Pair, links, joined}
use atomic_plugins.Devonian.Reflect.Client.{Item, body_of, state_of, Client, Side}
use atomic_plugins.Devonian.Reflect.Copies.{
  OriginRef, Markers, Updated, Failure, Summary, Settings, Progress, hash, is_of_system,
  of_comments, reflect_all, reflect_creates,
}

pub record Pass (S : Type 0) : Type 0 where
  pub a : S
  pub b : S
  pub links : IdMap
  pub ledger : List (String × String)
  pub summary : Summary

-- `endFor`
unfoldable pub end_for : Pair → String → Option Link
end_for pair system =
    if str_eq pair.a.system system
    then some pair.a
    else if str_eq pair.b.system system
    then some pair.b
    else none

unfoldable pub pair_key : String → String → String → String → String
pair_key system_a id_a system_b id_b = joined (hash system_a id_a) (hash system_b id_b)

abbrev pub is_last : Option String → String → Bool
is_last none state = false
is_last (some l) state = str_eq l state

-- Whether the state of `a` is written to `b`: of two states that differ, with the last one agreed.
unfoldable pub a_wins : Option String → String → String → Bool → Bool
a_wins none a_state b_state a_is_copy = not a_is_copy
a_wins (some l) a_state b_state a_is_copy =
    if not (str_eq a_state l) && str_eq b_state l
    then true
    else if not (str_eq b_state l) && str_eq a_state l
    then false
    else not a_is_copy

module _ {S : Type 0} (settings : Settings) (a b : Side S) where
  abbrev pub recorded : String → String → String → Option String → Pass S → Pass S
  recorded key target winner none p = record p {
    ledger = put key (λ _. winner) p.ledger;
    summary = record p.summary {
      updated =
          p.summary.updated ++ (record { kind = "issue"; target = target; state = winner }) ∷ [];
    };
  }
  recorded key target winner (some e) p = record p {
    summary = record p.summary {
      errors = p.summary.errors ++ (record { kind = "issue"; from = target; error = e }) ∷ [];
    };
  }

  abbrev pub write_a : String → String → String → Pass S → Pass S
  write_a key id winner p =
      let done = a.set_state p.a id winner in
      recorded key (hash a.system id) winner done.1 (record p { a = done.0 })

  abbrev pub write_b : String → String → String → Pass S → Pass S
  write_b key id winner p =
      let done = b.set_state p.b id winner in
      recorded key (hash b.system id) winner done.1 (record p { b = done.0 })

  abbrev pub agree : String → String → Pass S → Pass S
  agree key state p =
      if is_last (find key p.ledger) state
      then p
      else record p { ledger = put key (λ _. state) p.ledger }

  abbrev pub key_for : String → String → String
  key_for a_id b_id = pair_key a.system a_id b.system b_id

  abbrev pub wins : Pass S → String → String → Item → Item → Bool
  wins p a_id b_id a_issue b_issue =
      a_wins (find (key_for a_id b_id) p.ledger) (state_of a_issue) (state_of b_issue)
        (is_of_system b.system (settings.markers.parse (body_of a_issue)))

  unfoldable pub reflect_states : String → String → Item → Item → Pass S → Pass S
  reflect_states a_id b_id a_issue b_issue p =
      if str_eq (state_of a_issue) (state_of b_issue)
      then agree (key_for a_id b_id) (state_of a_issue) p
      else if wins p a_id b_id a_issue b_issue
      then write_b (key_for a_id b_id) b_id (state_of a_issue) p
      else write_a (key_for a_id b_id) a_id (state_of b_issue) p

  abbrev pub with_both : String → String → Option Item → Option Item → Pass S → Pass S
  with_both a_id b_id none b_issue p = p
  with_both a_id b_id (some i) none p = p
  with_both a_id b_id (some i) (some j) p = reflect_states a_id b_id i j p

  unfoldable pub reflect_ends : String → String → Pass S → Pass S
  reflect_ends a_id b_id p = with_both a_id b_id (a.issues.get p.a a_id) (b.issues.get p.b b_id) p

  -- What is done with the two ends, where both are of these systems.
  abbrev on_ends : (String → String → Pass S → Pass S) → Option Link → Option Link → Pass S → Pass S
  on_ends f none b_end p = p
  on_ends f (some i) none p = p
  on_ends f (some i) (some j) p = f i.id j.id p

  unfoldable pub for_pairs : (String → String → Pass S → Pass S) → List Pair → Pass S → Pass S
  unfolding end_for
  for_pairs f [] p = p
  for_pairs f (pair ∷ pairs) p =
      for_pairs f pairs (on_ends f (end_for pair a.system) (end_for pair b.system) p)

  unfoldable pub reflect_state : Pass S → Pass S
  unfolding for_pairs reflect_ends
  reflect_state p = for_pairs reflect_ends (links p.links "issue") p

  abbrev to_b : Pass S → Progress S
  to_b p = record { to = p.b; links = p.links; summary = p.summary }

  abbrev to_a : Pass S → Progress S
  to_a p = record { to = p.a; links = p.links; summary = p.summary }

  abbrev after_b : Pass S → Progress S → Pass S
  after_b p q = record p { b = q.to; links = q.links; summary = q.summary }

  abbrev after_a : Pass S → Progress S → Pass S
  after_a p q = record p { a = q.to; links = q.links; summary = q.summary }

  abbrev pub synced : Client S → Client S → Pass S → Pass S
  synced client_a client_b p = record p { a = client_a.sync p.a; b = client_b.sync p.b }

  unfoldable pub comments_to_b : String → String → Pass S → Pass S
  comments_to_b a_id b_id p =
      let q = synced (a.comments a_id) (b.comments b_id) p in
      after_b q (
        reflect_all settings (of_comments a.system a_id b.system b_id) a b (b.comments b_id)
          ((a.comments a_id).list q.a) (to_b q))

  unfoldable pub comments_to_a : String → String → Pass S → Pass S
  comments_to_a a_id b_id p =
      let q = synced (a.comments a_id) (b.comments b_id) p in
      after_a q (
        reflect_all settings (of_comments b.system b_id a.system a_id) b a (a.comments a_id)
          ((b.comments b_id).list q.b) (to_a q))

  unfoldable pub comments_of_pair : String → String → Pass S → Pass S
  unfolding comments_to_b comments_to_a
  comments_of_pair a_id b_id p =
      let one_way = comments_to_b a_id b_id p in
      if settings.bidirectional then comments_to_a a_id b_id one_way else one_way

  unfoldable pub reflect_comments : Pass S → Pass S
  unfolding for_pairs comments_of_pair
  reflect_comments p = for_pairs comments_of_pair (links p.links "issue") p

  abbrev creates_to_b : Pass S → Pass S
  creates_to_b p = after_b p (reflect_creates settings a b p.a (to_b p))

  abbrev creates_to_a : Pass S → Pass S
  creates_to_a p = after_a p (reflect_creates settings b a p.b (to_a p))

  unfoldable pub reflect_issues : Pass S → Pass S
  reflect_issues p =
      let one_way = creates_to_b p in
      if settings.bidirectional then creates_to_a one_way else one_way

  -- `reflect`, on what the engine holds; its summary is that of the result.
  unfoldable pub reflect : S → S → IdMap → List (String × String) → Pass S
  unfolding reflect_issues reflect_state reflect_comments
  reflect s t known_links ledger = reflect_comments (
      reflect_state (
        reflect_issues (
          synced a.issues b.issues (record {
            a = s;
            b = t;
            links = known_links;
            ledger = ledger;
            summary = record { created = []; updated = []; errors = [] };
          }))))
