-- ===== src/Devonian/Reflect/Copies.antt =====
-- devonian/src/reflect/engine.ts: the copies that one side's records get on the other,
-- `reflectCreates` and `reflectCommentsOneWay`. Their common loop is `reflect_items`.
pub mod Done
pub mod Second
use atomic_plugins.Prelude.{
  ℕ, String, Bool, true, false, ◌&&◌, Option, none, some, List, [], ◌∷◌, ◌++◌, str_eq,
  if◌then◌else◌,
}
use atomic_plugins.Prelude.JsText.{◌+++◌}
use atomic_plugins.Prelude.Grouping.{find, put}
use atomic_plugins.Devonian.Reflect.Links.{Link, IdMap, counterpart, link}
use atomic_plugins.Devonian.Reflect.Client.{Item, body_of, Draft, Client, Side, drain}

pub record OriginRef : Type 0 where
  pub system : String
  pub kind : String
  pub id : String

-- The marker functions, with the namespace given.
pub record Markers : Type 0 where
  pub parse : String → Option OriginRef
  pub embed : String → OriginRef → String
  pub strip : String → String

pub record Created : Type 0 where
  pub kind : String
  pub from : String
  pub to : String

pub record Updated : Type 0 where
  pub kind : String
  pub target : String
  pub state : String

pub record Failure : Type 0 where
  pub kind : String
  pub from : String
  pub error : String

pub record Summary : Type 0 where
  pub created : List Created
  pub updated : List Updated
  pub errors : List Failure

pub record Settings : Type 0 where
  pub markers : Markers
  pub max_attempts : ℕ
  pub drain_timeout : ℕ
  pub bidirectional : Bool

-- What a pass over one side's records changes: the other side, the links and the summary.
pub record Progress (S : Type 0) : Type 0 where
  pub to : S
  pub links : IdMap
  pub summary : Summary

-- What tells issues from comments: the kind, how a record is named in the summary, the title of a
-- copy, and the error for a copy that is not there.
pub record Manner : Type 0 where
  pub kind : String
  pub from_label : String → String
  pub to_label : String → String
  pub title : Item → Option String
  pub missing : String

abbrev pub is_of_system : String → Option OriginRef → Bool
is_of_system system none = false
is_of_system system (some m) = str_eq m.system system

-- The copies that stand on the destination, by the identifier that their marker names.
unfoldable pub existing_after :
    Markers → String → String → List Item → List (String × String) → List (String × String)
existing_after markers kind system [] m = m
existing_after markers kind system (item ∷ items) m = elim (markers.parse (body_of item)) [
  | none ↦ existing_after markers kind system items m
  | some ref ↦
      let more = existing_after markers kind system items (put ref.id (λ _. item.id) m) in
      let rest = existing_after markers kind system items m in
      if str_eq ref.kind kind && str_eq ref.system system then more else rest
]

unfoldable pub is_copy_of : Markers → String → String → String → Item → Bool
is_copy_of markers kind system id item = elim (markers.parse (body_of item)) [
  | none ↦ false
  | some ref ↦ str_eq ref.kind kind && (str_eq ref.system system && str_eq ref.id id)
]

-- `copies.find`
unfoldable pub find_copy : Markers → String → String → String → List Item → Option Item
find_copy markers kind system id [] = none
find_copy markers kind system id (item ∷ items) =
    let rest = find_copy markers kind system id items in
    if is_copy_of markers kind system id item then some item else rest

pub data Copied (S : Type 0) : Type 0 where
  copied : S → String → Copied S
  failed : S → String → Copied S

module _ {S : Type 0} (settings : Settings) (manner : Manner) (from to : Side S)
    (client : Client S) where
  abbrev found_copy : String → S → Copied S
  found_copy id s = elim (find_copy settings.markers manner.kind from.system id (client.list s)) [
    | none ↦ failed s manner.missing
    | some copy ↦ copied s copy.id
  ]

  abbrev settled_copy : String → S × Option String → Copied S
  settled_copy id (s, some e) = failed s e
  settled_copy id (s, none) = found_copy id s

  abbrev created_copy : String → S × Option String → Copied S
  created_copy id (s, some e) = failed s e
  created_copy id (s, none) =
      settled_copy id (drain to client settings.max_attempts settings.drain_timeout s)

  -- `createIssueCopy`, and the same in `reflectCommentsOneWay`.
  unfoldable pub create_copy : Item → S → Copied S
  create_copy item s = created_copy item.id (
      client.create s (record {
        title = manner.title item;
        body =
            settings.markers.embed (settings.markers.strip (body_of item))
              (record { system = from.system; kind = manner.kind; id = item.id });
      }))

  abbrev pub link_to : String → String → IdMap → IdMap
  link_to id to_id links =
      link manner.kind (record { system = from.system; id = id })
        (record { system = to.system; id = to_id }) links

  abbrev pub is_echo : Item → Bool
  is_echo item = is_of_system to.system (settings.markers.parse (body_of item))

  abbrev pub known_from : Option Link → Option String → Option String
  known_from (some l) e = some l.id
  known_from none e = e

  -- `known`, of which only the identifier is used.
  abbrev pub known : List (String × String) → String → IdMap → Option String
  known existing id links =
      known_from (counterpart links manner.kind from.system id) (find id existing)

  abbrev pub concluded : String → Copied S → Progress S → Progress S
  concluded id (copied s to_id) p = record {
    to = s;
    links = link_to id to_id p.links;
    summary = record p.summary {
      created =
          p.summary.created
          ++ (record {
            kind = manner.kind;
            from = manner.from_label id;
            to = manner.to_label to_id;
          })
            ∷ [];
    };
  }
  concluded id (failed s e) p = record {
    to = s;
    links = p.links;
    summary = record p.summary {
      errors =
          p.summary.errors
          ++ (record { kind = manner.kind; from = manner.from_label id; error = e }) ∷ [];
    };
  }

  abbrev pub reflect_known : Option String → Item → Progress S → Progress S
  reflect_known (some to_id) item p = record p { links = link_to item.id to_id p.links }
  reflect_known none item p = concluded item.id (create_copy item p.to) p

  unfoldable pub reflect_item : List (String × String) → Item → Progress S → Progress S
  reflect_item existing item p =
      if is_echo item then p else reflect_known (known existing item.id p.links) item p

  unfoldable pub reflect_items : List (String × String) → List Item → Progress S → Progress S
  reflect_items existing [] p = p
  reflect_items existing (item ∷ items) p =
      reflect_items existing items (reflect_item existing item p)

  -- From the sources to the destination, whose copies are looked up first.
  unfoldable pub reflect_all : List Item → Progress S → Progress S
  unfolding reflect_items
  reflect_all sources p =
      reflect_items (existing_after settings.markers manner.kind from.system (client.list p.to) [])
        sources p

abbrev pub hash : String → String → String
hash system id = system +++ ("#" +++ id)

abbrev pub issue_title : Item → Option String
issue_title item = elim item.title [ some t ↦ some t | none ↦ some "" ]

abbrev pub of_issues : String → String → Manner
of_issues from to = record {
  kind = "issue";
  from_label = hash from;
  to_label = hash to;
  title = issue_title;
  missing = "created copy not found after write settled";
}

abbrev pub of_comments : String → String → String → String → Manner
of_comments from from_issue to to_issue = record {
  kind = "comment";
  from_label = λ id. hash from from_issue +++ ("/" +++ id);
  to_label = λ id. hash to to_issue +++ ("/" +++ id);
  title = λ item. none;
  missing = "created comment copy not found after write settled";
}

unfoldable pub reflect_creates :
    {S : Type 0} → Settings → Side S → Side S → S → Progress S → Progress S
unfolding reflect_all
reflect_creates settings from to s p =
    reflect_all settings (of_issues from.system to.system) from to to.issues (from.issues.list s) p
