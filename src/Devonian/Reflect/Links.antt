-- ===== src/Devonian/Reflect/Links.antt =====
-- devonian/src/reflect/id-map.ts: which records are the two ends of one pair.
pub mod Laws
mod Tests
use Prim.Native.Char.{Char, code}
use Prim.Native.String
use atomic_plugins.Prelude.{
  String, Bool, false, Option, none, some, List, [], ◌∷◌, ◌==◌, ◌||◌, str_eq, if◌then◌else◌,
}
use atomic_plugins.Prelude.JsText.{◌+++◌, text_lt}
use atomic_plugins.Prelude.Grouping.{find, put}

pub record Link : Type 0 where
  pub system : String
  pub id : String

-- The map, in the order in which its keys were first set.
abbrev pub IdMap : Type 0
IdMap = List (String × Link)

unfoldable pub key : String → String → String → String
key kind system id = kind +++ (" " +++ (system +++ (" " +++ id)))

unfoldable pub counterpart : IdMap → String → String → String → Option Link
counterpart m kind system id = find (key kind system id) m

unfoldable pub link : String → Link → Link → IdMap → IdMap
link kind a b m = put (key kind b.system b.id) (λ _. a) (put (key kind a.system a.id) (λ _. b) m)

-- `k.split(' ')`: the part before the first space, and what follows it.
unfoldable pub before_space : String → String
before_space String.[] = ""
before_space (String.◌∷◌ c s) =
    let rest = before_space s in if code c == 32 then "" else String.◌∷◌ c rest

unfoldable pub after_space : String → String
after_space String.[] = ""
after_space (String.◌∷◌ c s) = let rest = after_space s in if code c == 32 then s else rest

pub record Entry : Type 0 where
  pub kind : String
  pub a : Link
  pub b : Link

unfoldable pub entry_of : String → Link → Entry
unfolding before_space after_space
entry_of k b = record {
  kind = before_space k;
  a = record {
    system = before_space (after_space k);
    id = before_space (after_space (after_space k));
  };
  b = b;
}

abbrev end_text : Link → String
end_text l = l.system +++ (":" +++ l.id)

-- `[s, t].sort().join('|')`
unfoldable pub joined : String → String → String
joined s t = if text_lt t s then t +++ ("|" +++ s) else s +++ ("|" +++ t)

unfoldable pub pair_id : Entry → String
unfolding joined
pair_id e = e.kind +++ ("|" +++ joined (end_text e.a) (end_text e.b))

abbrev seen_in : List String → String → Bool
seen_in [] p = false
seen_in (q ∷ qs) p = str_eq q p || seen_in qs p

unfoldable pub entries_after : List String → IdMap → List Entry
entries_after seen [] = []
entries_after seen ((k, b) ∷ m) =
    let p = pair_id (entry_of k b) in
    let known = entries_after seen m in
    let further = entries_after (p ∷ seen) m in
    if seen_in seen p then known else entry_of k b ∷ further

unfoldable pub entries : IdMap → List Entry
unfolding entries_after
entries m = entries_after [] m

pub record Pair : Type 0 where
  pub a : Link
  pub b : Link

unfoldable pub of_kind : String → List Entry → List Pair
of_kind kind [] = []
of_kind kind (e ∷ es) =
    let rest = of_kind kind es in
    if str_eq e.kind kind then record { a = e.a; b = e.b } ∷ rest else rest

unfoldable pub links : IdMap → String → List Pair
unfolding of_kind
links m kind = of_kind kind (entries m)

-- `load`
unfoldable pub load : List Entry → IdMap → IdMap
unfolding link
load [] m = m
load (e ∷ es) m = load es (link e.kind e.a e.b m)
