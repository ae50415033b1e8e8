-- ===== src/Devonian/Reflect/Links/Laws.antt =====
-- The map of devonian/src/reflect/id-map.ts: what is found in it and what it lists.
use Prim.Native.Char.{code}
use atomic_plugins.Prelude.{
  String, false, some, List, [], ◌∷◌, ◌==◌, str_eq, ◌≡◌, ◌≢◌, refl, sym, ap, ◌∙◌, inl, inr,
  Bool-cases, eq_iff, subst, All,
}
use text.Mathlib.TextLemmas.{nil-append, cons-append}
use atomic_plugins.Prelude.JsText.{◌+++◌}
use atomic_plugins.Prelude.Grouping.{
  find, put, find-put_self, find-put_ne, OnceEach, found, put-OnceEach,
}
use atomic_plugins.Devonian.Reflect.Links.{
  Link, IdMap, key, counterpart, link, before_space, after_space, Entry, entry_of, pair_id, seen_in,
  entries_after, entries, of_kind, links, load,
}

-- What is linked is found from both of its ends, where the ends differ.
pub counterpart-link :
    (m : IdMap) (kind : String) (a b : Link)
    → key kind b.system b.id ≢ key kind a.system a.id
    → (counterpart (link kind a b m) kind a.system a.id ≡ some b)
      × (counterpart (link kind a b m) kind b.system b.id ≡ some a)
unfolding counterpart link
counterpart-link m kind a b h = (
  find-put_ne _ _ _ _ h ∙ find-put_self (key kind a.system a.id) (λ _. b) m,
  find-put_self (key kind b.system b.id) (λ _. a) _,
)

-- Without a space.
abbrev pub IsPlain : String → Type 0
IsPlain String.[] = Unit
IsPlain (String.◌∷◌ c s) = ((code c == 32) ≡ false) × IsPlain s

space_front : (t : String) → "" +++ (" " +++ t) ≡ String.◌∷◌ " " t
space_front t = nil-append (" " +++ t) ∙ cons-append " " "" t ∙ ap (String.◌∷◌ " ") (nil-append t)

before_space_plain : (s t : String) → IsPlain s → before_space (s +++ (" " +++ t)) ≡ s
unfolding before_space
before_space_plain String.[] t h = ap before_space (space_front t)
before_space_plain (String.◌∷◌ c s) t (e, h) =
    ap before_space (cons-append c s (" " +++ t)) ∙ rw (e, before_space_plain s t h) refl

after_space_plain : (s t : String) → IsPlain s → after_space (s +++ (" " +++ t)) ≡ t
unfolding after_space
after_space_plain String.[] t h = ap after_space (space_front t)
after_space_plain (String.◌∷◌ c s) t (e, h) =
    ap after_space (cons-append c s (" " +++ t)) ∙ rw (e, after_space_plain s t h) refl

before_space_end : (s : String) → IsPlain s → before_space s ≡ s
unfolding before_space
before_space_end String.[] h = refl
before_space_end (String.◌∷◌ c s) (e, h) = rw (e, before_space_end s h) refl

abbrev pub IsPlainEntry : Entry → Type 0
IsPlainEntry e =
    IsPlain e.kind × IsPlain e.a.system × IsPlain e.a.id × IsPlain e.b.system × IsPlain e.b.id

abbrev IsKey : String → Type 0
IsKey k =
    (kind : String) × (system : String) × (id : String) × IsPlain kind
    × IsPlain system
    × IsPlain id
    × (k ≡ key kind system id)

-- The parts of a key are read back.
key-entry_of :
    (k : String) (b : Link)
    → IsKey k
    → key (entry_of k b).kind (entry_of k b).a.system (entry_of k b).a.id ≡ k
unfolding key entry_of
key-entry_of k b (kind, system, id, p, q, r, e) =
    let first : before_space k ≡ kind = ap before_space e ∙ before_space_plain kind _ p in
    let rest : after_space k ≡ system +++ (" " +++ id) =
      ap after_space e ∙ after_space_plain kind _ p in
    let second : before_space (after_space k) ≡ system =
      ap before_space rest ∙ before_space_plain system id q in
    let third : before_space (after_space (after_space k)) ≡ id =
      ap (λ s. before_space (after_space s)) rest
      ∙ ap before_space (after_space_plain system id q)
      ∙ before_space_end id r in
    rw (first, second, third) (sym e)

put-IsKey :
    (k : String) (b : Link) (m : IdMap)
    → IsKey k
    → All (λ e. IsKey e.0) m
    → All (λ e. IsKey e.0) (put k (λ _. b) m)
unfolding put
put-IsKey k b [] h all = (h, tt)
put-IsKey k b ((j, c) ∷ m) h (i, all) = elim (Bool-cases (str_eq j k)) [
  | inl e ↦ rw e (i, all)
  | inr e ↦ rw e (i, put-IsKey k b m h all)
]

abbrev IsSound : IdMap → Type 0
IsSound m = OnceEach m × All (λ e. IsKey e.0) m

link-IsSound :
    (e : Entry) (m : IdMap) → IsPlainEntry e → IsSound m → IsSound (link e.kind e.a e.b m)
unfolding link
link-IsSound e m (p, q, r, s, t) (once, all) = (
  put-OnceEach _ _ _ (put-OnceEach _ _ m once),
  put-IsKey _ _ _ (e.kind, e.b.system, e.b.id, p, s, t, refl)
      (put-IsKey _ _ m (e.kind, e.a.system, e.a.id, p, q, r, refl) all),
)

load-IsSound : (es : List Entry) (m : IdMap) → All IsPlainEntry es → IsSound m → IsSound (load es m)
unfolding load
load-IsSound [] m p h = h
load-IsSound (e ∷ es) m (p, ps) h =
    load-IsSound es (link e.kind e.a e.b m) ps (link-IsSound e m p h)

abbrev IsLinked : IdMap → String → Link → Link → Type 0
IsLinked m kind a b = counterpart m kind a.system a.id ≡ some b

entries_after-IsLinked :
    (m : IdMap) (seen : List String) (l : IdMap)
    → All (λ e. IsKey e.0) l
    → All (λ e. find e.0 m ≡ some e.1) l
    → All (λ e. IsLinked m e.kind e.a e.b) (entries_after seen l)
unfolding entries_after counterpart entry_of
entries_after-IsLinked m seen [] k f = tt
entries_after-IsLinked m seen ((k, b) ∷ l) (i, is) (f, fs) =
    elim (Bool-cases (seen_in seen (pair_id (entry_of k b)))) [
      | inl e ↦ rw e (entries_after-IsLinked m seen l is fs)
      | inr e ↦ rw e (
        ap (λ j. find j m) (key-entry_of k b i) ∙ f,
        entries_after-IsLinked m (pair_id (entry_of k b) ∷ seen) l is fs,
      )
    ]

of_kind-IsLinked :
    (m : IdMap) (kind : String) (es : List Entry)
    → All (λ e. IsLinked m e.kind e.a e.b) es
    → All (λ p. IsLinked m kind p.a p.b) (of_kind kind es)
unfolding of_kind
of_kind-IsLinked m kind [] h = tt
of_kind-IsLinked m kind (e ∷ es) (h, hs) = elim (Bool-cases (str_eq e.kind kind)) [
  | inl k ↦ rw k (
    subst (λ j. IsLinked m j e.a e.b) ((eq_iff e.kind kind).0 k) h,
    of_kind-IsLinked m kind es hs,
  )
  | inr k ↦ rw k (of_kind-IsLinked m kind es hs)
]

-- A map that is loaded from entries whose kinds, systems and identifiers have no spaces lists only
-- pairs whose second end is the counterpart of the first.
pub links-load :
    (es : List Entry) (kind : String)
    → All IsPlainEntry es
    → All
        (λ p. counterpart (load es []) kind p.a.system p.a.id ≡ some p.b)
        (links (load es []) kind)
unfolding links entries
links-load es kind h =
    let sound : IsSound (load es []) = load-IsSound es [] h (tt, tt) in
    of_kind-IsLinked (load es []) kind (entries (load es []))
      (entries_after-IsLinked (load es []) [] (load es []) sound.1 (found (load es []) sound.0))
