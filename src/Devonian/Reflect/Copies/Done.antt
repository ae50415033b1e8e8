-- ===== src/Devonian/Reflect/Copies/Done.antt =====
-- What a pass of `reflectCreates` or `reflectCommentsOneWay` leaves of each record.
use atomic_plugins.Prelude.{
  String, Bool, true, false, ◌||◌, Option, none, some, List, [], ◌∷◌, ◌++◌, str_eq, if◌then◌else◌,
  ◌≡◌, refl, sym, ap, subst, ◌∙◌, ◌⊎◌, inl, inr, Bool-cases, eq_iff, All, arith,
}
use atomic_plugins.Prelude.Grouping.{find, put, find-put_self}
use atomic_plugins.Prelude.Domination.{any_of}
use atomic_plugins.Devonian.Reflect.Links.{IdMap, key, counterpart, link}
use atomic_plugins.Devonian.Reflect.Client.{Item, Client, Side}
use atomic_plugins.Devonian.Reflect.Copies.{
  Settings, Manner, Progress, Failure, Copied, copied, failed, create_copy, link_to, is_echo, known,
  concluded, reflect_known, reflect_item, reflect_items,
}

abbrev pub is_some : {A : Type 0} → Option A → Bool
is_some none = false
is_some (some a) = true

find-put_some :
    {A : Type 0} (i k : String) (f : Option A → A) (m : List (String × A))
    → is_some (find i m) ≡ true
    → is_some (find i (put k f m)) ≡ true
unfolding find put
find-put_some i k f [] h = absurd (cc)
find-put_some i k f ((j, a) ∷ m) h = elim (Bool-cases (str_eq j k)) [
  | inl e ↦ elim (Bool-cases (str_eq j i)) [
    | inl g ↦ rw (e, find, g) refl
    | inr g ↦ rw (e, find, g) (sym (ap (λ b. is_some (if b then some a else find i m)) g) ∙ h)
  ]
  | inr e ↦ elim (Bool-cases (str_eq j i)) [
    | inl g ↦ rw (e, find, g) refl
    | inr g ↦
        rw (e, find, g)
          (find-put_some i k f m (sym (ap (λ b. is_some (if b then some a else find i m)) g) ∙ h))
  ]
]

any_of-left :
    {A : Type 0} (test : A → Bool) (xs ys : List A)
    → any_of test xs ≡ true
    → any_of test (xs ++ ys) ≡ true
any_of-left test [] ys h = absurd (cc)
any_of-left test (x ∷ xs) ys h = ground (arith, any_of-left test xs ys)

any_of_last :
    {A : Type 0} (test : A → Bool) (xs : List A) (y : A)
    → test y ≡ true
    → any_of test (xs ++ y ∷ []) ≡ true
any_of_last test [] y h = rw h refl
any_of_last test (x ∷ xs) y h = ground (arith, any_of_last test xs y)

or_weaken : (a b c : Bool) → (b ≡ true → c ≡ true) → (a || b) ≡ true → (a || c) ≡ true
or_weaken true b c f h = refl
or_weaken false b c f h = f h

or_weaken_left : (a b : Bool) → a ≡ true → (a || b) ≡ true
or_weaken_left true b h = refl
or_weaken_left false b h = absurd (cc)

or_true : (a : Bool) → (a || true) ≡ true
or_true true = refl
or_true false = refl

unreported : {A : Type 0} {b : Bool} → b ≡ false → b ≡ true → A
unreported e h = absurd (cc)

module _ {S : Type 0} (settings : Settings) (manner : Manner) (from to : Side S)
    (client : Client S) where
  abbrev pub echo : Item → Bool
  echo = is_echo settings manner from to client

  -- What the next pass passes over: a copy of the other side, or a linked record.
  abbrev pub is_settled : IdMap → Item → Bool
  is_settled links item = echo item || is_some (counterpart links manner.kind from.system item.id)

  abbrev pub is_reported : List Failure → Item → Bool
  is_reported errors item = any_of (λ f. str_eq f.from (manner.from_label item.id)) errors

  abbrev to_link : String → String → IdMap → IdMap
  to_link = link_to settings manner from to client

  pub is_settled-link :
      (id to_id : String) (links : IdMap) (item : Item)
      → is_settled links item ≡ true
      → is_settled (to_link id to_id links) item ≡ true
  unfolding counterpart link
  is_settled-link id to_id links item h =
      or_weaken (echo item) _ _
        (λ k.
          find-put_some (key manner.kind from.system item.id) (key manner.kind to.system to_id) _ _
            (find-put_some (key manner.kind from.system item.id) (key manner.kind from.system id) _
              links k))
        h

  link-is_settled :
      (item : Item) (to_id : String) (links : IdMap)
      → is_settled (to_link item.id to_id links) item ≡ true
  unfolding counterpart link
  link-is_settled item to_id links =
      or_weaken (echo item) true _
        (λ k.
          find-put_some (key manner.kind from.system item.id) (key manner.kind to.system to_id) _ _
            (ap is_some (find-put_self (key manner.kind from.system item.id) _ links)))
        (or_true (echo item))

  -- A record that is settled, or whose error is in the summary.
  abbrev pub IsDone : Progress S → Item → Type 0
  IsDone p item = (is_settled p.links item ≡ true) ⊎ (is_reported p.summary.errors item ≡ true)

  concluded-IsDone_self :
      (item : Item) (c : Copied S) (p : Progress S)
      → IsDone (concluded settings manner from to client item.id c p) item
  concluded-IsDone_self item (copied s to_id) p = inl (link-is_settled item to_id p.links)
  concluded-IsDone_self item (failed s e) p =
      inr (any_of_last _ p.summary.errors _ ((eq_iff (manner.from_label item.id) _).1 refl))

  concluded-IsDone :
      (id : String) (j : Item) (c : Copied S) (p : Progress S)
      → IsDone p j
      → IsDone (concluded settings manner from to client id c p) j
  concluded-IsDone id j (copied s to_id) p (inl h) = inl (is_settled-link id to_id p.links j h)
  concluded-IsDone id j (copied s to_id) p (inr h) = inr h
  concluded-IsDone id j (failed s e) p (inl h) = inl h
  concluded-IsDone id j (failed s e) p (inr h) = inr (any_of-left _ p.summary.errors _ h)

  reflect_known-IsDone_self :
      (o : Option String) (item : Item) (p : Progress S)
      → IsDone (reflect_known settings manner from to client o item p) item
  reflect_known-IsDone_self (some to_id) item p = inl (link-is_settled item to_id p.links)
  reflect_known-IsDone_self none item p =
      concluded-IsDone_self item (create_copy settings manner from to client item p.to) p

  reflect_known-IsDone :
      (o : Option String) (item j : Item) (p : Progress S)
      → IsDone p j
      → IsDone (reflect_known settings manner from to client o item p) j
  reflect_known-IsDone (some to_id) item j p (inl h) =
      inl (is_settled-link item.id to_id p.links j h)
  reflect_known-IsDone (some to_id) item j p (inr h) = inr h
  reflect_known-IsDone none item j p h =
      concluded-IsDone item.id j (create_copy settings manner from to client item p.to) p h

  reflect_item-IsDone_self :
      (existing : List (String × String)) (item : Item) (p : Progress S)
      → IsDone (reflect_item settings manner from to client existing item p) item
  unfolding reflect_item
  reflect_item-IsDone_self existing item p =
      let next =
        reflect_known settings manner from to client
          (known settings manner from to client existing item.id p.links) item p in
      elim (Bool-cases (echo item)) [
        | inl e ↦
            subst (λ b. IsDone (if b then p else next) item) (sym e)
              (inl (or_weaken_left (echo item) _ e))
        | inr e ↦
            subst (λ b. IsDone (if b then p else next) item) (sym e)
              (reflect_known-IsDone_self
                (known settings manner from to client existing item.id p.links) item p)
      ]

  reflect_item-IsDone :
      (existing : List (String × String)) (item j : Item) (p : Progress S)
      → IsDone p j
      → IsDone (reflect_item settings manner from to client existing item p) j
  unfolding reflect_item
  reflect_item-IsDone existing item j p h = elim (Bool-cases (echo item)) [
    | inl e ↦ rw e h
    | inr e ↦ rw e (reflect_known-IsDone _ item j p h)
  ]

  reflect_items-IsDone :
      (existing : List (String × String)) (items : List Item) (j : Item) (p : Progress S)
      → IsDone p j
      → IsDone (reflect_items settings manner from to client existing items p) j
  unfolding reflect_items
  reflect_items-IsDone existing [] j p h = h
  reflect_items-IsDone existing (item ∷ items) j p h =
      reflect_items-IsDone existing items j _ (reflect_item-IsDone existing item j p h)

  pub reflect_items-AreDone :
      (existing : List (String × String)) (items : List Item) (p : Progress S)
      → All (IsDone (reflect_items settings manner from to client existing items p)) items
  unfolding reflect_items
  reflect_items-AreDone existing [] p = tt
  reflect_items-AreDone existing (item ∷ items) p = (
    reflect_items-IsDone existing items item _ (reflect_item-IsDone_self existing item p),
    reflect_items-AreDone existing items _,
  )

  pub done_quietly :
      (p : Progress S) (item : Item)
      → p.summary.errors ≡ []
      → IsDone p item
      → is_settled p.links item ≡ true
  done_quietly p item e (inl h) = h
  done_quietly p item e (inr h) = unreported (ap (λ errors. is_reported errors item) e) h
