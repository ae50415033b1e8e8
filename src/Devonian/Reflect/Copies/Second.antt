-- ===== src/Devonian/Reflect/Copies/Second.antt =====
-- A second pass of `reflectCreates` or `reflectCommentsOneWay` over the records of the first.
use atomic_plugins.Prelude.{
  String, Bool, true, false, ◌||◌, Option, none, some, List, [], ◌∷◌, if◌then◌else◌, ◌≡◌, refl, sym,
  subst, ◌∙◌, inl, inr, Bool-cases, All, All_weaken,
}
use atomic_plugins.Prelude.Grouping.{find}
use atomic_plugins.Devonian.Reflect.Links.{Link, counterpart}
use atomic_plugins.Devonian.Reflect.Client.{Item, Client, Side}
use atomic_plugins.Devonian.Reflect.Copies.{
  Settings, Manner, Progress, Summary, known_from, known, reflect_known, reflect_item,
  reflect_items, reflect_all, existing_after,
}
use atomic_plugins.Devonian.Reflect.Copies.Done.{
  is_some, echo, is_settled, is_settled-link, reflect_items-AreDone, done_quietly,
}

or_second : (a b : Bool) → a ≡ false → (a || b) ≡ true → b ≡ true
or_second true b e h = absurd (cc)
or_second false b e h = h

module _ {S : Type 0} (settings : Settings) (manner : Manner) (from to : Side S)
    (client : Client S) where
  -- Only the links may differ, and what was settled still is.
  abbrev IsSame : Progress S → Progress S → Type 0
  IsSame p q =
      (q.to ≡ p.to)
      × (q.summary ≡ p.summary)
      × ((j : Item)
          → is_settled settings manner from to client p.links j ≡ true
          → is_settled settings manner from to client q.links j ≡ true)

  reflect_known-IsSame :
      (o : Option Link) (found : Option String) (item : Item) (p : Progress S)
      → is_some o ≡ true
      → IsSame p (
          reflect_known settings manner from to client
            (known_from settings manner from to client o found)
            item
            p)
  reflect_known-IsSame none found item p h = absurd (cc)
  reflect_known-IsSame (some l) found item p h =
      (refl, refl, λ j k. is_settled-link settings manner from to client item.id l.id p.links j k)

  reflect_item-IsSame :
      (existing : List (String × String)) (item : Item) (p : Progress S)
      → is_settled settings manner from to client p.links item ≡ true
      → IsSame p (reflect_item settings manner from to client existing item p)
  unfolding reflect_item
  reflect_item-IsSame existing item p h =
      let next =
        reflect_known settings manner from to client
          (known settings manner from to client existing item.id p.links) item p in
      elim (Bool-cases (echo settings manner from to client item)) [
        | inl e ↦ subst (λ b. IsSame p (if b then p else next)) (sym e) (refl, refl, λ j k. k)
        | inr e ↦
            subst (λ b. IsSame p (if b then p else next)) (sym e)
              (reflect_known-IsSame (counterpart p.links manner.kind from.system item.id)
                (find item.id existing) item p (or_second _ _ e h))
      ]

  reflect_items-IsSame :
      (existing : List (String × String)) (items : List Item) (p : Progress S)
      → All (λ i. is_settled settings manner from to client p.links i ≡ true) items
      → IsSame p (reflect_items settings manner from to client existing items p)
  unfolding reflect_items
  reflect_items-IsSame existing [] p h = (refl, refl, λ j k. k)
  reflect_items-IsSame existing (item ∷ items) p (h, hs) =
      let one = reflect_item-IsSame existing item p h in
      let rest =
        reflect_items-IsSame existing items
          (reflect_item settings manner from to client existing item p)
          (All_weaken _ _ one.2 items hs) in
      (rest.0 ∙ one.0, rest.1 ∙ one.1, λ j k. rest.2 j (one.2 j k))

  -- After a pass with no errors, a second pass over the same records, with the links of the first,
  -- creates nothing on the destination and adds nothing to the summary, whatever these are then.
  pub reflect_all_again :
      (sources : List Item) (p : Progress S) (s : S) (summary : Summary)
      → (reflect_all settings manner from to client sources p).summary.errors ≡ []
      → ((reflect_all settings manner from to client sources (record {
        to = s;
        links = (reflect_all settings manner from to client sources p).links;
        summary = summary;
      })).to
          ≡ s)
        × ((reflect_all settings manner from to client sources (record {
          to = s;
          links = (reflect_all settings manner from to client sources p).links;
          summary = summary;
        })).summary
            ≡ summary)
  unfolding reflect_all
  reflect_all_again sources p s summary h =
      let first = existing_after settings.markers manner.kind from.system (client.list p.to) [] in
      let again = existing_after settings.markers manner.kind from.system (client.list s) [] in
      let done = reflect_items settings manner from to client first sources p in
      let same =
        reflect_items-IsSame again sources
          (record { to = s; links = done.links; summary = summary })
          (All_weaken _ _ (λ i k. done_quietly settings manner from to client done i h k) sources
            (reflect_items-AreDone settings manner from to client first sources p)) in
      (same.0, same.1)
