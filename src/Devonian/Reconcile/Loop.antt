-- ===== src/Devonian/Reconcile/Loop.antt =====
-- The loop over the properties in devonian/src/reconcileRecord.ts: what it writes for one property.
use atomic_plugins.Prelude.{
  ◌≡◌, refl, subst, sym, ap, ◌∙◌, inl, inr, String, Bool, true, false, not, ◌&&◌, ◌||◌, Option,
  some, List, [], ◌∷◌, ◌++◌, str_eq, eq_iff, if◌then◌else◌, Bool-cases, arith,
}
use atomic_plugins.Prelude.Grouping.{find, put, find-put_self, find-put_ne}
use atomic_plugins.Prelude.Domination.{any_of}
use atomic_plugins.Devonian.Reconcile.{
  SyncRecord, SyncConflict, at_record, at_property, SyncDecision, property_of, includes, equal,
  reconcile_property, reconcile_properties,
}

module _ {Value : Type 0} where
  abbrev pub names : String → SyncConflict Value → Bool
  names p (at_record base local remote) = false
  names p (at_property q before here there) = str_eq q p

  -- Whether the property is in conflict.
  abbrev pub in_conflict : String → SyncDecision Value → Bool
  in_conflict p d = any_of (names p) d.conflicts

  any_of_snoc :
      (p : String) (cs : List (SyncConflict Value)) (c : SyncConflict Value)
      → any_of (names p) (cs ++ c ∷ []) ≡ (any_of (names p) cs || names p c)
  any_of_snoc p [] c = ground arith
  any_of_snoc p (x ∷ cs) c = ground (arith, any_of_snoc p cs c)

module _ {Value : Type 0} (stringify : Value → String) (base local remote : SyncRecord Value) where
  -- The other side changed the property, and this side did not.
  abbrev pub takes : String → Bool
  takes p =
      not (equal stringify (property_of local p) (property_of remote p))
      && equal stringify (property_of local p) (property_of base p)

  abbrev pub gives : String → Bool
  gives p =
      not (equal stringify (property_of local p) (property_of remote p))
      && (not (equal stringify (property_of local p) (property_of base p))
          && equal stringify (property_of remote p) (property_of base p))

  abbrev pub clashes : String → Bool
  clashes p =
      not (equal stringify (property_of local p) (property_of remote p))
      && (not (equal stringify (property_of local p) (property_of base p))
          && not (equal stringify (property_of remote p) (property_of base p)))

module _ {Value : Type 0} (base local remote : SyncRecord Value) where
  -- One turn, after its three tests.
  abbrev turn : Bool → Bool → Bool → String → SyncDecision Value → SyncDecision Value
  turn s h t q d =
      if s
      then d
      else if h
      then record d { local = put q (λ _. property_of remote q) d.local }
      else if t
      then record d { remote = put q (λ _. property_of local q) d.remote }
      else record d {
        conflicts =
            d.conflicts
            ++ at_property q (property_of base q) (property_of local q) (property_of remote q) ∷ [];
      }

  find_written :
      (q p : String) (f : String → Option Value) (m : List (String × Option Value))
      → find p (put q (λ _. f q) m) ≡ (if str_eq q p then some (f p) else find p m)
  find_written q p f m = elim (Bool-cases (str_eq q p)) [
    | inl e ↦
        let same = (eq_iff q p).0 e in
        subst (λ i. find p (put i (λ _. f i) m) ≡ some (f p)) (sym same)
          (find-put_self p (λ _. f p) m)
        ∙ ap (λ b. if b then some (f p) else find p m) (sym e)
    | inr e ↦
        find-put_ne p q (λ _. f q) m (λ h. ground (arith, eq_iff q p))
        ∙ ap (λ b. if b then some (f p) else find p m) (sym e)
  ]

  turn_local :
      (s h t : Bool) (q p : String) (d : SyncDecision Value)
      → find p (turn s h t q d).local ≡ (
          if not s && h
          then if str_eq q p then some (property_of remote p) else find p d.local
          else find p d.local)
  turn_local true h t q p d = refl
  turn_local false true t q p d = find_written q p (property_of remote) d.local
  turn_local false false true q p d = refl
  turn_local false false false q p d = refl

  turn_remote :
      (s h t : Bool) (q p : String) (d : SyncDecision Value)
      → find p (turn s h t q d).remote ≡ (
          if not s && (not h && t)
          then if str_eq q p then some (property_of local p) else find p d.remote
          else find p d.remote)
  turn_remote true h t q p d = refl
  turn_remote false true t q p d = refl
  turn_remote false false true q p d = find_written q p (property_of local) d.remote
  turn_remote false false false q p d = refl

  turn_conflict :
      (s h t : Bool) (q p : String) (d : SyncDecision Value)
      → in_conflict p (turn s h t q d)
        ≡ (if not s && (not h && not t) then in_conflict p d || str_eq q p else in_conflict p d)
  turn_conflict true h t q p d = refl
  turn_conflict false true t q p d = refl
  turn_conflict false false true q p d = refl
  turn_conflict false false false q p d =
      any_of_snoc p d.conflicts
        (at_property q (property_of base q) (property_of local q) (property_of remote q))

-- A later turn that is not about the property keeps what is there.
combine {ℓ} :
    {A : Type ℓ} (i e s t : Bool) (x o : A)
    → (e ≡ true → s ≡ t)
    → (if i && t then x else if s then if e then x else o else o) ≡ (if (e || i) && t then x else o)
combine true true s true x o h = refl
combine false true s true x o h = rw (h refl) refl
combine true true s false x o h = rw (h refl) refl
combine false true s false x o h = rw (h refl) refl
combine true false s true x o h = refl
combine true false true false x o h = refl
combine true false false false x o h = refl
combine false false true t x o h = refl
combine false false false t x o h = refl

true_or : (o e : Bool) → (o || e) ≡ (if e then true else o)
true_or o true = ground arith
true_or o false = ground arith

module _ {Value : Type 0} (stringify : Value → String) (base local remote : SyncRecord Value) where
  pub reconcile_properties-local :
      (ps : List String) (p : String) (d : SyncDecision Value)
      → find p (reconcile_properties stringify base local remote ps d).local ≡ (
          if includes ps p && takes stringify base local remote p
          then some (property_of remote p)
          else find p d.local)
  unfolding reconcile_properties reconcile_property
  reconcile_properties-local [] p d = refl
  reconcile_properties-local (q ∷ ps) p d =
      reconcile_properties-local ps p (reconcile_property stringify base local remote q d)
      ∙ ap
          (λ o.
            if includes ps p && takes stringify base local remote p
            then some (property_of remote p)
            else o)
          (turn_local base local remote
            (equal stringify (property_of local q) (property_of remote q))
            (equal stringify (property_of local q) (property_of base q))
            (equal stringify (property_of remote q) (property_of base q)) q p d)
      ∙ combine (includes ps p) (str_eq q p) (takes stringify base local remote q)
          (takes stringify base local remote p) (some (property_of remote p)) (find p d.local)
          (λ e. ap (takes stringify base local remote) ((eq_iff q p).0 e))

  pub reconcile_properties-remote :
      (ps : List String) (p : String) (d : SyncDecision Value)
      → find p (reconcile_properties stringify base local remote ps d).remote ≡ (
          if includes ps p && gives stringify base local remote p
          then some (property_of local p)
          else find p d.remote)
  unfolding reconcile_properties reconcile_property
  reconcile_properties-remote [] p d = refl
  reconcile_properties-remote (q ∷ ps) p d =
      reconcile_properties-remote ps p (reconcile_property stringify base local remote q d)
      ∙ ap
          (λ o.
            if includes ps p && gives stringify base local remote p
            then some (property_of local p)
            else o)
          (turn_remote base local remote
            (equal stringify (property_of local q) (property_of remote q))
            (equal stringify (property_of local q) (property_of base q))
            (equal stringify (property_of remote q) (property_of base q)) q p d)
      ∙ combine (includes ps p) (str_eq q p) (gives stringify base local remote q)
          (gives stringify base local remote p) (some (property_of local p)) (find p d.remote)
          (λ e. ap (gives stringify base local remote) ((eq_iff q p).0 e))

  pub reconcile_properties-conflict :
      (ps : List String) (p : String) (d : SyncDecision Value)
      → in_conflict p (reconcile_properties stringify base local remote ps d)
        ≡ (if includes ps p && clashes stringify base local remote p then true else in_conflict p d)
  unfolding reconcile_properties reconcile_property
  reconcile_properties-conflict [] p d = refl
  reconcile_properties-conflict (q ∷ ps) p d =
      reconcile_properties-conflict ps p (reconcile_property stringify base local remote q d)
      ∙ ap (λ o. if includes ps p && clashes stringify base local remote p then true else o)
          (turn_conflict base local remote
              (equal stringify (property_of local q) (property_of remote q))
              (equal stringify (property_of local q) (property_of base q))
              (equal stringify (property_of remote q) (property_of base q)) q p d
            ∙ ap (λ o. if clashes stringify base local remote q then o else in_conflict p d)
                (true_or (in_conflict p d) (str_eq q p)))
      ∙ combine (includes ps p) (str_eq q p) (clashes stringify base local remote q)
          (clashes stringify base local remote p) true (in_conflict p d)
          (λ e. ap (clashes stringify base local remote) ((eq_iff q p).0 e))
