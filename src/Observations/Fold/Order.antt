-- ===== src/Observations/Fold/Order.antt =====
-- The order in which differences are folded.
use mathlib.Core.List.{Permᴰ}
use atomic_plugins.Prelude.{
  ℕ, String, str_eq, eq_iff, Pairs, Pairs_weaken, true, false, Bool, List, ◌≡◌, ◌≢◌, ◌⊎◌, inl, inr,
  ap, arith, if◌then◌else◌,
}
use atomic_plugins.Prelude.JsText.{text_lt}
use atomic_plugins.Prelude.TextOrder.{text_lt_asym, text_lt_trans, text_lt_total}
use atomic_plugins.Prelude.Sorting.{sort_by, IsWeakOrder}
use atomic_plugins.Prelude.Reordering.{AreApart, sort_by_reordered}
use atomic_plugins.Observations.Types.{ObservationHeader, Incremental, Mirror}
use atomic_plugins.Observations.Fold.{
  position_before, incremental_before, apply_all, fold, segment_before,
}

one_less : (a b : String) → str_eq a b ≡ false → text_lt a b ≡ false → text_lt b a ≡ true
one_less a b e h = elim (text_lt_total a b (λ p. let same = (eq_iff a b).1 p in absurd (cc))) [
  | inl f ↦ absurd (cc)
  | inr f ↦ f
]

-- The two texts of a position.
abbrev texts_before : String → String → String → String → Bool
texts_before r i r' i' = if str_eq r r' then text_lt i i' else text_lt r r'

texts_before_trans :
    (r i r' i' r'' i'' : String)
    → texts_before r' i' r i ≡ false
    → texts_before r'' i'' r' i' ≡ false
    → texts_before r'' i'' r i ≡ false
texts_before_trans r i r' i' r'' i'' h k = ground (
  arith,
  text_lt_trans i i' i'',
  text_lt_trans r r' r'',
  one_less r' r,
  eq_iff r' r,
  eq_iff r'' r',
  eq_iff r'' r,
)

-- Two positions that differ.
abbrev pub HaveDifferentPositions : Incremental → Incremental → Type 0
HaveDifferentPositions x y =
    (x.header.received_at ≢ y.header.received_at) ⊎ (x.header.id ≢ y.header.id)

module _ (ms : String → ℕ) where
  position_before_asym :
      (x y : ObservationHeader) → position_before ms x y ≡ true → position_before ms y x ≡ false
  unfolding position_before
  position_before_asym x y h = ground (
    arith,
    eq_iff x.received_at y.received_at,
    eq_iff y.received_at x.received_at,
    text_lt_asym x.id y.id,
    text_lt_asym x.received_at y.received_at,
  )

  position_before_trans :
      (x y z : ObservationHeader)
      → position_before ms y x ≡ false
      → position_before ms z y ≡ false
      → position_before ms z x ≡ false
  unfolding position_before
  position_before_trans x y z h k =
      ground (arith, texts_before_trans x.received_at x.id y.received_at y.id z.received_at z.id)

  pub incremental_before-IsWeakOrder : IsWeakOrder (incremental_before ms)
  incremental_before-IsWeakOrder = record {
    asym = λ x y. position_before_asym x.header y.header;
    trans = λ x y z. position_before_trans x.header y.header z.header;
  }

  apart :
      (x y : ObservationHeader)
      → (x.received_at ≢ y.received_at) ⊎ (x.id ≢ y.id)
      → AreApart (position_before ms) x y
  unfolding position_before
  apart x y n = ground (
    arith,
    text_lt_total x.id y.id,
    text_lt_total x.received_at y.received_at,
    eq_iff x.received_at y.received_at,
    eq_iff y.received_at x.received_at,
  )

  all_apart :
      (is : List Incremental)
      → Pairs HaveDifferentPositions is
      → Pairs (AreApart (incremental_before ms)) is
  all_apart is h =
      Pairs_weaken HaveDifferentPositions (AreApart (incremental_before ms))
        (λ x y. apart x.header y.header) is h

  -- Folding the same differences in any order gives the same mirror. They are taken to have
  -- different positions: no two of them agree in the time of receipt and in the id.
  pub fold_reordered :
      (base : Mirror) (is js : List Incremental)
      → Permᴰ is js
      → Pairs HaveDifferentPositions is
      → fold ms base is ≡ fold ms base js
  unfolding fold
  fold_reordered base is js p h =
      ap
        (λ l.
          let m = apply_all ms base l in
          record m { coverage = sort_by (segment_before ms) m.coverage })
        (sort_by_reordered (incremental_before ms) incremental_before-IsWeakOrder p
          (all_apart is h))
