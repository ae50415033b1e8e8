-- ===== src/Money/Check/Standing.antt =====
-- What each entry is to the table, whatever the others are, and a round of the loop of `compare` in
-- integrations/money/app/check.ts by it.
use mathlib.Core.List.{append-nil}
use native.Mathlib.Nat.{add-zero}
use atomic_plugins.Prelude.{
  ℕ, ◌+◌, ◌≡◌, refl, sym, ap, ◌∙◌, inl, inr, str_eq, Bool, true, false, ◌||◌, Option, none, some,
  List, [], ◌∷◌, ◌++◌, map, keep, length, Bool-cases, if◌then◌else◌,
}
use atomic_plugins.Money.Types.{Txn}
use atomic_plugins.Money.Identity.{Entry}
use atomic_plugins.Money.Check.{
  FileRow, Changed, file_row, row_at, differences, Seen, Loop, stops, overlap_of, has_reference,
  earlier_row, counted, meet_mine, compare_rows,
}

-- What an entry is to the table, whatever the other entries of the file are.
pub data Standing : Type 0 where
  is_fresh is_already : Standing
  is_changed is_overlapping : Txn → Standing

pub standing : List Txn → Entry → Standing
standing existing e = elim (row_at (λ t. t.source_id) e.identity existing) [
  | some mine ↦
      if str_eq mine.fingerprint "" || str_eq mine.fingerprint e.fingerprint
      then is_already
      else is_changed mine
  | none ↦ elim (earlier_row existing e) [ some earlier ↦ is_overlapping earlier | none ↦ is_fresh ]
]

abbrev pub fresh_test : Standing → Bool
fresh_test is_fresh = true
fresh_test _ = false

abbrev pub already_test : Standing → Bool
already_test is_already = true
already_test _ = false

-- The entry may be imported, or is there already with the same content.
abbrev pub IsHarmless : Standing → Type 0
IsHarmless is_fresh = Unit
IsHarmless is_already = Unit
IsHarmless (is_changed mine) = ⊥
IsHarmless (is_overlapping earlier) = ⊥

abbrev pub IsApart : Standing → Type 0
IsApart (is_overlapping earlier) = ⊥
IsApart _ = Unit

-- The preview of a list of entries by their standings.
abbrev pub rows_of : List Txn → (Standing → Bool) → List Entry → List FileRow
rows_of existing test es = map file_row (keep (λ e. test (standing existing e)) es)

abbrev pub unreferenced : List Entry → ℕ
unreferenced es = length (keep (λ e. str_eq e.reference "") es)

abbrev pub change : Standing → Entry → List Changed
change (is_changed mine) e =
    record { mine = mine; file = file_row e; fields = differences mine (file_row e) } ∷ []
change _ e = []

unfoldable pub changes : List Txn → List Entry → List Changed
changes existing [] = []
changes existing (e ∷ es) = change (standing existing e) e ++ changes existing es

abbrev pub gathered : List Txn → List Entry → Seen → Seen
gathered existing es s = record {
  fresh = s.fresh ++ rows_of existing fresh_test es;
  already = s.already ++ rows_of existing already_test es;
  changed = s.changed ++ changes existing es;
  without_reference = s.without_reference + unreferenced es;
}

-- One round: what the loop does with an entry depends on its standing alone.
abbrev pub after_entry : Standing → Entry → Seen → Seen
after_entry st e s = record {
  fresh = s.fresh ++ (if fresh_test st then file_row e ∷ [] else []);
  already = s.already ++ (if already_test st then file_row e ∷ [] else []);
  changed = s.changed ++ change st e;
  without_reference = s.without_reference + (if str_eq e.reference "" then 1 else 0);
}

abbrev pub continue : List Txn → Standing → Entry → List Entry → Seen → Loop
continue existing (is_overlapping earlier) e es s = stops (overlap_of e earlier)
continue existing is_fresh e es s = compare_rows existing es (after_entry is_fresh e s)
continue existing is_already e es s = compare_rows existing es (after_entry is_already e s)
continue existing (is_changed mine) e es s =
    compare_rows existing es (after_entry (is_changed mine) e s)

pub seen_path :
    {s t : Seen}
    → s.fresh ≡ t.fresh
    → s.already ≡ t.already
    → s.changed ≡ t.changed
    → s.without_reference ≡ t.without_reference
    → s ≡ t
seen_path f a c n =
    λ i. record { fresh = f i; already = a i; changed = c i; without_reference = n i }

counted-eq :
    (e : Entry) (s : Seen)
    → counted e s ≡ record s {
      without_reference = s.without_reference + (if str_eq e.reference "" then 1 else 0);
    }
counted-eq e s = elim (Bool-cases (str_eq e.reference "")) [
  | inl q ↦ rw (q, has_reference) refl
  | inr q ↦ rw (q, has_reference, add-zero) refl
]

meet_mine-already :
    (mine : Txn) (e : Entry) (s : Seen)
    → (str_eq mine.fingerprint "" || str_eq mine.fingerprint e.fingerprint) ≡ true
    → meet_mine mine e (counted e s) ≡ after_entry is_already e s
unfolding meet_mine
meet_mine-already mine e s q =
    rw (q, counted-eq e s)
      (seen_path (sym (append-nil s.fresh)) refl (sym (append-nil s.changed)) refl)

meet_mine-changed :
    (mine : Txn) (e : Entry) (s : Seen)
    → (str_eq mine.fingerprint "" || str_eq mine.fingerprint e.fingerprint) ≡ false
    → meet_mine mine e (counted e s) ≡ after_entry (is_changed mine) e s
unfolding meet_mine
meet_mine-changed mine e s q =
    rw (q, counted-eq e s)
      (seen_path (sym (append-nil s.fresh)) (sym (append-nil s.already)) refl refl)

counted_fresh :
    (e : Entry) (s : Seen)
    → record (counted e s) { fresh = (counted e s).fresh ++ file_row e ∷ [] }
      ≡ after_entry is_fresh e s
counted_fresh e s =
    let same = counted-eq e s in
    seen_path (ap (λ x. x.fresh ++ file_row e ∷ []) same)
      (ap (λ x. x.already) same ∙ sym (append-nil s.already))
      (ap (λ x. x.changed) same ∙ sym (append-nil s.changed)) (ap (λ x. x.without_reference) same)

pub compare_rows-step :
    (existing : List Txn) (e : Entry) (es : List Entry) (s : Seen)
    → compare_rows existing (e ∷ es) s ≡ continue existing (standing existing e) e es s
unfolding standing compare_rows
compare_rows-step existing e es s =
    by_rows (row_at (λ t. t.source_id) e.identity existing) (earlier_row existing e)
  where
    by_rows :
        (o q : Option Txn)
        → (elim o [
          | some mine ↦ compare_rows existing es (meet_mine mine e (counted e s))
          | none ↦ elim q [
            | some earlier ↦ stops (overlap_of e earlier)
            | none ↦
                compare_rows existing es
                  (record (counted e s) { fresh = (counted e s).fresh ++ file_row e ∷ [] })
          ]
        ])
          ≡ continue existing
              (elim o [
                | some mine ↦
                    if str_eq mine.fingerprint "" || str_eq mine.fingerprint e.fingerprint
                    then is_already
                    else is_changed mine
                | none ↦ elim q [ some earlier ↦ is_overlapping earlier | none ↦ is_fresh ]
              ])
              e
              es
              s
    by_rows none (some earlier) = refl
    by_rows none none = ap (compare_rows existing es) (counted_fresh e s)
    by_rows (some mine) q =
        elim (Bool-cases (str_eq mine.fingerprint "" || str_eq mine.fingerprint e.fingerprint)) [
          | inl p ↦ rw p (ap (compare_rows existing es) (meet_mine-already mine e s p))
          | inr p ↦ rw p (ap (compare_rows existing es) (meet_mine-changed mine e s p))
        ]
