-- ===== src/Money/Ledger/Closing.antt =====
-- `closingBalance` and `latestDate` of integrations/money/app/ledger.ts.
use atomic_plugins.Prelude.{
  ◌≡◌, refl, sym, ap, ◌∙◌, ◌⊎◌, inl, inr, String, Bool, true, false, Option, none, some, List, [],
  ◌∷◌, ◌++◌, keep, All, Bool-cases, if◌then◌else◌, arith,
}
use atomic_plugins.Prelude.JsText.{text_lt}
use atomic_plugins.Prelude.TextOrder.{text_lt_irrefl, text_lt_asym, text_lt_trans}
use atomic_plugins.Prelude.Sorting.{insert_by, sort_by}
use atomic_plugins.Money.Types.{Txn}
use atomic_plugins.Money.Ledger.{
  Balance, Period, Today, period_range, counts_for, better, best_of, closing_balance, latest_from,
  latest_date,
}

abbrev pub ends_later : Balance → Balance → Bool
ends_later b a = text_lt a.end b.end

-- The closing balance and end of the first statement of a list.
abbrev pub first_shown : List Balance → Option (String × String)
first_shown [] = none
first_shown (s ∷ ss) = some (s.closing, s.end)

abbrev every : Balance → Bool
every s = true

best_of-keep :
    (test : Balance → Bool) (ss : List Balance) (best : Option (String × String))
    → best_of test ss best ≡ best_of every (keep test ss) best
unfolding best_of
best_of-keep test [] best = refl
best_of-keep test (s ∷ ss) best = elim (Bool-cases (test s)) [
  | inl e ↦ rw e (best_of-keep test ss (better best s))
  | inr e ↦ rw e (best_of-keep test ss best)
]

abbrev pick : Balance → Balance → Balance
pick a b = if text_lt a.end b.end then b else a

later_than : (a b c : String) → text_lt a b ≡ true → text_lt b c ≡ true → text_lt a c ≡ true
later_than a b c h k = elim (Bool-cases (text_lt a c)) [
  | inl e ↦ e
  | inr e ↦ ground (arith, text_lt_trans b c a, text_lt_asym b c)
]

pick_assoc : (a b c : Balance) → pick a (pick b c) ≡ pick (pick a b) c
pick_assoc a b c = elim (Bool-cases (text_lt a.end b.end)) [
  | inl e ↦ elim (Bool-cases (text_lt b.end c.end)) [
    | inl f ↦ rw (e, f, later_than a.end b.end c.end e f) refl
    | inr f ↦ rw (e, f, e) refl
  ]
  | inr e ↦ elim (Bool-cases (text_lt b.end c.end)) [
    | inl f ↦ rw (e, f) refl
    | inr f ↦ rw (e, f, text_lt_trans c.end b.end a.end f e, e) refl
  ]
]

abbrev front : Balance → List Balance → Balance
front a [] = a
front a (b ∷ bs) = pick a b

abbrev shown : Balance → Option (String × String)
shown s = some (s.closing, s.end)

shown_first :
    (a : Balance) (bs : List Balance) → first_shown (insert_by ends_later a bs) ≡ shown (front a bs)
unfolding insert_by
shown_first a [] = refl
shown_first a (b ∷ bs) = elim (Bool-cases (text_lt a.end b.end)) [
  | inl e ↦ rw e refl
  | inr e ↦ rw e refl
]

pick_later : (a b : Balance) → text_lt a.end b.end ≡ true → pick a b ≡ b
pick_later a b e = rw e refl

pick_earlier : (a b : Balance) → text_lt a.end b.end ≡ false → pick a b ≡ a
pick_earlier a b e = rw e refl

front-insert_by :
    (a b : Balance) (bs : List Balance) → front a (insert_by ends_later b bs) ≡ front (pick a b) bs
unfolding insert_by
front-insert_by a b [] = refl
front-insert_by a b (c ∷ cs) = elim (Bool-cases (text_lt b.end c.end)) [
  | inl e ↦ rw e (ap (pick a) (sym (pick_later b c e)) ∙ pick_assoc a b c)
  | inr e ↦ rw e (ap (pick a) (sym (pick_earlier b c e)) ∙ pick_assoc a b c)
]

better-shown : (b s : Balance) → better (shown b) s ≡ shown (pick b s)
better-shown b s = elim (Bool-cases (text_lt b.end s.end)) [ inl e ↦ rw e refl | inr e ↦ rw e refl ]

best_of-sorted :
    (b : Balance) (ss : List Balance)
    → best_of every ss (shown b) ≡ shown (front b (sort_by ends_later ss))
unfolding best_of sort_by
best_of-sorted b [] = refl
best_of-sorted b (s ∷ ss) =
    ap (best_of every ss) (better-shown b s)
    ∙ best_of-sorted (pick b s) ss
    ∙ ap shown (sym (front-insert_by b s (sort_by ends_later ss)))

best_of-first : (ss : List Balance) → best_of every ss none ≡ first_shown (sort_by ends_later ss)
unfolding best_of sort_by
best_of-first [] = refl
best_of-first (s ∷ ss) = best_of-sorted s ss ∙ sym (shown_first s (sort_by ends_later ss))

-- The balance shown is that of the first statement of the account and currency within the period,
-- with the statements that end later in front and in their order where they end on one day. It is
-- none exactly when there is no such statement.
pub closing_balance_lem :
    (ss : List Balance) (account currency : String) (p : Period) (today : Today)
    → closing_balance ss account currency p today
      ≡ first_shown
          (sort_by ends_later (keep (counts_for account currency (period_range p today)) ss))
unfolding closing_balance
closing_balance_lem ss account currency p today =
    best_of-keep (counts_for account currency (period_range p today)) ss none
    ∙ best_of-first (keep (counts_for account currency (period_range p today)) ss)

past_both :
    (last max day : String)
    → text_lt last (if text_lt max day then day else max) ≡ false
    → (text_lt last max ≡ false) × (text_lt last day ≡ false)
past_both last max day h = elim (Bool-cases (text_lt max day)) [
  | inl e ↦
      let own : text_lt last day ≡ false =
        ap (λ b. text_lt last (if b then day else max)) (sym e) ∙ h in
      (text_lt_trans max day last (text_lt_asym max day e) own, own)
  | inr e ↦
      let own : text_lt last max ≡ false =
        ap (λ b. text_lt last (if b then day else max)) (sym e) ∙ h in
      (own, text_lt_trans day max last e own)
]

no_later :
    (rs : List Txn) (max : String)
    → (text_lt (latest_from rs max) max ≡ false)
      × All (λ r. text_lt (latest_from rs max) r.booking_date ≡ false) rs
unfolding latest_from
no_later [] max = (text_lt_irrefl max, tt)
no_later (r ∷ rs) max =
    let (own, rest) = no_later rs (if text_lt max r.booking_date then r.booking_date else max) in
    let (old, new) =
      past_both (latest_from rs (if text_lt max r.booking_date then r.booking_date else max)) max
        r.booking_date own in
    (old, (new, rest))

-- The text is the booking date of one of the rows.
abbrev pub IsBooked : String → List Txn → Type 0
IsBooked day rows =
    (pre : List Txn) × (r : Txn) × (post : List Txn) × (rows ≡ pre ++ r ∷ post)
    × (r.booking_date ≡ day)

IsBooked-later : (day : String) (q : Txn) (rs : List Txn) → IsBooked day rs → IsBooked day (q ∷ rs)
IsBooked-later day q rs (pre, r, post, is, on) = (q ∷ pre, r, post, ap (λ l. q ∷ l) is, on)

reached :
    (rs : List Txn) (max : String) → (latest_from rs max ≡ max) ⊎ IsBooked (latest_from rs max) rs
unfolding latest_from
reached [] max = inl refl
reached (r ∷ rs) max =
    elim (reached rs (if text_lt max r.booking_date then r.booking_date else max)) [
      | inr later ↦ inr (IsBooked-later _ r rs later)
      | inl here ↦ elim (Bool-cases (text_lt max r.booking_date)) [
        | inr e ↦ inl (here ∙ ap (λ b. if b then r.booking_date else max) e)
        | inl e ↦ inr ([], r, rs, refl, sym (here ∙ ap (λ b. if b then r.booking_date else max) e))
      ]
    ]

-- No row was booked after the date that `latestDate` gives, and it is a row's date or, as with no
-- rows, empty.
pub latest_date_lem :
    (rows : List Txn)
    → All (λ r. text_lt (latest_date rows) r.booking_date ≡ false) rows
      × ((latest_date rows ≡ "") ⊎ IsBooked (latest_date rows) rows)
unfolding latest_date
latest_date_lem rows = ((no_later rows "").1, reached rows "")
