-- ===== src/Money/Ledger/Periods.antt =====
-- The period of `defaultPeriod` in integrations/money/app/ledger.ts.
use atomic_plugins.Prelude.{
  ◌≡◌, ◌≢◌, refl, sym, subst, inl, inr, Bool, true, false, List, [], ◌∷◌, keep, Bool-cases, arith,
}
use atomic_plugins.Money.Types.{Txn}
use atomic_plugins.Money.Ledger.{
  Today, Period, plain, all, this_month, in_period, within, period_range, some_row, default_period,
}

keep-some_row :
    (test : Txn → Bool) (rows : List Txn) → some_row test rows ≡ true → keep test rows ≢ []
unfolding some_row
keep-some_row test [] h = λ e. cc
keep-some_row test (r ∷ rs) h = elim (Bool-cases (test r)) [
  | inl e ↦ rw e (λ q. cc)
  | inr e ↦ rw e (keep-some_row test rs (ground arith))
]

keep_all :
    (today : Today) (r : Txn) (rs : List Txn)
    → keep (λ q. in_period q (plain all) today) (r ∷ rs) ≢ []
unfolding in_period within period_range
keep_all today r rs = λ q. cc

this_month-default_period :
    (rows : List Txn) (today : Today)
    → some_row (λ q. in_period q (plain this_month) today) rows ≡ true
    → default_period rows today ≡ plain this_month
unfolding default_period
this_month-default_period rows today e = rw e refl

all-default_period :
    (rows : List Txn) (today : Today)
    → some_row (λ q. in_period q (plain this_month) today) rows ≡ false
    → default_period rows today ≡ plain all
unfolding default_period
all-default_period rows today e = rw e refl

abbrev Shows : List Txn → Today → Period → Type 0
Shows rows today p = keep (λ q. in_period q p today) rows ≢ []

-- Where there are rows, some row lies in the period that the tab opens with.
pub keep-default_period :
    (rows : List Txn) (today : Today)
    → rows ≢ []
    → keep (λ r. in_period r (default_period rows today) today) rows ≢ []
keep-default_period [] today h = absurd (h refl)
keep-default_period (r ∷ rs) today h =
    elim (Bool-cases (some_row (λ q. in_period q (plain this_month) today) (r ∷ rs))) [
      | inl e ↦
          subst (Shows (r ∷ rs) today) (sym (this_month-default_period (r ∷ rs) today e))
            (keep-some_row (λ q. in_period q (plain this_month) today) (r ∷ rs) e)
      | inr e ↦
          subst (Shows (r ∷ rs) today) (sym (all-default_period (r ∷ rs) today e))
            (keep_all today r rs)
    ]
