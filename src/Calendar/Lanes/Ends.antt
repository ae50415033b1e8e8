-- ===== src/Calendar/Lanes/Ends.antt =====
-- The ends of the lanes in `packColumn` (integrations/calendar/app/events.ts).
use atomic_plugins.Prelude.{
  ℕ, zero, suc, ◌≤◌, ◌<◌, ◌≡◌, ◌≢◌, refl, ap, ◌⊎◌, inl, inr, some, List, [], ◌∷◌, ◌++◌, leb, length,
  set, get_or, arith, Bool-cases, leb→le, Option-cases, length-append,
}
use atomic_plugins.Calendar.Lanes.{find_lane, choose_lane}

found_in_tail :
    (x : ℕ) (xs : List ℕ) (start lane i : ℕ)
    → find_lane xs start ≡ some i
    → i < length xs
    → get_or xs i 0 ≤ start
    → find_lane (x ∷ xs) start ≡ some lane
    → (lane < length (x ∷ xs)) × (get_or (x ∷ xs) lane 0 ≤ start)
unfolding find_lane
found_in_tail x xs start lane i found below free e = elim (Bool-cases (leb x start)) [
  | inl le ↦ let first : lane ≡ 0 = ground (arith, le) in rw first (omega arith, leb→le x start le)
  | inr gt ↦ let later : lane ≡ suc i = ground (arith, found, gt) in rw later (omega arith, free)
]

find_lane-some :
    (ends : List ℕ) (start lane : ℕ)
    → find_lane ends start ≡ some lane
    → (lane < length ends) × (get_or ends lane 0 ≤ start)
unfolding find_lane
find_lane-some [] start lane e = cc
find_lane-some (x ∷ xs) start lane e = elim (Option-cases (find_lane xs start)) [
  | inl missing ↦ ground (arith, missing)
  | inr (i, found) ↦
      let (below, free) = find_lane-some xs start i found in
      found_in_tail x xs start lane i found below free e
]

pub get_or-set_self : (ends : List ℕ) (i v : ℕ) → i < length ends → get_or (set ends i v) i 0 ≡ v
get_or-set_self [] i v h = absurd (omega arith)
get_or-set_self (e ∷ es) zero v h = refl
get_or-set_self (e ∷ es) (suc i) v h = get_or-set_self es i v (omega arith)

pub get_or-set_ne :
    (ends : List ℕ) (i j v : ℕ) → i ≢ j → get_or (set ends i v) j 0 ≡ get_or ends j 0
get_or-set_ne [] i j v n = refl
get_or-set_ne (e ∷ es) zero zero v n = absurd (n refl)
get_or-set_ne (e ∷ es) zero (suc j) v n = refl
get_or-set_ne (e ∷ es) (suc i) zero v n = refl
get_or-set_ne (e ∷ es) (suc i) (suc j) v n = get_or-set_ne es i j v (λ q. n (ap suc q))

get_or_append :
    (ends : List ℕ) (v j : ℕ) → j < length ends → get_or (ends ++ v ∷ []) j 0 ≡ get_or ends j 0
get_or_append [] v j h = absurd (omega arith)
get_or_append (e ∷ es) v zero h = refl
get_or_append (e ∷ es) v (suc j) h = get_or_append es v j (omega arith)

-- The lane of a new block: its end can be written, the other ends stay, and the lane is new or free.
pub record Chosen (ends : List ℕ) (start lane : ℕ) (ends' : List ℕ) : Type 0 where
  pub inside : lane < length ends'
  pub longer : length ends ≤ length ends'
  pub same : (j : ℕ) → j < length ends → get_or ends' j 0 ≡ get_or ends j 0
  pub free : (lane ≡ length ends) ⊎ (get_or ends lane 0 ≤ start)

pub choose_lane-Chosen :
    (ends : List ℕ) (start : ℕ)
    → Chosen ends start (choose_lane ends start).0 (choose_lane ends start).1
unfolding choose_lane
choose_lane-Chosen ends start = elim (Option-cases (find_lane ends start)) [
  | inl missing ↦
      rw (missing, choose_lane)
        (record {
          inside = omega (arith, length-append ends (0 ∷ []));
          longer = omega (arith, length-append ends (0 ∷ []));
          same = λ j h. get_or_append ends 0 j h;
          free = inl refl;
        })
  | inr (lane, found) ↦
      rw (found, choose_lane)
        (record {
          inside = (find_lane-some ends start lane found).0;
          longer = omega arith;
          same = λ j h. refl;
          free = inr (find_lane-some ends start lane found).1;
        })
]
