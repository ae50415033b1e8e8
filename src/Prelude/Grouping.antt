-- ===== src/Prelude/Grouping.antt =====
-- `Map` with texts for keys: its entries stand in the order of their first insertion. A loop that
-- updates the entry of each row's key collects, for each key, the rows of that key in their order.
use mathlib.Core.Path.{◌≡◌, refl, sym, ap, ◌∙◌, subst}
use mathlib.Core.Logic.{◌≢◌, inl, inr}
use mathlib.Core.Option.{Option, none, some}
use mathlib.Core.List.{List, [], ◌∷◌}
use Prim.Native.String.{String}
use native.Mathlib.Omega.{arith}
use text.Mathlib.Text.{◌==◌ as str_eq}
use text.Mathlib.TextEquality.{eq_iff}
use atomic_plugins.Prelude.Tests.{if◌then◌else◌, Bool-cases}
use atomic_plugins.Prelude.Lists.{keep}
use atomic_plugins.Prelude.Predicates.{All, Pairs}

module _ {ℓ} {A : Type ℓ} where
  -- `map.get(k)`
  unfoldable pub find : String → List (String × A) → Option A
  find k [] = none
  find k ((j, a) ∷ m) = if str_eq j k then some a else find k m

  -- `map.set(k, update(map.get(k)))`
  unfoldable pub put : String → (Option A → A) → List (String × A) → List (String × A)
  put k update [] = (k, update none) ∷ []
  put k update ((j, a) ∷ m) =
      if str_eq j k then (j, update (some a)) ∷ m else (j, a) ∷ put k update m

  pub find-put_self :
      (k : String) (update : Option A → A) (m : List (String × A))
      → find k (put k update m) ≡ some (update (find k m))
  unfolding find put
  find-put_self k update [] = rw ((eq_iff k k).1 refl) refl
  find-put_self k update ((j, a) ∷ m) = elim (Bool-cases (str_eq j k)) [
    | inl e ↦ rw (e, find, e) refl
    | inr e ↦ rw (e, find, e) (find-put_self k update m)
  ]

  pub find-put_ne :
      (i k : String) (update : Option A → A) (m : List (String × A))
      → k ≢ i
      → find i (put k update m) ≡ find i m
  unfolding find put
  find-put_ne i k update [] h = elim (Bool-cases (str_eq k i)) [
    | inl e ↦ absurd (h ((eq_iff k i).0 e))
    | inr e ↦ rw e refl
  ]
  find-put_ne i k update ((j, a) ∷ m) h = elim (Bool-cases (str_eq j k)) [
    | inl e ↦ elim (Bool-cases (str_eq j i)) [
      | inl f ↦ absurd (h (sym ((eq_iff j k).0 e) ∙ (eq_iff j i).0 f))
      | inr f ↦ rw (e, find, f) refl
    ]
    | inr e ↦ rw (e, find) (ap (λ o. if str_eq j i then some a else o) (find-put_ne i k update m h))
  ]

  -- No key stands twice.
  abbrev pub OnceEach : List (String × A) → Type ℓ
  OnceEach = Pairs λ d e. d.0 ≢ e.0

  pub All-put :
      (i k : String) (update : Option A → A) (m : List (String × A))
      → i ≢ k
      → All (λ e. i ≢ e.0) m
      → All (λ e. i ≢ e.0) (put k update m)
  unfolding put
  All-put i k update [] n h = (n, tt)
  All-put i k update ((j, a) ∷ m) n (q, h) = elim (Bool-cases (str_eq j k)) [
    | inl e ↦ rw e (q, h)
    | inr e ↦ rw e (q, All-put i k update m n h)
  ]

  pub put-OnceEach :
      (k : String) (update : Option A → A) (m : List (String × A))
      → OnceEach m
      → OnceEach (put k update m)
  unfolding put
  put-OnceEach k update [] h = (tt, tt)
  put-OnceEach k update ((j, a) ∷ m) (q, h) = elim (Bool-cases (str_eq j k)) [
    | inl e ↦ rw e (q, h)
    | inr e ↦
        rw e (All-put j k update m (λ p. ground (arith, eq_iff j k)) q, put-OnceEach k update m h)
  ]

  found_past :
      (j : String) (a : A) (m l : List (String × A))
      → All (λ e. j ≢ e.0) l
      → All (λ e. find e.0 m ≡ some e.1) l
      → All (λ e. find e.0 ((j, a) ∷ m) ≡ some e.1) l
  unfolding find
  found_past j a m [] n h = tt
  found_past j a m ((i, b) ∷ l) (q, n) (p, h) = elim (Bool-cases (str_eq j i)) [
    | inl e ↦ absurd (q ((eq_iff j i).0 e))
    | inr e ↦ rw (e, find) (p, found_past j a m l n h)
  ]

  -- What stands in the map is what is found there.
  pub found : (m : List (String × A)) → OnceEach m → All (λ e. find e.0 m ≡ some e.1) m
  unfolding find
  found [] h = tt
  found ((j, a) ∷ m) (q, h) = (rw ((eq_iff j j).1 refl) refl, found_past j a m m q (found m h))

module _ {ℓ κ} {R : Type ℓ} {A : Type κ} (key : R → String) (add : R → Option A → A) where
  -- `for (const row of rows) map.set(key(row), add(row, map.get(key(row))))`
  unfoldable pub group : List R → List (String × A) → List (String × A)
  group [] m = m
  group (r ∷ rs) m = group rs (put (key r) (add r) m)

  -- What the loop makes of the rows of one key.
  unfoldable pub gather : List R → Option A → Option A
  gather [] o = o
  gather (r ∷ rs) o = gather rs (some (add r o))

  pub find-group :
      (k : String) (rs : List R) (m : List (String × A))
      → find k (group rs m) ≡ gather (keep (λ r. str_eq (key r) k) rs) (find k m)
  unfolding group gather
  find-group k [] m = refl
  find-group k (r ∷ rs) m = elim (Bool-cases (str_eq (key r) k)) [
    | inl e ↦
        let same = (eq_iff (key r) k).0 e in
        rw e (
          find-group k rs (put (key r) (add r) m)
          ∙ ap (gather (keep (λ s. str_eq (key s) k) rs)) (
              subst (λ i. find i (put (key r) (add r) m) ≡ some (add r (find i m))) same
                (find-put_self (key r) (add r) m)))
    | inr e ↦ rw e (
        find-group k rs (put (key r) (add r) m)
        ∙ ap (gather (keep (λ s. str_eq (key s) k) rs))
            (find-put_ne k (key r) (add r) m (λ p. ground (arith, eq_iff (key r) k))))
  ]

  pub group-OnceEach : (rs : List R) (m : List (String × A)) → OnceEach m → OnceEach (group rs m)
  unfolding group
  group-OnceEach [] m h = h
  group-OnceEach (r ∷ rs) m h =
      group-OnceEach rs (put (key r) (add r) m) (put-OnceEach (key r) (add r) m h)
