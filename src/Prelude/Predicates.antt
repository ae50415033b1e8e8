-- ===== src/Prelude/Predicates.antt =====
-- Predicates on lists by recursion, which the tactics take apart: of every entry, and of every
-- entry with each later one.
use mathlib.Core.List.{List, [], ◌∷◌, ◌++◌, map}

module _ {ℓ κ} {A : Type ℓ} (P : A → Type κ) where
  abbrev pub All : List A → Type κ
  All [] = Unit
  All (x ∷ xs) = P x × All xs

  pub All-append : (xs ys : List A) → All xs → All ys → All (xs ++ ys)
  All-append [] ys h k = k
  All-append (x ∷ xs) ys (p, h) k = (p, All-append xs ys h k)

  pub All-left : (xs ys : List A) → All (xs ++ ys) → All xs
  All-left [] ys h = tt
  All-left (x ∷ xs) ys (p, h) = (p, All-left xs ys h)

  pub All-right : (xs ys : List A) → All (xs ++ ys) → All ys
  All-right [] ys h = h
  All-right (x ∷ xs) ys (p, h) = All-right xs ys h

module _ {ℓ κ ν} {A : Type ℓ} (P : A → Type κ) (Q : A → Type ν) where
  pub All_weaken : ((a : A) → P a → Q a) → (xs : List A) → All P xs → All Q xs
  All_weaken f [] h = tt
  All_weaken f (x ∷ xs) (p, h) = (f x p, All_weaken f xs h)

module _ {ℓ κ ν} {A : Type ℓ} {B : Type κ} (P : B → Type ν) (f : A → B) where
  pub All-map : (xs : List A) → All (λ a. P (f a)) xs → All P (map f xs)
  All-map [] h = tt
  All-map (x ∷ xs) (p, h) = (p, All-map xs h)

module _ {ℓ κ} {A : Type ℓ} (R : A → A → Type κ) where
  abbrev pub Pairs : List A → Type (ℓ ⊔ κ)
  Pairs [] = Unit
  Pairs (x ∷ xs) = All (R x) xs × Pairs xs

  pub Pairs-append :
      (xs ys : List A) → Pairs xs → Pairs ys → All (λ x. All (R x) ys) xs → Pairs (xs ++ ys)
  Pairs-append [] ys h k c = k
  Pairs-append (x ∷ xs) ys (p, h) k (q, c) = (All-append (R x) xs ys p q, Pairs-append xs ys h k c)

  pub Pairs_snoc : (xs : List A) (y : A) → Pairs xs → All (λ x. R x y) xs → Pairs (xs ++ y ∷ [])
  Pairs_snoc [] y h c = (tt, tt)
  Pairs_snoc (x ∷ xs) y (p, h) (q, c) =
      (All-append (R x) xs (y ∷ []) p (q, tt), Pairs_snoc xs y h c)

  pub Pairs-left : (xs ys : List A) → Pairs (xs ++ ys) → Pairs xs
  Pairs-left [] ys h = tt
  Pairs-left (x ∷ xs) ys (p, h) = (All-left (R x) xs ys p, Pairs-left xs ys h)

module _ {ℓ κ ν} {A : Type ℓ} {B : Type κ} (R : B → B → Type ν) (f : A → B) where
  pub Pairs-map : (xs : List A) → Pairs (λ a b. R (f a) (f b)) xs → Pairs R (map f xs)
  Pairs-map [] h = tt
  Pairs-map (x ∷ xs) (p, h) = (All-map (R (f x)) f xs p, Pairs-map xs h)

module _ {ℓ κ ν} {A : Type ℓ} (R : A → A → Type κ) (S : A → A → Type ν) where
  pub Pairs_weaken : ((a b : A) → R a b → S a b) → (xs : List A) → Pairs R xs → Pairs S xs
  Pairs_weaken f [] h = tt
  Pairs_weaken f (x ∷ xs) (p, h) = (All_weaken (R x) (S x) (f x) xs p, Pairs_weaken f xs h)
