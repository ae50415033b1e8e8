-- ===== src/Willow/Mapping/Versions.antt =====
-- The order of versions in integrations/willow-drop/mapping.ts.
use atomic_plugins.Prelude.{
  ℕ, ◌<◌, ◌≡◌, ◌⊎◌, inl, inr, refl, sym, ap, ◌∙◌, Bool, true, false, [], ◌∷◌, ltb, ◌==◌,
  if◌then◌else◌, arith, Bool-cases,
}
use atomic_plugins.Willow.Reader.{Bytes}
use atomic_plugins.Willow.Drop.{DropEntry}
use atomic_plugins.Willow.Mapping.{Comparison, less, same, more, by_digest, compare_bytes, newer}

pub compare_bytes_refl : (a : Bytes) → compare_bytes a a ≡ same
unfolding compare_bytes
compare_bytes_refl [] = refl
compare_bytes_refl (x ∷ a) =
    let rest = compare_bytes_refl a in let e : (x == x) ≡ true = ground arith in rw e rest

pub compare_bytes-same : (a b : Bytes) → compare_bytes a b ≡ same → a ≡ b
unfolding compare_bytes
compare_bytes-same [] [] h = refl
compare_bytes-same [] (y ∷ b) h = cc
compare_bytes-same (x ∷ a) [] h = cc
compare_bytes-same (x ∷ a) (y ∷ b) h = elim (Bool-cases (x == y)) [
  | inl e ↦
      let equal : x ≡ y = ground arith in
      let rest : compare_bytes a b ≡ same =
        sym (ap (λ t. if t then compare_bytes a b else if ltb x y then less else more) e) ∙ h in
      ap (λ z. z ∷ a) equal ∙ ap (λ l. y ∷ l) (compare_bytes-same a b rest)
  | inr e ↦ absurd (
      no_tie (ltb x y)
        (sym (ap (λ t. if t then compare_bytes a b else if ltb x y then less else more) e) ∙ h))
]
  where
    no_tie : (test : Bool) → ¬ ((if test then less else more) ≡ same)
    no_tie true t = cc
    no_tie false t = cc

-- What makes the first of two lists the greater.
above :
    (x y : ℕ) (a b : Bytes)
    → compare_bytes (x ∷ a) (y ∷ b) ≡ more
    → (y < x) ⊎ ((x ≡ y) × (compare_bytes a b ≡ more))
unfolding compare_bytes
above x y a b h = found (x == y) (ltb x y) refl refl h
  where
    found :
        (t u : Bool)
        → (x == y) ≡ t
        → ltb x y ≡ u
        → (if t then compare_bytes a b else if u then less else more) ≡ more
        → (y < x) ⊎ ((x ≡ y) × (compare_bytes a b ≡ more))
    found true u e f k = inr (ground arith, k)
    found false true e f k = cc
    found false false e f k = inl (ground arith)

above_first : (x y : ℕ) (a b : Bytes) → y < x → compare_bytes (x ∷ a) (y ∷ b) ≡ more
unfolding compare_bytes
above_first x y a b h =
    let e : (x == y) ≡ false = ground arith in
    let f : ltb x y ≡ false = ground arith in rw (e, f) refl

above_next :
    (x y : ℕ) (a b : Bytes)
    → x ≡ y
    → compare_bytes a b ≡ more
    → compare_bytes (x ∷ a) (y ∷ b) ≡ more
unfolding compare_bytes
above_next x y a b h k = let e : (x == y) ≡ true = ground arith in rw e k

least : (b : Bytes) → ¬ (compare_bytes [] b ≡ more)
unfolding compare_bytes
least [] h = cc
least (y ∷ b) h = cc

above_least : (x : ℕ) (a : Bytes) → compare_bytes (x ∷ a) [] ≡ more
unfolding compare_bytes
above_least x a = refl

compare_bytes_trans :
    (a b c : Bytes) → compare_bytes a b ≡ more → compare_bytes b c ≡ more → compare_bytes a c ≡ more
compare_bytes_trans [] b c h k = absurd (least b h)
compare_bytes_trans (x ∷ a) b [] h k = above_least x a
compare_bytes_trans (x ∷ a) [] (z ∷ c) h k = absurd (least (z ∷ c) k)
compare_bytes_trans (x ∷ a) (y ∷ b) (z ∷ c) h k = elim (above x y a b h) [
  | inl p ↦ elim (above y z b c k) [
    | inl q ↦ above_first x z a c (omega arith)
    | inr (e, q) ↦ above_first x z a c (omega arith)
  ]
  | inr (e, p) ↦ elim (above y z b c k) [
    | inl q ↦ above_first x z a c (omega arith)
    | inr (f, q) ↦ above_next x z a c (e ∙ f) (compare_bytes_trans a b c p q)
  ]
]

-- What `newer` decides.
abbrev pub Newer : DropEntry → DropEntry → Type 0
Newer a b =
    (b.timestamp < a.timestamp)
    ⊎ ((a.timestamp ≡ b.timestamp) × (compare_bytes a.payload_digest b.payload_digest ≡ more))
    ⊎ ((a.timestamp ≡ b.timestamp)
        × (a.payload_digest ≡ b.payload_digest)
        × (b.payload_length < a.payload_length))

pub newer-Newer : (a b : DropEntry) → newer a b ≡ true → Newer a b
unfolding newer
newer-Newer a b h =
    found (a.timestamp == b.timestamp) (compare_bytes a.payload_digest b.payload_digest)
      (ltb b.payload_length a.payload_length) refl refl refl h
  where
    found :
        (t : Bool) (c : Comparison) (l : Bool)
        → (a.timestamp == b.timestamp) ≡ t
        → compare_bytes a.payload_digest b.payload_digest ≡ c
        → ltb b.payload_length a.payload_length ≡ l
        → (if t then by_digest c l else ltb b.timestamp a.timestamp) ≡ true
        → Newer a b
    found false c l e f g k = inl (ground arith)
    found true less l e f g k = cc
    found true more l e f g k = inr (inl (ground arith, f))
    found true same l e f g k =
        inr
          (inr (ground arith, compare_bytes-same a.payload_digest b.payload_digest f, ground arith))

pub Newer-newer : (a b : DropEntry) → Newer a b → newer a b ≡ true
unfolding newer
Newer-newer a b (inl h) =
    let e : (a.timestamp == b.timestamp) ≡ false = ground arith in
    let f : ltb b.timestamp a.timestamp ≡ true = ground arith in rw e f
Newer-newer a b (inr (inl (t, h))) =
    let e : (a.timestamp == b.timestamp) ≡ true = ground arith in rw (e, h) refl
Newer-newer a b (inr (inr (t, d, h))) =
    let e : (a.timestamp == b.timestamp) ≡ true = ground arith in
    let f : compare_bytes a.payload_digest b.payload_digest ≡ same =
      ap (λ l. compare_bytes l b.payload_digest) d ∙ compare_bytes_refl b.payload_digest in
    let g : ltb b.payload_length a.payload_length ≡ true = ground arith in rw (e, f) g

pub Newer-trans : (a b c : DropEntry) → Newer a b → Newer b c → Newer a c
Newer-trans a b c (inl h) (inl k) = inl (omega arith)
Newer-trans a b c (inl h) (inr (inl (t, k))) = inl (omega arith)
Newer-trans a b c (inl h) (inr (inr (t, d, k))) = inl (omega arith)
Newer-trans a b c (inr (inl (t, h))) (inl k) = inl (omega arith)
Newer-trans a b c (inr (inl (t, h))) (inr (inl (u, k))) =
    inr (inl (t ∙ u, compare_bytes_trans a.payload_digest b.payload_digest c.payload_digest h k))
Newer-trans a b c (inr (inl (t, h))) (inr (inr (u, d, k))) =
    inr (inl (t ∙ u, sym (ap (compare_bytes a.payload_digest) d) ∙ h))
Newer-trans a b c (inr (inr (t, d, h))) (inl k) = inl (omega arith)
Newer-trans a b c (inr (inr (t, d, h))) (inr (inl (u, k))) =
    inr (inl (t ∙ u, ap (λ l. compare_bytes l c.payload_digest) d ∙ k))
Newer-trans a b c (inr (inr (t, d, h))) (inr (inr (u, e, k))) =
    inr (inr (t ∙ u, d ∙ e, omega arith))

pub newer_irrefl : (a : DropEntry) → newer a a ≡ false
unfolding newer
newer_irrefl a =
    let e : (a.timestamp == a.timestamp) ≡ true = ground arith in
    let g : ltb a.payload_length a.payload_length ≡ false = ground arith in
    rw (e, compare_bytes_refl a.payload_digest) g
