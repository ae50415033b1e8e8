-- ===== src/Willow/Mapping/Order.antt =====
-- The order that integrations/willow-drop/mapping.ts prunes by.
use mathlib.Core.List.{append_assoc}
use atomic_plugins.Prelude.{
  ◌≡◌, inl, inr, refl, sym, ap, ◌∙◌, Bool, true, false, ◌&&◌, [], ◌∷◌, ◌++◌, length, length-append,
  leb, arith, Bool-cases,
}
use atomic_plugins.Willow.Reader.{Bytes}
use atomic_plugins.Willow.Encoding.{WillowPath}
use atomic_plugins.Willow.Drop.{DropEntry}
use atomic_plugins.Willow.Mapping.{
  Comparison, less, same, more, is_same, compare_bytes, newer, same_key_space, every_same,
  is_prefix, overwrites,
}
use atomic_plugins.Willow.Mapping.Versions.{
  compare_bytes_refl, compare_bytes-same, Newer, newer-Newer, Newer-newer, Newer-trans,
  newer_irrefl,
}

is_same-same : (a b : Bytes) → is_same (compare_bytes a b) ≡ true → a ≡ b
is_same-same a b h = found (compare_bytes a b) refl h
  where
    found : (c : Comparison) → compare_bytes a b ≡ c → is_same c ≡ true → a ≡ b
    found less e k = cc
    found more e k = cc
    found same e k = compare_bytes-same a b e

same-is_same : (a b : Bytes) → a ≡ b → is_same (compare_bytes a b) ≡ true
same-is_same a b e = ap (λ l. is_same (compare_bytes l b)) e ∙ ap is_same (compare_bytes_refl b)

both : (a b : Bool) → (a && b) ≡ true → (a ≡ true) × (b ≡ true)
both true b h = (refl, h)
both false b h = cc

and_true : (a b : Bool) → a ≡ true → b ≡ true → (a && b) ≡ true
and_true a b h k = ap (λ x. x && b) h ∙ k

every_same-append : (p q : WillowPath) → every_same p q ≡ true → (r : WillowPath) × (q ≡ p ++ r)
unfolding every_same
every_same-append [] q h = (q, refl)
every_same-append (c ∷ p) [] h = cc
every_same-append (c ∷ p) (d ∷ q) h =
    let (first, others) = both (is_same (compare_bytes c d)) (every_same p q) h in
    let (r, e) = every_same-append p q others in
    (r, ap (λ x. x ∷ q) (sym (is_same-same c d first)) ∙ ap (λ l. c ∷ l) e)

append-every_same : (p r : WillowPath) → every_same p (p ++ r) ≡ true
unfolding every_same
append-every_same [] r = refl
append-every_same (c ∷ p) r = and_true _ _ (same-is_same c c refl) (append-every_same p r)

-- What `overwrites` decides.
abbrev pub Overwrites : DropEntry → DropEntry → Type 0
Overwrites a b =
    (a.namespace ≡ b.namespace)
    × (a.subspace ≡ b.subspace)
    × ((r : WillowPath) × (b.path ≡ a.path ++ r))
    × Newer a b

overwrites-Overwrites : (a b : DropEntry) → overwrites a b ≡ true → Overwrites a b
unfolding overwrites same_key_space is_prefix
overwrites-Overwrites a b h =
    let (keys, h1) = both (same_key_space a b) (is_prefix a.path b.path && newer a b) h in
    let (prefix, later) = both (is_prefix a.path b.path) (newer a b) h1 in
    let (n, s) =
      both (is_same (compare_bytes a.namespace b.namespace))
        (is_same (compare_bytes a.subspace b.subspace)) keys in
    let (short, every) =
      both (leb (length a.path) (length b.path)) (every_same a.path b.path) prefix in
    (
      is_same-same a.namespace b.namespace n,
      is_same-same a.subspace b.subspace s,
      every_same-append a.path b.path every,
      newer-Newer a b later,
    )

Overwrites-overwrites : (a b : DropEntry) → Overwrites a b → overwrites a b ≡ true
unfolding overwrites same_key_space is_prefix
Overwrites-overwrites a b (n, s, (r, e), later) =
    let sizes = ap length e ∙ length-append a.path r in
    let short : leb (length a.path) (length b.path) ≡ true = ground (arith, sizes) in
    and_true _ _
      (and_true _ _ (same-is_same a.namespace b.namespace n) (same-is_same a.subspace b.subspace s))
      (and_true _ _ (and_true _ _ short (ap (every_same a.path) e ∙ append-every_same a.path r))
        (Newer-newer a b later))

pub overwrites_irrefl : (a : DropEntry) → overwrites a a ≡ false
unfolding overwrites
overwrites_irrefl a = elim (Bool-cases (overwrites a a)) [
  | inl e ↦
      let (keys, h1) = both (same_key_space a a) (is_prefix a.path a.path && newer a a) e in
      let (prefix, later) = both (is_prefix a.path a.path) (newer a a) h1 in
      absurd (not_both (sym later ∙ newer_irrefl a))
  | inr e ↦ e
]
  where
    not_both : ¬ (true ≡ false)
    not_both h = cc

pub overwrites_trans :
    (a b c : DropEntry) → overwrites a b ≡ true → overwrites b c ≡ true → overwrites a c ≡ true
overwrites_trans a b c h k =
    let (n, s, (r, e), later) = overwrites-Overwrites a b h in
    let (m, t, (q, f), after) = overwrites-Overwrites b c k in
    Overwrites-overwrites a c (
      n ∙ m,
      s ∙ t,
      (r ++ q, f ∙ ap (λ l. l ++ q) e ∙ append_assoc a.path r q),
      Newer-trans a b c later after,
    )
