-- ===== src/Willow/Drop/Payloads.antt =====
-- The payloads that integrations/willow-drop/drop.ts accepts.
use atomic_plugins.Prelude.{
  ℕ, ◌≡◌, refl, sym, ap, ◌∙◌, subst, Bool, true, false, not, Option, none, some, [], ◌∷◌, length,
  ◌==◌, if◌then◌else◌, arith,
}
use atomic_plugins.Willow.Reader.{Bytes, M, ok}
use atomic_plugins.Willow.Reader.Steps.{bind-steps, pass-steps, ok-inj, err-ne-ok, take_bytes-steps}
use atomic_plugins.Willow.William3.{william3}
use atomic_plugins.Willow.Drop.{every_at, equal, full_payload, no_slices, decode_payload}

pub not-false : (b : Bool) → not b ≡ false → b ≡ true
not-false true h = refl
not-false false h = sym h

every_at-same : (a b : Bytes) → length a ≡ length b → every_at a b ≡ true → a ≡ b
unfolding every_at
every_at-same [] [] e h = refl
every_at-same [] (y ∷ b) e h = absurd (omega arith)
every_at-same (x ∷ a) [] e h = absurd (omega arith)
every_at-same (x ∷ a) (y ∷ b) e h =
    let same : x ≡ y = ground arith in
    let others : every_at a b ≡ true = ground arith in
    ap (λ z. z ∷ a) same ∙ ap (λ l. y ∷ l) (every_at-same a b (omega arith) others)

pub equal-same : (a b : Bytes) → equal a b ≡ true → a ≡ b
unfolding equal
equal-same a b h =
    let sizes : length a ≡ length b = ground arith in
    let bytes : every_at a b ≡ true = ground arith in every_at-same a b sizes bytes

-- The payload, if there is one, is all of it.
abbrev pub IsPayload : Option Bytes → ℕ → Bytes → Type 0
IsPayload none size digest = Unit
IsPayload (some p) size digest = (length p ≡ size) × (william3 p ≡ digest)

full_payload-IsPayload :
    (size : ℕ) (digest bytes rest : Bytes) (payload : Option Bytes)
    → full_payload size digest bytes ≡ ok (payload, rest)
    → IsPayload payload size digest
unfolding full_payload
full_payload-IsPayload size digest bytes rest payload h =
    let (left, l1, counted, h1) = bind-steps _ _ h in
    let (enough, h2) = pass-steps _ _ _ h1 in
    let (p, l2, taken, h3) = bind-steps _ _ h2 in
    let (matches, returned) = pass-steps _ _ _ h3 in
    let same : some p ≡ payload = ap (λ v. v.0) (ok-inj returned) in
    let (sized, used) = take_bytes-steps size l1 p l2 taken in
    subst (λ o. IsPayload o size digest) same
      (sized, equal-same (william3 p) digest (not-false (equal (william3 p) digest) matches))

no_slices-IsPayload :
    (size : ℕ) (digest bytes rest : Bytes) (payload : Option Bytes)
    → no_slices bytes ≡ ok (payload, rest)
    → IsPayload payload size digest
unfolding no_slices
no_slices-IsPayload size digest bytes rest payload h =
    let (left, l1, counted, h1) = bind-steps _ _ h in
    let (next, l2, peeked, h2) = bind-steps _ _ h1 in
    let (none_follow, returned) = pass-steps _ _ _ h2 in
    subst (λ o. IsPayload o size digest) (ap (λ v. v.0) (ok-inj returned)) tt

-- What one of two readings does, whichever the test chooses.
pub either :
    {A : Type 0} (test : Bool) (m n : M A) {bytes : Bytes} {v : A × Bytes} (P : Type 0)
    → (m bytes ≡ ok v → P)
    → (n bytes ≡ ok v → P)
    → (if test then m else n) bytes ≡ ok v
    → P
either true m n P f g h = f h
either false m n P f g h = g h

pub decode_payload-IsPayload :
    (mode size : ℕ) (digest bytes rest : Bytes) (payload : Option Bytes)
    → decode_payload mode size digest bytes ≡ ok (payload, rest)
    → IsPayload payload size digest
unfolding decode_payload
decode_payload-IsPayload mode size digest bytes rest payload h =
    either (mode == 1) _ _ (IsPayload payload size digest)
      (full_payload-IsPayload size digest bytes rest payload)
      (either (mode == 3) _ _ (IsPayload payload size digest)
        (no_slices-IsPayload size digest bytes rest payload)
        (either (mode == 2) _ _ (IsPayload payload size digest) (λ e. absurd (err-ne-ok e))
          (λ e. subst (λ o. IsPayload o size digest) (ap (λ v. v.0) (ok-inj e)) tt)))
      h
