-- ===== src/Willow/Reader/Steps.antt =====
-- Chains of readings: a step that goes well, and the steps behind a chain that does.
use atomic_plugins.Prelude.{
  ℕ, ◌-◌, ◌+◌, Option, none, some, length, length-take, length-drop, take, drop, if◌then◌else◌, ◌<◌,
  ◌≤◌, ◌≡◌, refl, sym, ap, ◌∙◌, Bool, true, false, [], ◌∷◌, ltb, arith,
}
use atomic_plugins.Willow.Reader.{
  Bytes, M, Result, ok, err, DropError, Problem, ◌>>=◌, ◌>>◌, throw, throw_if, What, byte, small,
  take_bytes, read_sized, read_tagged, size_at, cu64, cu64_standalone, max_tag, ends_in_entry,
}

pub bind-ok :
    {A B : Type 0} (m : M A) (f : A → M B) {bytes rest : Bytes} {a : A}
    → m bytes ≡ ok (a, rest)
    → (m >>= f) bytes ≡ f a rest
unfolding ◌>>=◌
bind-ok m f e = ap (λ r. elim r [ err x ↦ err x | ok (a, l) ↦ f a l ]) e

pub bind-err :
    {A B : Type 0} (m : M A) (f : A → M B) {bytes : Bytes} {e : DropError}
    → m bytes ≡ err e
    → (m >>= f) bytes ≡ err e
unfolding ◌>>=◌
bind-err m f h = ap (λ r. elim r [ err x ↦ err x | ok (a, l) ↦ f a l ]) h

pub pass :
    {B : Type 0} (test : Bool) (p : Problem) (k : M B) {bytes : Bytes}
    → test ≡ false
    → (throw_if test p >> k) bytes ≡ k bytes
unfolding ◌>>◌ throw_if
pass test p k {bytes = bytes} e =
    ap (λ t. elim (throw_if t p bytes) [ err x ↦ err x | ok (tt, l) ↦ k l ]) e

pub err-ne-ok : {A : Type 0} {a : A} {e : DropError} → ¬ (err e ≡ ok a)
err-ne-ok h = cc

bound :
    {A B : Type 0} (r : Result (A × Bytes)) (f : A → M B) (v : B × Bytes)
    → elim r [ err x ↦ err x | ok (a, l) ↦ f a l ] ≡ ok v
    → (a : A) × (l : Bytes) × (r ≡ ok (a, l)) × (f a l ≡ ok v)
bound (ok (a, l)) f v h = (a, l, refl, h)
bound (err e) f v h = absurd (err-ne-ok h)

pub bind-steps :
    {A B : Type 0} (m : M A) (f : A → M B) {bytes : Bytes} {v : B × Bytes}
    → (m >>= f) bytes ≡ ok v
    → (a : A) × (rest : Bytes) × (m bytes ≡ ok (a, rest)) × (f a rest ≡ ok v)
unfolding ◌>>=◌
bind-steps m f {bytes = bytes} {v = v} h = bound (m bytes) f v h

tested :
    {B : Type 0} (test : Bool) (p : Problem) (k : M B) (bytes : Bytes) (v : B × Bytes)
    → (throw_if test p >> k) bytes ≡ ok v
    → (test ≡ false) × (k bytes ≡ ok v)
unfolding ◌>>◌ throw_if
tested true p k bytes v h = absurd (err-ne-ok h)
tested false p k bytes v h = (refl, h)

pub pass-steps :
    {B : Type 0} (test : Bool) (p : Problem) (k : M B) {bytes : Bytes} {v : B × Bytes}
    → (throw_if test p >> k) bytes ≡ ok v
    → (test ≡ false) × (k bytes ≡ ok v)
pass-steps test p k {bytes = bytes} {v = v} h = tested test p k bytes v h

pub ok-inj : {A : Type 0} {a b : A} → ok a ≡ ok b → a ≡ b
ok-inj {a = a} h = ap (λ r. elim r [ ok v ↦ v | err e ↦ a ]) h

pub small-within :
    (value limit : ℕ) (what : What) (rest : Bytes)
    → value ≤ limit
    → small value limit what rest ≡ ok (value, rest)
unfolding small
small-within value limit what rest h =
    let within : ltb limit value ≡ false = ground arith in pass _ _ _ within

pub byte_of : (b : ℕ) (rest : Bytes) → byte (b ∷ rest) ≡ ok (b, rest)
unfolding byte
byte_of b rest = refl

pub take_bytes-steps :
    (n : ℕ) (bytes taken rest : Bytes)
    → take_bytes n bytes ≡ ok (taken, rest)
    → (length taken ≡ n) × (length rest + n ≡ length bytes)
unfolding take_bytes
take_bytes-steps n bytes taken rest h =
    let (enough, first, second) = found (ltb (length bytes) n) h in
    let held : n ≤ length bytes = ground arith in
    (
      ap length (sym first) ∙ (let sized = length-take n bytes in omega (arith, sized)),
      ap (λ l. length l + n) (sym second)
          ∙ (let left = length-drop n bytes in omega (arith, left, held)),
    )
  where
    found :
        (test : Bool)
        → (if test then throw ends_in_entry bytes else ok (take n bytes, drop n bytes))
          ≡ ok (taken, rest)
        → (test ≡ false) × (take n bytes ≡ taken) × (drop n bytes ≡ rest)
    found true e = absurd (err-ne-ok e)
    found false e = (refl, ap (λ p. p.0) (ok-inj e), ap (λ p. p.1) (ok-inj e))

pub byte-steps : (bytes rest : Bytes) (b : ℕ) → byte bytes ≡ ok (b, rest) → bytes ≡ b ∷ rest
unfolding byte
byte-steps [] rest b h = absurd (err-ne-ok h)
byte-steps (a ∷ l) rest b h = ap (λ p. p.0 ∷ p.1) (ok-inj h)

pub small-steps :
    (value limit n : ℕ) (what : What) (bytes rest : Bytes)
    → small value limit what bytes ≡ ok (n, rest)
    → (n ≤ limit) × (n ≡ value) × (rest ≡ bytes)
unfolding small
small-steps value limit n what bytes rest h =
    let (within, returned) = pass-steps _ _ _ h in
    let same = ok-inj returned in
    (ground (arith, ap (λ p. p.0) same), sym (ap (λ p. p.0) same), sym (ap (λ p. p.1) same))

read_sized-steps :
    (tag : ℕ) (size : Option ℕ) (n : ℕ) (bytes rest : Bytes)
    → read_sized tag size bytes ≡ ok (n, rest)
    → length rest ≤ length bytes
unfolding read_sized
read_sized-steps tag none n bytes rest h =
    let same = ap (λ p. length p.1) (ok-inj h) in omega (arith, same)
read_sized-steps tag (some k) n bytes rest h =
    let (taken, left, read, returned) = bind-steps _ _ h in
    let (_, used) = take_bytes-steps k bytes taken left read in
    let same = ap (λ p. length p.1) (ok-inj returned) in omega (arith, used, same)

-- What a number takes of the bytes: no more than there are.
pub read_tagged-steps :
    (max tag n : ℕ) (bytes rest : Bytes)
    → read_tagged max tag bytes ≡ ok (n, rest)
    → length rest ≤ length bytes
unfolding read_tagged
read_tagged-steps max tag n bytes rest h = read_sized-steps tag (size_at (max - tag)) n bytes rest h

pub cu64-steps :
    (tag_byte width offset n : ℕ) (bytes rest : Bytes)
    → cu64 tag_byte width offset bytes ≡ ok (n, rest)
    → length rest ≤ length bytes
unfolding cu64
cu64-steps tag_byte width offset n bytes rest h = read_tagged-steps (max_tag width) _ n bytes rest h

pub cu64_standalone-steps :
    (n : ℕ) (bytes rest : Bytes) → cu64_standalone bytes ≡ ok (n, rest) → length rest < length bytes
unfolding cu64_standalone
cu64_standalone-steps n bytes rest h =
    let (tag, left, read, number) = bind-steps _ _ h in
    let used = ap length (byte-steps bytes left tag read) in
    let kept = cu64-steps tag 8 0 n left rest number in omega (arith, used, kept)
