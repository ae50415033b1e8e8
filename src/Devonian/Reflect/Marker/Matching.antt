-- ===== src/Devonian/Reflect/Marker/Matching.antt =====
-- `markerRegex` of devonian/src/reflect/marker.ts on a text that ends in a marker.
use Prim.Native.Char.{Char, code}
use atomic_plugins.Prelude.{
  Bool, true, false, Option, none, some, [], ◌∷◌, ◌++◌, if◌then◌else◌, ◌≡◌, refl, ap, ◌∙◌, inl, inr,
  Bool-cases, arith, All, ==_iff,
}
use atomic_plugins.Devonian.Reflect.Marker.{
  Chars, is_space_code, is_space, is_char, past, skip_spaces, close_comment, closing, with_front,
  payload_of,
}

-- Neither a space nor the sign that ends a comment.
abbrev pub IsSolid : Char → Type 0
IsSolid c = (is_space c ≡ false) × (is_char c ">" ≡ false)

abbrev pub IsInside : Char → Type 0
IsInside c = is_char c ">" ≡ false

is_char_refl : (c : Char) → is_char c c ≡ true
is_char_refl c = (==_iff (code c) (code c)).1 refl

pub past-append : (l s : Chars) → past l (l ++ s) ≡ some s
unfolding past
past-append [] s = refl
past-append (c ∷ l) s = rw (is_char_refl c) (past-append l s)

pub skip_spaces_solid : (c : Char) (s : Chars) → is_space c ≡ false → skip_spaces (c ∷ s) ≡ c ∷ s
unfolding skip_spaces
skip_spaces_solid c s e = rw e refl

skip_spaces_space : (c : Char) (s : Chars) → is_space c ≡ true → skip_spaces (c ∷ s) ≡ skip_spaces s
unfolding skip_spaces
skip_spaces_space c s e = rw e refl

abbrev pub end_of : Chars → Chars
end_of rest = " " ∷ "-" ∷ "-" ∷ ">" ∷ rest

-- A text without spaces at its end: nothing, or a character that is no space after any others.
abbrev pub EndsSolid : Chars → Type 0
EndsSolid [] = Unit
EndsSolid (c ∷ []) = is_space c ≡ false
EndsSolid (c ∷ d ∷ t) = EndsSolid (d ∷ t)

if_none : (b : Bool) (x : Option Chars) → x ≡ none → (if b then x else none) ≡ none
if_none true x h = h
if_none false x h = refl

is_char_flip : (c d : Char) → is_char c d ≡ false → is_char d c ≡ false
is_char_flip c d h = ground arith

past_close :
    (c : Char) (t rest : Chars)
    → All IsInside (c ∷ t)
    → past close_comment (c ∷ (t ++ end_of rest)) ≡ none
unfolding past
past_close c [] rest h = if_none (is_char "-" c) none refl
past_close c (d ∷ []) rest h = if_none (is_char "-" c) _ (if_none (is_char "-" d) none refl)
past_close c (d ∷ e ∷ t) rest (h, (k, (l, m))) = if_none (is_char "-" c) _ (
    if_none (is_char "-" d) _
      (ap (λ b. if b then some (t ++ end_of rest) else none) (is_char_flip e ">" l)))

closing_inside :
    (c : Char) (t rest : Chars)
    → All IsInside (c ∷ t)
    → EndsSolid (c ∷ t)
    → closing (c ∷ (t ++ end_of rest)) ≡ none
unfolding closing
closing_inside c [] rest h e =
    ap (past close_comment) (skip_spaces_solid c (end_of rest) e) ∙ past_close c [] rest h
closing_inside c (d ∷ t) rest (h, k) e = elim (Bool-cases (is_space c)) [
  | inl f ↦
      ap (past close_comment) (skip_spaces_space c (d ∷ (t ++ end_of rest)) f)
      ∙ closing_inside d t rest k e
  | inr f ↦
      ap (past close_comment) (skip_spaces_solid c (d ∷ (t ++ end_of rest)) f)
      ∙ past_close c (d ∷ t) rest (h, k)
]

ends_behind : (c : Char) (t : Chars) → EndsSolid (c ∷ t) → EndsSolid t
ends_behind c [] e = tt
ends_behind c (d ∷ t) e = e

closing_end : (rest : Chars) → closing (end_of rest) ≡ some rest
unfolding closing past skip_spaces is_space_code
closing_end rest = refl

payload_end :
    (c : Char) (s rest : Chars) → closing (c ∷ s) ≡ some rest → payload_of (c ∷ s) ≡ some ([], rest)
unfolding payload_of
payload_end c s rest e =
    ap
      (λ o. elim o [
        | some r ↦ some ([], r)
        | none ↦ if is_char c ">" then none else with_front c (payload_of s)
      ])
      e

payload_on :
    (c : Char) (s : Chars)
    → closing (c ∷ s) ≡ none
    → is_char c ">" ≡ false
    → payload_of (c ∷ s) ≡ with_front c (payload_of s)
unfolding payload_of
payload_on c s e f =
    ap
      (λ o. elim o [
        | some r ↦ some ([], r)
        | none ↦ if is_char c ">" then none else with_front c (payload_of s)
      ])
      e
    ∙ ap (λ b. if b then none else with_front c (payload_of s)) f

-- The payload ends where the marker does.
pub payload_of-append :
    (t rest : Chars) → All IsInside t → EndsSolid t → payload_of (t ++ end_of rest) ≡ some (t, rest)
payload_of-append [] rest h e = payload_end _ _ rest (closing_end rest)
payload_of-append (c ∷ t) rest (h, k) e =
    payload_on c (t ++ end_of rest) (closing_inside c t rest (h, k) e) h
    ∙ ap (with_front c) (payload_of-append t rest k (ends_behind c t e))
