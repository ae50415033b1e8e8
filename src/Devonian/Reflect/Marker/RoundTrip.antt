-- ===== src/Devonian/Reflect/Marker/RoundTrip.antt =====
-- `embedMarker` and `parseMarker` of devonian/src/reflect/marker.ts.
use Prim.Native.Char.{Char}
use mathlib.Core.Option.{some-injective}
use atomic_plugins.Prelude.{
  String, false, Option, none, some, [], ◌∷◌, ◌++◌, if◌then◌else◌, ◌≡◌, refl, sym, ap, subst, ◌∙◌,
  inl, inr, Bool-cases, Option-cases, All,
}
use atomic_plugins.Devonian.Reflect.Copies.{OriginRef}
use atomic_plugins.Devonian.Reflect.Marker.{
  Chars, chars, is_space_code, is_space, is_char, past, skip_spaces, and_then, past_spaces,
  open_comment, payload_of, tag, match_at, or_else, first_match, split_spaces, read_fields, ref_in,
  parse_marker, fields_of, render_marker, stripped, appended, embed_marker,
}
use atomic_plugins.Devonian.Reflect.Marker.Matching.{past-append, end_of, payload_of-append}
use atomic_plugins.Devonian.Reflect.Marker.Fields.{
  chars-text_from, IsSafe, Decodes, fields_of-IsInside, fields_of-EndsSolid, read_fields_of,
}

past_break :
    (l u x : Chars)
    → All (λ c. is_char c "\n" ≡ false) l
    → past l u ≡ none
    → past l (u ++ "\n" ∷ x) ≡ none
unfolding past
past_break [] u x h e = absurd (cc)
past_break (c ∷ l) [] x (h, hs) e = ap (λ b. if b then past l x else none) h
past_break (c ∷ l) (d ∷ u) x (h, hs) e = elim (Bool-cases (is_char c d)) [
  | inl f ↦ rw f (past_break l u x hs (sym (ap (λ b. if b then past l u else none) f) ∙ e))
  | inr f ↦ rw f refl
]

past-some : (l u v y : Chars) → past l u ≡ some v → past l (u ++ y) ≡ some (v ++ y)
unfolding past
past-some [] u v y e = ap (λ w. some (w ++ y)) (some-injective u v e)
past-some (c ∷ l) [] v y e = absurd (cc)
past-some (c ∷ l) (d ∷ u) v y e = elim (Bool-cases (is_char c d)) [
  | inl f ↦ rw f (past-some l u v y (sym (ap (λ b. if b then past l u else none) f) ∙ e))
  | inr f ↦ absurd (let g = sym (ap (λ b. if b then past l u else none) f) ∙ e in cc)
]

and_then_assoc :
    {A B C : Type 0} (o : Option A) (f : A → Option B) (g : B → Option C)
    → and_then o (λ a. and_then (f a) g) ≡ and_then (and_then o f) g
and_then_assoc none f g = refl
and_then_assoc (some a) f g = refl

module _ (namespace : String) where
  -- The namespace begins neither with a space nor with `<`, and has no line break.
  abbrev pub IsTight : Type 0
  IsTight =
      ((s : Chars) → skip_spaces (tag namespace ++ s) ≡ tag namespace ++ s)
      × ((s : Chars) → past (tag namespace) ("<" ∷ s) ≡ none)
      × All (λ c. is_char c "\n" ≡ false) (tag namespace)

  -- What follows `<!--`, spaces and the namespace's tag.
  abbrev pub opening : Chars → Option Chars
  opening s = and_then (past open_comment s) λ inside. past (tag namespace) (skip_spaces inside)

  -- Nowhere does the text open a marker of the namespace, be it closed or not.
  abbrev pub OpensNone : Chars → Type 0
  OpensNone [] = Unit
  OpensNone (c ∷ s) = (opening (c ∷ s) ≡ none) × OpensNone s

  skip_break :
      (inside x : Chars)
      → IsTight
      → past (tag namespace) (skip_spaces inside) ≡ none
      → past (tag namespace) (skip_spaces (inside ++ "\n" ∷ "\n" ∷ "<" ∷ x)) ≡ none
  unfolding skip_spaces is_space_code
  skip_break [] x tight e = tight.1 x
  skip_break (c ∷ inside) x tight e = elim (Bool-cases (is_space c)) [
    | inl f ↦
        subst
          (λ b.
            past (tag namespace) (
              if b
              then skip_spaces (inside ++ "\n" ∷ "\n" ∷ "<" ∷ x)
              else c ∷ (inside ++ "\n" ∷ "\n" ∷ "<" ∷ x))
            ≡ none)
          (sym f)
          (skip_break inside x tight (
            sym (ap (λ b. past (tag namespace) (if b then skip_spaces inside else c ∷ inside)) f)
            ∙ e))
    | inr f ↦
        subst
          (λ b.
            past (tag namespace) (
              if b
              then skip_spaces (inside ++ "\n" ∷ "\n" ∷ "<" ∷ x)
              else c ∷ (inside ++ "\n" ∷ "\n" ∷ "<" ∷ x))
            ≡ none)
          (sym f)
          (past_break (tag namespace) (c ∷ inside) ("\n" ∷ "<" ∷ x) tight.2 (
            sym (ap (λ b. past (tag namespace) (if b then skip_spaces inside else c ∷ inside)) f)
            ∙ e))
  ]

  opening_break :
      (s x : Chars) → IsTight → opening s ≡ none → opening (s ++ "\n" ∷ "\n" ∷ "<" ∷ x) ≡ none
  opening_break s x tight e =
      let y = "\n" ∷ "\n" ∷ "<" ∷ x in
      elim (Option-cases (past open_comment s)) [
        | inl f ↦
            ap (λ o. and_then o λ inside. past (tag namespace) (skip_spaces inside))
              (past_break open_comment s ("\n" ∷ "<" ∷ x) (refl, (refl, (refl, (refl, tt)))) f)
        | inr (inside, f) ↦
            ap (λ o. and_then o λ inside. past (tag namespace) (skip_spaces inside))
              (past-some open_comment s inside y f)
            ∙ skip_break inside x tight (
                sym (ap (λ o. and_then o λ inside. past (tag namespace) (skip_spaces inside)) f)
                ∙ e)
      ]

  match_elsewhere : (s : Chars) → opening s ≡ none → match_at namespace s ≡ none
  unfolding match_at
  match_elsewhere s e =
      and_then_assoc (past open_comment s) (λ inside. past (tag namespace) (skip_spaces inside))
        (λ tagged. and_then (past_spaces tagged) payload_of)
      ∙ ap (λ o. and_then o λ tagged. and_then (past_spaces tagged) payload_of) e

  first_match_front :
      (c : Char) (s : Chars) (m : Chars × Chars)
      → match_at namespace (c ∷ s) ≡ some m
      → first_match namespace (c ∷ s) ≡ some m
  unfolding first_match
  first_match_front c s m e = ap (λ o. or_else namespace o (first_match namespace s)) e

  first_match-append :
      (base x : Chars) (m : Chars × Chars)
      → IsTight
      → OpensNone base
      → first_match namespace ("<" ∷ x) ≡ some m
      → first_match namespace (base ++ "\n" ∷ "\n" ∷ "<" ∷ x) ≡ some m
  unfolding first_match past
  first_match-append [] x m tight h e =
      ap (λ o. or_else namespace o (first_match namespace ("\n" ∷ "<" ∷ x)))
        (match_elsewhere ("\n" ∷ "\n" ∷ "<" ∷ x) refl)
      ∙ ap (λ o. or_else namespace o (first_match namespace ("<" ∷ x)))
          (match_elsewhere ("\n" ∷ "<" ∷ x) refl)
      ∙ e
  first_match-append (c ∷ base) x m tight (h, hs) e =
      ap (λ o. or_else namespace o (first_match namespace (base ++ "\n" ∷ "\n" ∷ "<" ∷ x)))
        (match_elsewhere (c ∷ (base ++ "\n" ∷ "\n" ∷ "<" ∷ x)) (opening_break (c ∷ base) x tight h))
      ∙ first_match-append base x m tight hs e

module _ (encode : String → String) (namespace : String) where
  match_at-render_marker :
      (ref : OriginRef)
      → IsSafe encode ref
      → IsTight namespace
      → match_at namespace (render_marker encode namespace ref) ≡ some (fields_of encode ref, [])
  unfolding match_at render_marker past skip_spaces is_space_code chars fields_of
  match_at-render_marker ref safe tight =
      let rest = " " ∷ (fields_of encode ref ++ end_of []) in
      ap (λ i. and_then (past (tag namespace) i) λ tagged. and_then (past_spaces tagged) payload_of)
        (tight.0 rest)
      ∙ ap (λ o. and_then o λ tagged. and_then (past_spaces tagged) payload_of)
          (past-append (tag namespace) rest)
      ∙ payload_of-append (fields_of encode ref) [] (fields_of-IsInside encode ref safe)
          (fields_of-EndsSolid encode ref safe)

  first_match-render_marker :
      (ref : OriginRef)
      → IsSafe encode ref
      → IsTight namespace
      → first_match namespace (render_marker encode namespace ref) ≡ some (fields_of encode ref, [])
  unfolding render_marker chars
  first_match-render_marker ref safe tight =
      first_match_front namespace _ _ _ (match_at-render_marker ref safe tight)

  first_match-appended :
      (base : Chars) (ref : OriginRef)
      → OpensNone namespace base
      → IsSafe encode ref
      → IsTight namespace
      → first_match namespace (appended base (render_marker encode namespace ref))
        ≡ some (fields_of encode ref, [])
  unfolding chars render_marker
  first_match-appended [] ref h safe tight = first_match-render_marker ref safe tight
  first_match-appended (c ∷ base) ref h safe tight =
      first_match-append namespace (c ∷ base) _ _ tight h (first_match-render_marker ref safe tight)

  -- Where a body opens no marker of the namespace any more once its markers are removed, the marker
  -- that is embedded in it is parsed to what it was made of. Other comments and markers of other
  -- namespaces may stand in the body. The namespace begins neither with a space nor with `<` and has
  -- no line break; what the parts of the reference are encoded to is decoded again and has neither
  -- spaces nor `>`.
  pub parse_marker-embed_marker :
      (decode : String → Option String) (body : String) (ref : OriginRef)
      → OpensNone namespace (stripped namespace (chars body))
      → IsTight namespace
      → IsSafe encode ref
      → Decodes encode decode ref
      → parse_marker decode namespace (embed_marker encode namespace body ref) ≡ some ref
  unfolding parse_marker embed_marker
  parse_marker-embed_marker decode body ref h tight safe dec =
      ap
        (λ s.
          and_then (first_match namespace s)
            λ m. and_then (read_fields decode (split_spaces [] m.0) []) ref_in)
        (chars-text_from
          (appended (stripped namespace (chars body)) (render_marker encode namespace ref)))
      ∙ ap (λ o. and_then o λ m. and_then (read_fields decode (split_spaces [] m.0) []) ref_in)
          (first_match-appended (stripped namespace (chars body)) ref h safe tight)
      ∙ read_fields_of encode decode ref safe dec
