-- ===== src/Devonian/Reflect/Marker/Fields.antt =====
-- The payload of a marker of devonian/src/reflect/marker.ts: its parts and what is read of them.
use Prim.Native.Char.{Char}
use mathlib.Core.List.{append_assoc, append-nil}
use atomic_plugins.Prelude.{
  String, false, Option, some, [], ◌∷◌, ◌++◌, if◌then◌else◌, ◌≡◌, refl, sym, ap, ◌∙◌, All,
  All-append, All_weaken,
}
use atomic_plugins.Prelude.Grouping.{find, put}
use atomic_plugins.Devonian.Reflect.Copies.{OriginRef}
use atomic_plugins.Devonian.Reflect.Marker.{
  Chars, chars, text_from, is_space_code, is_space, split_spaces, split_sign, and_then, read_fields,
  ref_in, fields_of,
}
use atomic_plugins.Devonian.Reflect.Marker.Matching.{IsSolid, IsInside, EndsSolid}

pub text_from-chars : (s : String) → text_from (chars s) ≡ s
unfolding chars text_from
text_from-chars String.[] = refl
text_from-chars (String.◌∷◌ c s) = ap (String.◌∷◌ c) (text_from-chars s)

pub chars-text_from : (s : Chars) → chars (text_from s) ≡ s
unfolding chars text_from
chars-text_from [] = refl
chars-text_from (c ∷ s) = ap (λ t. c ∷ t) (chars-text_from s)

split_word :
    (cur w rest : Chars)
    → All IsSolid w
    → split_spaces cur (w ++ " " ∷ rest) ≡ (cur ++ w) ∷ split_spaces [] rest
unfolding split_spaces is_space_code
split_word cur [] rest h = ap (λ v. v ∷ split_spaces [] rest) (sym (append-nil cur))
split_word cur (c ∷ w) rest ((h, k), hs) =
    let next = w ++ " " ∷ rest in
    ap (λ b. if b then cur ∷ split_spaces [] next else split_spaces (cur ++ c ∷ []) next) h
    ∙ split_word (cur ++ c ∷ []) w rest hs
    ∙ ap (λ v. v ∷ split_spaces [] rest) (append_assoc cur (c ∷ []) w)

split_last : (cur w : Chars) → All IsSolid w → split_spaces cur w ≡ (cur ++ w) ∷ []
unfolding split_spaces
split_last cur [] h = ap (λ v. v ∷ []) (sym (append-nil cur))
split_last cur (c ∷ w) ((h, k), hs) =
    ap (λ b. if b then cur ∷ split_spaces [] w else split_spaces (cur ++ c ∷ []) w) h
    ∙ split_last (cur ++ c ∷ []) w hs
    ∙ ap (λ v. v ∷ []) (append_assoc cur (c ∷ []) w)

EndsSolid-append :
    (xs : Chars) (c : Char) (ys : Chars) → EndsSolid (c ∷ ys) → EndsSolid (xs ++ c ∷ ys)
EndsSolid-append [] c ys h = h
EndsSolid-append (x ∷ []) c ys h = h
EndsSolid-append (x ∷ y ∷ xs) c ys h = EndsSolid-append (y ∷ xs) c ys h

All-EndsSolid : (c : Char) (ys : Chars) → is_space c ≡ false → All IsSolid ys → EndsSolid (c ∷ ys)
All-EndsSolid c [] h hs = h
All-EndsSolid c (d ∷ ys) h ((k, l), hs) = All-EndsSolid d ys k hs

-- The texts that the parts are encoded to have neither spaces nor the sign that ends a comment.
abbrev pub IsSafe : (String → String) → OriginRef → Type 0
IsSafe encode ref =
    All IsSolid (chars (encode ref.system))
    × All IsSolid (chars (encode ref.kind))
    × All IsSolid (chars (encode ref.id))

-- The parts are decoded from what they are encoded to.
abbrev pub Decodes : (String → String) → (String → Option String) → OriginRef → Type 0
Decodes encode decode ref =
    (decode (encode ref.system) ≡ some ref.system)
    × (decode (encode ref.kind) ≡ some ref.kind)
    × (decode (encode ref.id) ≡ some ref.id)

module _ (encode : String → String) where
  inside : (v : String) → All IsSolid (chars (encode v)) → All IsInside (chars (encode v))
  inside v safe = All_weaken IsSolid IsInside (λ c h. h.1) (chars (encode v)) safe

  pub fields_of-IsInside :
      (ref : OriginRef) → IsSafe encode ref → All IsInside (fields_of encode ref)
  unfolding fields_of chars
  fields_of-IsInside ref safe =
      All-append IsInside (chars "system=") _
        (refl, (refl, (refl, (refl, (refl, (refl, (refl, tt)))))))
        (All-append IsInside (chars (encode ref.system)) _ (inside ref.system safe.0) (
          All-append IsInside (chars " kind=") _ (refl, (refl, (refl, (refl, (refl, (refl, tt))))))
            (All-append IsInside (chars (encode ref.kind)) _ (inside ref.kind safe.1) (
              All-append IsInside (chars " id=") _ (refl, (refl, (refl, (refl, tt))))
                (inside ref.id safe.2)))))

  pub fields_of-EndsSolid : (ref : OriginRef) → IsSafe encode ref → EndsSolid (fields_of encode ref)
  unfolding fields_of chars is_space_code
  fields_of-EndsSolid ref safe = EndsSolid-append ("=" ∷ chars (encode ref.system)) " " _ (
      EndsSolid-append ("=" ∷ chars (encode ref.kind)) " " _
        (All-EndsSolid "=" (chars (encode ref.id)) refl safe.2))

  parts_of :
      (ref : OriginRef)
      → IsSafe encode ref
      → split_spaces [] (fields_of encode ref)
        ≡ (chars "system=" ++ chars (encode ref.system))
          ∷ (chars "kind=" ++ chars (encode ref.kind))
          ∷ (chars "id=" ++ chars (encode ref.id))
          ∷ []
  unfolding fields_of chars split_spaces is_space_code
  parts_of ref safe =
      split_word (chars "system=") (chars (encode ref.system)) _ safe.0
      ∙ ap (λ t. (chars "system=" ++ chars (encode ref.system)) ∷ t)
          (split_word (chars "kind=") (chars (encode ref.kind)) _ safe.1
            ∙ ap (λ t. (chars "kind=" ++ chars (encode ref.kind)) ∷ t)
                (split_last (chars "id=") (chars (encode ref.id)) safe.2))

  pub read_fields_of :
      (decode : String → Option String) (ref : OriginRef)
      → IsSafe encode ref
      → Decodes encode decode ref
      → and_then (read_fields decode (split_spaces [] (fields_of encode ref)) []) ref_in ≡ some ref
  unfolding read_fields split_sign chars text_from put find
  read_fields_of decode ref safe dec =
      let read : (v : String)
          → decode (encode v) ≡ some v
          → decode (text_from (chars (encode v))) ≡ some v =
        λ v e. ap decode (text_from-chars (encode v)) ∙ e in
      ap (λ words. and_then (read_fields decode words []) ref_in) (parts_of ref safe)
      ∙ rw (read ref.system dec.0, read ref.kind dec.1, read ref.id dec.2) refl
