-- ===== src/Willow/Upload/Laws.antt =====
-- The reading that integrations/willow-drop/upload.ts returns.
use atomic_plugins.Prelude.{
  ◌≡◌, ◌⊎◌, inl, inr, refl, sym, ap, ◌∙◌, subst, true, ◌||◌, some, List, [], ◌∷◌, ◌++◌,
  if◌then◌else◌, All, All_weaken, Bool-cases,
}
use atomic_plugins.Prelude.Domination.{any_of}
use atomic_plugins.Willow.Reader.{Bytes, IsByte, Result, ok, err, DropError}
use atomic_plugins.Willow.Reader.Steps.{err-ne-ok, ok-inj}
use atomic_plugins.Willow.Drop.{equal}
use atomic_plugins.Willow.Drop.Payloads.{equal-same}
use atomic_plugins.Willow.Text.{Text, utf8_text, utf8_bytes}
use atomic_plugins.Willow.Text.Utf8.{utf8_bytes-utf8_text}
use atomic_plugins.Willow.Upload.{
  Candidate, utf_8, Reading, Thrown, returned, thrown, candidates, found, add_found, distinct,
  conclude_upload, read_upload,
}

module _ {A : Type 0} where
  -- Some reading of the list has these bytes.
  abbrev Shares : Bytes → List (Reading A) → Type 0
  Shares b [] = ⊥
  Shares b (r ∷ rs) = (r.bytes ≡ b) ⊎ Shares b rs

  Shares-last :
      (b : Bytes) (rs : List (Reading A)) (r : Reading A)
      → Shares b (rs ++ r ∷ [])
      → Shares b rs ⊎ (r.bytes ≡ b)
  Shares-last b [] r (inl e) = inr e
  Shares-last b [] r (inr h) = elim h [ ]
  Shares-last b (x ∷ rs) r (inl e) = inl (inl e)
  Shares-last b (x ∷ rs) r (inr h) = elim (Shares-last b rs r h) [
    | inl i ↦ inl (inr i)
    | inr e ↦ inr e
  ]

  any_of-Shares :
      (b : Bytes) (rs : List (Reading A))
      → any_of (λ other. equal other.bytes b) rs ≡ true
      → Shares b rs
  any_of-Shares b [] h = cc
  any_of-Shares b (r ∷ rs) h = elim (Bool-cases (equal r.bytes b)) [
    | inl e ↦ inl (equal-same r.bytes b e)
    | inr e ↦
        inr
          (any_of-Shares b rs (sym (ap (λ t. t || any_of (λ other. equal other.bytes b) rs) e) ∙ h))
  ]

module _ {A : Type 0} (parse : Bytes → Result A) where
  -- A reading that was found has a distinct one with its bytes, or one before.
  distinct-Shares :
      (seen rs : List (Reading A))
      → All (λ r. Shares r.bytes seen ⊎ Shares r.bytes (distinct parse seen rs)) rs
  unfolding distinct
  distinct-Shares seen [] = tt
  distinct-Shares seen (r ∷ rs) =
      elim (Bool-cases (any_of (λ other. equal other.bytes r.bytes) seen)) [
        | inl e ↦
            let before = any_of-Shares r.bytes seen e in
            subst (λ l. All (λ x. Shares x.bytes seen ⊎ Shares x.bytes l) (r ∷ rs))
              (sym (
                ap
                  (λ t.
                    if t
                    then distinct parse (seen ++ r ∷ []) rs
                    else r ∷ distinct parse (seen ++ r ∷ []) rs)
                  e))
              (
                inl before,
                All_weaken
                    (λ x.
                      Shares x.bytes (seen ++ r ∷ [])
                      ⊎ Shares x.bytes (distinct parse (seen ++ r ∷ []) rs))
                    (λ x. Shares x.bytes seen ⊎ Shares x.bytes (distinct parse (seen ++ r ∷ []) rs))
                    (λ x h. skipped x before h) rs (distinct-Shares (seen ++ r ∷ []) rs),
              )
        | inr e ↦
            subst (λ l. All (λ x. Shares x.bytes seen ⊎ Shares x.bytes l) (r ∷ rs))
              (sym (
                ap
                  (λ t.
                    if t
                    then distinct parse (seen ++ r ∷ []) rs
                    else r ∷ distinct parse (seen ++ r ∷ []) rs)
                  e))
              (
                inr (inl refl),
                All_weaken
                    (λ x.
                      Shares x.bytes (seen ++ r ∷ [])
                      ⊎ Shares x.bytes (distinct parse (seen ++ r ∷ []) rs))
                    (λ x.
                      Shares x.bytes seen ⊎ Shares x.bytes (r ∷ distinct parse (seen ++ r ∷ []) rs))
                    (λ x h. kept x h) rs (distinct-Shares (seen ++ r ∷ []) rs),
              )
      ]
    where
      skipped :
          (x : Reading A)
          → Shares r.bytes seen
          → Shares x.bytes (seen ++ r ∷ []) ⊎ Shares x.bytes (distinct parse (seen ++ r ∷ []) rs)
          → Shares x.bytes seen ⊎ Shares x.bytes (distinct parse (seen ++ r ∷ []) rs)
      skipped x before (inr h) = inr h
      skipped x before (inl h) = elim (Shares-last x.bytes seen r h) [
        | inl i ↦ inl i
        | inr e ↦ inl (subst (λ b. Shares b seen) e before)
      ]

      kept :
          (x : Reading A)
          → Shares x.bytes (seen ++ r ∷ []) ⊎ Shares x.bytes (distinct parse (seen ++ r ∷ []) rs)
          → Shares x.bytes seen ⊎ Shares x.bytes (r ∷ distinct parse (seen ++ r ∷ []) rs)
      kept x (inr h) = inr (inr h)
      kept x (inl h) = elim (Shares-last x.bytes seen r h) [ inl i ↦ inl i | inr e ↦ inr (inl e) ]

  abbrev pub IsParsed : Reading A → Type 0
  IsParsed r = parse r.bytes ≡ ok r.result

  -- What the loop over the candidates adds for one.
  added-IsParsed :
      (c : Candidate) (r : Result A) (rest : List (Reading A))
      → parse c.bytes ≡ r
      → All IsParsed rest
      → All IsParsed (add_found parse c r rest)
  added-IsParsed c (ok x) rest e h = (e, h)
  added-IsParsed c (err p) rest e h = h

  found-IsParsed : (cs : List Candidate) → All IsParsed (found parse cs)
  unfolding found
  found-IsParsed [] = tt
  found-IsParsed (c ∷ cs) =
      added-IsParsed c (parse c.bytes) (found parse cs) refl (found-IsParsed cs)

  distinct-IsParsed :
      (seen rs : List (Reading A)) → All IsParsed rs → All IsParsed (distinct parse seen rs)
  unfolding distinct
  distinct-IsParsed seen [] h = tt
  distinct-IsParsed seen (r ∷ rs) (p, h) =
      elim (Bool-cases (any_of (λ other. equal other.bytes r.bytes) seen)) [
        | inl e ↦
            subst (All IsParsed)
              (sym (
                ap
                  (λ t.
                    if t
                    then distinct parse (seen ++ r ∷ []) rs
                    else r ∷ distinct parse (seen ++ r ∷ []) rs)
                  e))
              (distinct-IsParsed (seen ++ r ∷ []) rs h)
        | inr e ↦
            subst (All IsParsed)
              (sym (
                ap
                  (λ t.
                    if t
                    then distinct parse (seen ++ r ∷ []) rs
                    else r ∷ distinct parse (seen ++ r ∷ []) rs)
                  e))
              (p, distinct-IsParsed (seen ++ r ∷ []) rs h)
      ]

  -- A candidate that is refused, or has the bytes `b`.
  abbrev pub Settled : Bytes → Candidate → Type 0
  Settled b c = ((e : DropError) × (parse c.bytes ≡ err e)) ⊎ (c.bytes ≡ b)

  first-Settled :
      (b : Bytes) (c : Candidate) (r : Result A) (rest : List (Reading A))
      → parse c.bytes ≡ r
      → All (λ x. x.bytes ≡ b) (add_found parse c r rest)
      → Settled b c × All (λ x. x.bytes ≡ b) rest
  first-Settled b c (ok x) rest e (p, h) = (inr p, h)
  first-Settled b c (err p) rest e h = (inl (p, e), h)

  settled :
      (b : Bytes) (cs : List Candidate)
      → All (λ r. r.bytes ≡ b) (found parse cs)
      → All (Settled b) cs
  unfolding found
  settled b [] h = tt
  settled b (c ∷ cs) h =
      let (first, others) = first-Settled b c (parse c.bytes) (found parse cs) refl h in
      (first, settled b cs others)

  concluded :
      (problem : Thrown) (rs : List (Reading A)) (r : Reading A)
      → conclude_upload parse problem rs ≡ returned r
      → rs ≡ r ∷ []
  unfolding conclude_upload
  concluded problem [] r h = cc
  concluded problem (x ∷ []) r h = ap (λ o. elim o [ returned y ↦ y ∷ [] | thrown t ↦ x ∷ [] ]) h
  concluded problem (x ∷ y ∷ rs) r h = cc

  shared_with :
      (r : Reading A) (rs : List (Reading A))
      → All (λ x. Shares {A = A} x.bytes [] ⊎ Shares x.bytes (r ∷ [])) rs
      → All (λ x. x.bytes ≡ r.bytes) rs
  shared_with r rs h =
      All_weaken (λ x. Shares {A = A} x.bytes [] ⊎ Shares x.bytes (r ∷ [])) (λ x. x.bytes ≡ r.bytes)
        (λ x s. same_bytes x s) rs h
    where
      same_bytes :
          (x : Reading A) → Shares {A = A} x.bytes [] ⊎ Shares x.bytes (r ∷ []) → x.bytes ≡ r.bytes
      same_bytes x (inl s) = elim s [ ]
      same_bytes x (inr (inl e)) = sym e
      same_bytes x (inr (inr s)) = elim s [ ]

  -- The reading that is returned is one that `parse` accepts with the result given, and any way to read the text
  -- is refused by `parse` or has the same bytes.
  pub read_upload-Settled :
      (text : Text) (r : Reading A)
      → read_upload parse text ≡ returned r
      → IsParsed r × All (Settled r.bytes) (candidates text)
  unfolding read_upload
  read_upload-Settled text r h =
      let cs = candidates text in
      let one = concluded _ (distinct parse [] (found parse cs)) r h in
      let (parsed, none_other) =
        subst (All IsParsed) one (distinct-IsParsed [] (found parse cs) (found-IsParsed cs)) in
      (
        parsed,
        settled r.bytes cs (
            shared_with r (found parse cs) (
              subst (λ l. All (λ x. Shares {A = A} x.bytes [] ⊎ Shares x.bytes l) (found parse cs))
                one (distinct-Shares [] (found parse cs)))),
      )

  -- A file whose bytes are well-formed UTF-8, which the host hands over as the text they hold, is read as those
  -- bytes if `parse` accepts them and a reading is returned.
  pub read_upload-utf8 :
      (bytes : Bytes) (text : Text) (x : A) (r : Reading A)
      → All IsByte bytes
      → utf8_text bytes ≡ some text
      → parse bytes ≡ ok x
      → read_upload parse text ≡ returned r
      → (r.bytes ≡ bytes) × (r.result ≡ x)
  unfolding candidates
  read_upload-utf8 bytes text x r each held accepted h =
      let (parsed, (first, others)) = read_upload-Settled text r h in
      let written = utf8_bytes-utf8_text bytes text each held in
      let same : r.bytes ≡ bytes = first_bytes written first in
      (same, ok-inj (sym parsed ∙ ap parse same ∙ accepted))
    where
      first_bytes :
          (utf8_bytes text ≡ bytes)
          → Settled r.bytes (record { encoding = utf_8; bytes = utf8_bytes text })
          → r.bytes ≡ bytes
      first_bytes written (inl (e, refused)) =
          absurd (err-ne-ok (sym refused ∙ ap parse written ∙ accepted))
      first_bytes written (inr e) = sym e ∙ written
