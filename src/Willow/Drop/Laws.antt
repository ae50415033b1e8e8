-- ===== src/Willow/Drop/Laws.antt =====
-- The entries of a drop that integrations/willow-drop/drop.ts accepts.
use atomic_plugins.Prelude.{
  ℕ, zero, suc, ◌+◌, ◌%◌, ◌≤◌, ◌≡◌, refl, sym, ap, ◌∙◌, subst, Bool, true, false, Option, none,
  some, List, [], ◌∷◌, ◌++◌, length, length-append, ◌==◌, arith, All, All-append,
}
use atomic_plugins.Willow.Reader.{
  Bytes, M, Result, ok, err, throw, bytes_after_end, too_many_entries,
}
use atomic_plugins.Willow.Reader.Steps.{bind-steps, pass-steps, ok-inj, err-ne-ok}
use atomic_plugins.Willow.Encoding.{path_length, count_limit, length_limit}
use atomic_plugins.Willow.Encoding.Limits.{decode_relative_path-Limits}
use atomic_plugins.Willow.Drop.{
  Capability, communal_capability, owned_capability, DropEntry, max_entries, default_entry,
  is_communal, encode_entry, named, signed, receiver, verify_entry, decode_entry, read_entries,
  decode_drop,
}
use atomic_plugins.Willow.Drop.Payloads.{not-false, IsPayload, either, decode_payload-IsPayload}

module _ (verify : Bytes → Bytes → Bytes → Option Bool) where
  -- The capability includes the entry, and `key` is its receiver.
  abbrev pub Includes : Capability → Bytes → Bytes → Bytes → Type 0
  Includes communal_capability namespace subspace key =
      (is_communal namespace ≡ true) × (key ≡ subspace)
  Includes (owned_capability user_key authorisation) namespace subspace key =
      (is_communal namespace ≡ false)
      × (signed verify namespace (3 ∷ user_key) authorisation ≡ true)
      × (key ≡ user_key)

  -- A signature over the entry by the receiver of its capability, a payload that matches, and a path
  -- within the limits.
  abbrev pub Verified : DropEntry → Type 0
  Verified e =
      ((key : Bytes) × (signature : Bytes) × Includes e.capability e.namespace e.subspace key
        × (signed verify key (encode_entry e) signature ≡ true))
      × IsPayload e.payload e.payload_length e.payload_digest
      × (length e.path ≤ count_limit)
      × (path_length e.path ≤ length_limit)

  receiver-Includes :
      (c : Capability) (namespace subspace key bytes rest : Bytes)
      → receiver verify c namespace subspace (is_communal namespace) bytes ≡ ok (key, rest)
      → Includes c namespace subspace key
  unfolding receiver
  receiver-Includes communal_capability namespace subspace key bytes rest h =
      let (communal, returned) = pass-steps _ _ _ h in
      (not-false (is_communal namespace) communal, sym (ap (λ v. v.0) (ok-inj returned)))
  receiver-Includes (owned_capability user_key authorisation) namespace subspace key bytes rest h =
      let (owned, next) = pass-steps _ _ _ h in
      let (genesis, returned) = pass-steps _ _ _ next in
      (
        owned,
        not-false (signed verify namespace (3 ∷ user_key) authorisation) genesis,
        sym (ap (λ v. v.0) (ok-inj returned)),
      )

  verify_entry-Verified :
      (header : ℕ) (signature : Bytes) (e e1 : DropEntry) (bytes rest : Bytes)
      → e.communal ≡ is_communal e.namespace
      → length e.path ≤ count_limit
      → path_length e.path ≤ length_limit
      → verify_entry verify header signature e bytes ≡ ok (e1, rest)
      → Verified e1
  unfolding verify_entry encode_entry
  verify_entry-Verified header signature e e1 bytes rest c count total h =
      let (key, l1, receiving, h1) = bind-steps _ _ h in
      let (by_key, h2) = pass-steps _ _ _ h1 in
      let (payload, l2, paid, returned) = bind-steps _ _ h2 in
      let same : record e { payload = payload } ≡ e1 = ap (λ v. v.0) (ok-inj returned) in
      let included = receiver-Includes e.capability e.namespace e.subspace key bytes l1 (
        sym (ap (λ b. receiver verify e.capability e.namespace e.subspace b bytes) c)
        ∙ receiving) in
      subst Verified same (
        (key, signature, included, not-false (signed verify key (encode_entry e) signature) by_key),
        decode_payload-IsPayload (header % 4) e.payload_length e.payload_digest l1 l2 payload paid,
        count,
        total,
      )

  decode_entry-Verified :
      (header : ℕ) (previous e : DropEntry) (bytes rest : Bytes)
      → decode_entry verify header previous bytes ≡ ok (e, rest)
      → Verified e
  unfolding decode_entry
  decode_entry-Verified header previous e bytes rest h =
      let (headed, h1) = pass-steps _ _ _ h in
      let (namespace, l1, r1, h2) = bind-steps _ _ h1 in
      let (subspace, l2, r2, h3) = bind-steps _ _ h2 in
      let (path, l3, r3, h4) = bind-steps _ _ h3 in
      let (timestamp, l4, r4, h5) = bind-steps _ _ h4 in
      let (payload_length, l5, r5, h6) = bind-steps _ _ h5 in
      let (payload_digest, l6, r6, h7) = bind-steps _ _ h6 in
      let (token, l7, r7, h8) = bind-steps _ _ h7 in
      let (count, total, shared, used) = decode_relative_path-Limits previous.path path l2 l3 r3 in
      let fields : DropEntry = record {
        namespace = namespace;
        subspace = subspace;
        path = path;
        timestamp = timestamp;
        payload_length = payload_length;
        payload_digest = payload_digest;
        capability = token.0;
        communal = is_communal namespace;
        payload = none;
      } in
      verify_entry-Verified header token.1 fields e l7 rest refl count total h8

  named-ok :
      {A : Type 0} (index : ℕ) (m : M A) {bytes : Bytes} {v : A × Bytes}
      → named index m bytes ≡ ok v
      → m bytes ≡ ok v
  unfolding named
  named-ok {A = A} index m {bytes = bytes} {v = v} h = unnamed (m bytes) h
    where
      unnamed :
          (r : Result (A × Bytes))
          → elim r [
            | ok x ↦ ok x
            | err e ↦ err (record {
              problem = e.problem;
              entry = elim e.entry [ none ↦ some index | some i ↦ some i ];
            })
          ]
            ≡ ok v
          → r ≡ ok v
      unnamed (ok x) e = e
      unnamed (err x) e = absurd (err-ne-ok e)

  read_entries-Verified :
      (left : ℕ) (previous : DropEntry) (entries found : List DropEntry) (bytes rest : Bytes)
      → All Verified entries
      → read_entries verify left previous entries bytes ≡ ok (found, rest)
      → All Verified found × (length found ≤ length entries + left)
  unfolding read_entries
  read_entries-Verified zero previous entries found bytes rest all h =
      let (header, l1, r1, h1) = bind-steps _ _ h in
      either (header == 0) _ _ (All Verified found × (length found ≤ length entries + 0))
        (λ e.
          let same : entries ≡ found = ap (λ v. v.0) (ok-inj e) in
          (subst (All Verified) same all, (let sizes = ap length same in omega (arith, sizes))))
        (λ e.
          let unnamed : throw too_many_entries l1 ≡ ok (found, rest) =
            named-ok (length entries) (throw too_many_entries) {bytes = l1} e in
          absurd (err-ne-ok unnamed))
        h1
  read_entries-Verified (suc left) previous entries found bytes rest all h =
      let (header, l1, r1, h1) = bind-steps _ _ h in
      either (header == 0) _ _ (All Verified found × (length found ≤ length entries + suc left))
        (λ e.
          let same : entries ≡ found = ap (λ v. v.0) (ok-inj e) in
          (subst (All Verified) same all, (let sizes = ap length same in omega (arith, sizes))))
        (λ e.
          let (entry, l2, r2, h2) = bind-steps _ _ e in
          let verified =
            decode_entry-Verified header previous entry l1 l2
              (named-ok (length entries) (decode_entry verify header previous) {bytes = l1} r2) in
          let (each, count) =
            read_entries-Verified left entry (entries ++ entry ∷ []) found l2 rest
              (All-append Verified entries (entry ∷ []) all (verified, tt)) h2 in
          let sizes = length-append entries (entry ∷ []) in (each, omega (arith, count, sizes)))
        h1

  -- Every entry of a drop that is accepted carries a signature by the receiver of a capability that
  -- includes it, over the bytes of the entry, has a path within the limits and, if it has a payload, all of it
  -- with the digest it names; and there are at most 1000.
  pub decode_drop-Verified :
      (bytes : Bytes) (entries : List DropEntry)
      → decode_drop verify bytes ≡ ok entries
      → All Verified entries × (length entries ≤ max_entries)
  unfolding decode_drop
  decode_drop-Verified bytes entries h =
      ended (read_entries verify max_entries default_entry [] bytes) refl h
    where
      ended :
          (r : Result (List DropEntry × Bytes))
          → read_entries verify max_entries default_entry [] bytes ≡ r
          → elim r [
            | err e ↦ err e
            | ok (found, []) ↦ ok found
            | ok (found, b ∷ rest) ↦ err (record { problem = bytes_after_end; entry = none })
          ]
            ≡ ok entries
          → All Verified entries × (length entries ≤ max_entries)
      ended (err e) s t = absurd (err-ne-ok t)
      ended (ok (found, [])) s t =
          subst (λ l. All Verified l × (length l ≤ max_entries)) (ok-inj t)
            (read_entries-Verified max_entries default_entry [] found bytes [] tt s)
      ended (ok (found, b ∷ rest)) s t = absurd (err-ne-ok t)
