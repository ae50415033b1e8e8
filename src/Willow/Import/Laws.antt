-- ===== src/Willow/Import/Laws.antt =====
-- Rows of integrations/willow-drop/plugin.ts, written and read again.
use atomic_plugins.Prelude.{
  ℕ, suc, ◌+◌, ◌*◌, ◌/◌, ◌%◌, ◌<◌, ◌≤◌, ◌≡◌, refl, ap, ◌∙◌, true, false, ◌&&◌, none, some, List, [],
  ◌∷◌, length, length-append, get_or, ◌==◌, if◌then◌else◌, arith, All,
}
use atomic_plugins.Prelude.Decimal.{
  decimal_text, all_digits, value_from, value_from-decimal_text, all_digits-decimal_text,
  length-decimal_text,
}
use atomic_plugins.Willow.Reader.{Bytes, IsByte}
use atomic_plugins.Willow.Drop.{DropEntry, every_at, equal}
use atomic_plugins.Willow.Text.{Text, index_of}
use atomic_plugins.Willow.Mapping.{hex_digits, hex_byte, hex, newer, prune}
use atomic_plugins.Willow.Mapping.Versions.{newer_irrefl}
use atomic_plugins.Willow.Rows.{RowValues, row_values, source_id}
use atomic_plugins.Willow.Upload.Signs.{every_below, every_below-true}
use atomic_plugins.Willow.Import.{
  StoredRow, is_number, is_some, all_hex, is_digest, hex_value, hex_pairs, stored_version, row_in,
  is_older, ImportRecord, Imported, import_entry, import_entries, import_drop,
}

is_number-decimal_text : (n : ℕ) → is_number (decimal_text n) ≡ true
unfolding is_number
is_number-decimal_text n =
    nonempty (decimal_text n) (all_digits-decimal_text n) (length-decimal_text n)
  where
    nonempty : (t : Text) → all_digits t ≡ true → 1 ≤ length t → is_number t ≡ true
    nonempty [] h k = absurd (omega arith)
    nonempty (c ∷ t) h k = h

hex_digit :
    (k : ℕ)
    → k < 16
    → (is_some (index_of (get_or hex_digits k 0) hex_digits) ≡ true)
      × (hex_value (index_of (get_or hex_digits k 0) hex_digits) ≡ k)
unfolding every_below index_of
hex_digit k h =
    let each : (hex_value (index_of (get_or hex_digits k 0) hex_digits) == k) ≡ true =
      every_below-true (λ i. hex_value (index_of (get_or hex_digits i 0) hex_digits) == i) 16 k refl
        h in
    (
      every_below-true (λ i. is_some (index_of (get_or hex_digits i 0) hex_digits)) 16 k refl h,
      ground arith,
    )

all_hex-hex : (bytes : Bytes) → All IsByte bytes → all_hex (hex bytes) ≡ true
unfolding hex hex_byte all_hex
all_hex-hex [] h = refl
all_hex-hex (b ∷ bytes) (hb, h) =
    let (high, same_high) = hex_digit (b / 16) (omega arith) in
    let (low, same_low) = hex_digit (b % 16) (omega arith) in rw (high, low) (all_hex-hex bytes h)

hex_pairs-hex : (bytes : Bytes) → All IsByte bytes → hex_pairs (hex bytes) ≡ bytes
unfolding hex hex_byte hex_pairs
hex_pairs-hex [] h = refl
hex_pairs-hex (b ∷ bytes) (hb, h) =
    let (high, same_high) = hex_digit (b / 16) (omega arith) in
    let (low, same_low) = hex_digit (b % 16) (omega arith) in
    ap
      (λ x.
        (x * 16 + hex_value (index_of (get_or hex_digits (b % 16) 0) hex_digits))
        ∷ hex_pairs (hex bytes))
      same_high
    ∙ ap (λ x. (b / 16 * 16 + x) ∷ hex_pairs (hex bytes)) same_low
    ∙ ap (λ x. x ∷ hex_pairs (hex bytes)) (omega arith)
    ∙ ap (λ l. b ∷ l) (hex_pairs-hex bytes h)

length-hex : (bytes : Bytes) → length (hex bytes) ≡ 2 * length bytes
unfolding hex hex_byte
length-hex [] = refl
length-hex (b ∷ bytes) = let rest = length-hex bytes in omega (arith, rest)

-- The row that the host makes of the values of a record.
abbrev pub stored_row : Text → RowValues → StoredRow
stored_row table v = record {
  parent = table;
  timestamp = some v.willow_timestamp;
  digest = some v.willow_payload_digest;
  size = some v.willow_payload_length;
}

-- A digest of 32 bytes.
abbrev pub IsSized : DropEntry → Type 0
IsSized e = (length e.payload_digest ≡ 32) × All IsByte e.payload_digest

is_digest-hex : (e : DropEntry) → IsSized e → is_digest (hex e.payload_digest) ≡ true
unfolding is_digest
is_digest-hex e (size, each) =
    let sizes = length-hex e.payload_digest in
    let whole : (length (hex e.payload_digest) == 64) ≡ true = ground (arith, size, sizes) in
    rw whole (all_hex-hex e.payload_digest each)

stored_version-row_values :
    (iso : ℕ → Text) (table : Text) (e : DropEntry)
    → IsSized e
    → stored_version (stored_row table (row_values iso e)) e ≡ some e
unfolding stored_version row_values
stored_version-row_values iso table e sized =
    ap
      (λ b.
        if b && (is_number (decimal_text e.payload_length) && is_digest (hex e.payload_digest))
        then some (record e {
          timestamp = value_from 0 (decimal_text e.timestamp);
          payload_digest = hex_pairs (hex e.payload_digest);
          payload_length = value_from 0 (decimal_text e.payload_length);
        })
        else none)
      (is_number-decimal_text e.timestamp)
    ∙ ap
        (λ b.
          if b && is_digest (hex e.payload_digest)
          then some (record e {
            timestamp = value_from 0 (decimal_text e.timestamp);
            payload_digest = hex_pairs (hex e.payload_digest);
            payload_length = value_from 0 (decimal_text e.payload_length);
          })
          else none)
        (is_number-decimal_text e.payload_length)
    ∙ ap
        (λ b.
          if b
          then some (record e {
            timestamp = value_from 0 (decimal_text e.timestamp);
            payload_digest = hex_pairs (hex e.payload_digest);
            payload_length = value_from 0 (decimal_text e.payload_length);
          })
          else none)
        (is_digest-hex e sized)
    ∙ ap
        (λ n. some (record e {
          timestamp = n;
          payload_digest = hex_pairs (hex e.payload_digest);
          payload_length = value_from 0 (decimal_text e.payload_length);
        }))
        (value_from-decimal_text e.timestamp)
    ∙ ap
        (λ d. some (record e {
          payload_digest = d;
          payload_length = value_from 0 (decimal_text e.payload_length);
        }))
        (hex_pairs-hex e.payload_digest sized.1)
    ∙ ap (λ n. some (record e { payload_length = n })) (value_from-decimal_text e.payload_length)

every_at_refl : (a : Text) → every_at a a ≡ true
unfolding every_at
every_at_refl [] = refl
every_at_refl (x ∷ a) = let e : (x == x) ≡ true = ground arith in rw e (every_at_refl a)

equal_refl : (a : Text) → equal a a ≡ true
unfolding equal every_at
equal_refl a = let size : (length a == length a) ≡ true = ground arith in rw size (every_at_refl a)

row_in-stored_row :
    (table : Text) (v : RowValues)
    → row_in table (stored_row table v ∷ []) ≡ some (stored_row table v)
unfolding row_in
row_in-stored_row table v =
    ap (λ b. if b then some (stored_row table v) else none) (equal_refl table)

is_older-row_values :
    (iso : ℕ → Text) (table : Text) (e : DropEntry)
    → IsSized e
    → is_older table (stored_row table (row_values iso e) ∷ []) e ≡ false
unfolding is_older
is_older-row_values iso table e sized =
    ap
      (λ o. elim o [
        | none ↦ false
        | some row ↦ elim (stored_version row e) [ none ↦ false | some version ↦ newer version e ]
      ])
      (row_in-stored_row table (row_values iso e))
    ∙ ap (λ o. elim o [ none ↦ false | some version ↦ newer version e ])
        (stored_version-row_values iso table e sized)
    ∙ newer_irrefl e

module _ (iso : ℕ → Text) (rows : Text → List StoredRow) (table : Text) where
  -- The entry has a digest of 32 bytes, and the table holds its row.
  abbrev pub IsHeld : DropEntry → Type 0
  IsHeld e = IsSized e × (rows (source_id e) ≡ stored_row table (row_values iso e) ∷ [])

  import_entry-IsHeld :
      (e : DropEntry) (i : Imported)
      → IsHeld e
      → ((import_entry iso rows table e i).older ≡ i.older)
        × (length (import_entry iso rows table e i).records ≡ suc (length i.records))
  unfolding import_entry
  import_entry-IsHeld e i (sized, held) =
      let fresh : is_older table (rows (source_id e)) e ≡ false =
        ap (λ l. is_older table l e) held ∙ is_older-row_values iso table e sized in
      let written : ImportRecord = record {
        identity = source_id e;
        local = length i.records;
        parent = table;
        values = row_values iso e;
      } in
      let size = length-append i.records (written ∷ []) in rw fresh (refl, size ∙ omega arith)

  import_entries-IsHeld :
      (entries : List DropEntry) (i : Imported)
      → All IsHeld entries
      → ((import_entries iso rows table entries i).older ≡ i.older)
        × (length (import_entries iso rows table entries i).records
            ≡ length i.records + length entries)
  unfolding import_entries
  import_entries-IsHeld [] i h = (refl, omega arith)
  import_entries-IsHeld (e ∷ entries) i (p, h) =
      let (older, size) = import_entry-IsHeld e i p in
      let (all_older, all) = import_entries-IsHeld entries (import_entry iso rows table e i) h in
      (all_older ∙ older, omega (arith, size, all))

  -- Where the table holds the rows of the kept entries of a drop, whose digests have 32 bytes, importing the
  -- drop again finds none of them older than its row and writes a record for each.
  pub import_drop-IsHeld :
      (decoded : List DropEntry)
      → All IsHeld (prune decoded).kept
      → ((import_drop iso rows table decoded).older ≡ 0)
        × (length (import_drop iso rows table decoded).records ≡ length (prune decoded).kept)
  unfolding import_drop
  import_drop-IsHeld decoded h =
      let (older, size) =
        import_entries-IsHeld (prune decoded).kept
          (record { records = []; older = 0; unstored = 0 }) h in
      (older, omega (arith, size))
