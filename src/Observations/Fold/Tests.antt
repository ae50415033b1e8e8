-- ===== src/Observations/Fold/Tests.antt =====
-- A mirror of two records on a clock with one digit.
use Prim.Native.Char.{code}
use mathlib.Core.List.Permᴰ.{swap}
use atomic_plugins.Prelude.{
  All, ℕ, ◌-◌, ◌≡◌, ◌≢◌, refl, String, true, false, Option, none, some, List, [], ◌∷◌, inl, eq_iff,
}
use atomic_plugins.Prelude.Grouping.{find, put}
use atomic_plugins.Prelude.JsText.{quote}
use atomic_plugins.Prelude.Sorting.{sort_by, InOrder}
use atomic_plugins.Observations.Coverage.Order.{IsOrdered}
use atomic_plugins.Observations.Json.{string, stable_stringify}
use atomic_plugins.Observations.Types.{
  Scope, range_scope, CanonicalRecord, by_list, Observation, Incremental, MirrorRecord, Mirror,
  empty_mirror, key_of, record_key,
}
use atomic_plugins.Observations.Diff.{includes, is_missing, diff_observation, is_empty}
use atomic_plugins.Observations.Fold.{
  fields_of, fold, apply_incremental, position_before, incremental_before,
}
use atomic_plugins.Observations.Fold.Sound.{fold-IsSound}
use atomic_plugins.Observations.Fold.Written.{Holds}
use atomic_plugins.Observations.Fold.Returned.{DifferentIds}
use atomic_plugins.Observations.Fold.Again.{diff_observation-fold, fold-diff_observation}
use atomic_plugins.Observations.Fold.Order.{HaveDifferentPositions, fold_reordered}
use atomic_plugins.Observations.Fold.Snapshot.{fold-append}

abbrev clock : String → ℕ
clock String.[] = 0
clock (String.◌∷◌ c s) = code c - 48

abbrev day : Scope
day = range_scope (record {
  collection = "c";
  params = ("user", "u") ∷ [];
  field_name = "start";
  from = "1";
  to = "5";
})

abbrev entry : String → String → String → CanonicalRecord
entry id start text = record {
  id = id;
  fields = ("user", string "u") ∷ ("start", string start) ∷ ("text", string text) ∷ [];
}

abbrev reading : String → List CanonicalRecord → Observation
reading at records = record {
  header = record {
    id = "o";
    device = "d";
    sent_at = at;
    received_at = at;
    kind = by_list;
    scope = day;
    mask = "user" ∷ "start" ∷ "text" ∷ [];
    complete = true;
    query = none;
  };
  records = records;
}

abbrev first_changes : Incremental
first_changes =
    diff_observation clock empty_mirror (reading "6" (entry "a" "2" "x" ∷ entry "b" "3" "y" ∷ []))

abbrev held : Mirror
held = fold clock empty_mirror (first_changes ∷ [])

-- A second reading: `a` has another text, `c` is new and `b` is not there.
abbrev second : Observation
second = reading "7" (entry "a" "2" "z" ∷ entry "c" "4" "w" ∷ [])

abbrev changes : Incremental
changes = diff_observation clock held second

absent_of_later : changes.absent ≡ "b" ∷ []
unfolding diff_observation fold find sort_by apply_incremental put record_key is_missing
    stable_stringify quote
absent_of_later = refl

abbrev absent_since : Option MirrorRecord → Option String
absent_since none = none
absent_since (some r) = r.absent_since

marked_b : absent_since (find "c/b" (fold clock held (changes ∷ [])).records) ≡ some "7"
unfolding diff_observation fold find sort_by apply_incremental put record_key is_missing
    stable_stringify quote
marked_b = refl

different : DifferentIds second.records
different = ((λ e. let same = (eq_iff "a" "c").1 e in cc, tt), (tt, tt))

was_received : second.header.received_at ≢ ""
was_received e = let same = (eq_iff "7" "").1 e in cc

diff_observation-fold_example :
    is_empty (diff_observation clock (fold clock held (changes ∷ [])) second) ≡ true
diff_observation-fold_example =
    diff_observation-fold clock held second
      (fold-IsSound clock empty_mirror (first_changes ∷ []) (tt, tt)) different was_received

unmasked : includes "note" second.header.mask ≡ false
unfolding includes
unmasked = refl

fold-diff_observation_example :
    All
      (λ r.
        (q : MirrorRecord) × (find (key_of second.header r) (fold clock held (changes ∷ [])).records
          ≡ some q)
        × Holds second.header.mask r q
        × (find "note" q.fields
            ≡ find "note" (fields_of (find (key_of second.header r) held.records))))
      second.records
fold-diff_observation_example = fold-diff_observation clock held second "note" different unmasked

no_segments : IsOrdered clock []
no_segments key = tt

in_order : All (InOrder (incremental_before clock) first_changes) (changes ∷ [])
unfolding diff_observation position_before
in_order = (refl, tt)

fold-append_example :
    fold clock (fold clock empty_mirror (first_changes ∷ [])) (changes ∷ [])
    ≡ fold clock empty_mirror (first_changes ∷ changes ∷ [])
fold-append_example =
    fold-append clock empty_mirror (first_changes ∷ []) (changes ∷ []) no_segments (in_order, tt)

times_differ : HaveDifferentPositions first_changes changes
unfolding diff_observation
times_differ = inl (λ e. let same = (eq_iff "6" "7").1 e in cc)

fold_reordered_example :
    fold clock empty_mirror (first_changes ∷ changes ∷ [])
    ≡ fold clock empty_mirror (changes ∷ first_changes ∷ [])
fold_reordered_example =
    fold_reordered clock empty_mirror (first_changes ∷ changes ∷ []) (changes ∷ first_changes ∷ [])
      (swap refl refl) ((times_differ, tt), (tt, tt))
