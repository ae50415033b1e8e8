-- ===== src/Willow/Mapping/Pruning.antt =====
-- The entries that integrations/willow-drop/mapping.ts keeps of a drop, and those of a store.
use atomic_plugins.Prelude.{
  ◌+◌, ◌-◌, ◌≤◌, ◌≡◌, inl, inr, sym, ap, ◌∙◌, Bool, not, List, [], ◌∷◌, length, keep, arith,
  Bool-cases,
}
use atomic_plugins.Prelude.Domination.{
  any_of, undominated, join_all, any_of-undominated, join_all-undominated,
}
use atomic_plugins.Willow.Drop.{DropEntry}
use atomic_plugins.Willow.Mapping.{overwrites, prune}
use atomic_plugins.Willow.Mapping.Order.{overwrites_irrefl, overwrites_trans}

-- A Willow store that takes entries one at a time: an entry that one of its own overwrites changes
-- nothing, any other takes the place of those that it overwrites.
abbrev pub store : List DropEntry → List DropEntry
store entries = join_all overwrites overwrites_irrefl overwrites_trans [] entries

length-keep : (test : DropEntry → Bool) (xs : List DropEntry) → length (keep test xs) ≤ length xs
length-keep test [] = omega arith
length-keep test (x ∷ xs) = elim (Bool-cases (test x)) [
  | inl e ↦ rw e (let rest = length-keep test xs in omega (arith, rest))
  | inr e ↦ rw e (let rest = length-keep test xs in omega (arith, rest))
]

-- Pruning keeps the entries that a store holds which takes the entries one at a time, in their order,
-- and counts the others.
pub store-prune :
    (entries : List DropEntry)
    → ((prune entries).kept ≡ store entries)
      × ((prune entries).pruned + length (store entries) ≡ length entries)
unfolding prune
store-prune entries =
    let same = join_all-undominated overwrites overwrites_irrefl overwrites_trans [] entries in
    let fewer =
      length-keep (λ entry. not (any_of (λ other. overwrites other entry) entries)) entries in
    (
      sym same,
      ap
            (λ l.
              (length entries
                - length (undominated overwrites overwrites_irrefl overwrites_trans entries))
              + length l)
            same
          ∙ omega (arith, fewer),
    )

-- An entry that some entry of the drop overwrites is overwritten by one that is kept.
pub prune-overwrites :
    (entries : List DropEntry) (entry : DropEntry)
    → any_of (λ other. overwrites other entry) (prune entries).kept
      ≡ any_of (λ other. overwrites other entry) entries
unfolding prune
prune-overwrites entries entry =
    any_of-undominated overwrites overwrites_irrefl overwrites_trans entry entries
