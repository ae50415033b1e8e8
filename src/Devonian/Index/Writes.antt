-- ===== src/Devonian/Index/Writes.antt =====
-- What writing to the index of devonian/src/DevonianIndex.ts and to a thing's entry leaves to read.
use atomic_plugins.Prelude.{
  ℕ, ◌<◌, ◌≡◌, ◌≢◌, refl, sym, ap, ◌∙◌, subst, ◌⊎◌, inl, inr, String, str_eq, eq_iff, Option, none,
  some, List, [], ◌∷◌, Bool-cases, if◌then◌else◌, arith,
}
use atomic_plugins.Prelude.Grouping.{find, put, find-put_self, find-put_ne}
use atomic_plugins.Devonian.Index.{
  LocalId, key_of, IdentifierMap, PlatformIndex, key_in, index_at, write, index_all, or_empty,
}

some_path {ℓ} : {A : Type ℓ} {a b : A} → some a ≡ some b → a ≡ b
some_path h = cc

pub index_at-write_self :
    (i : ℕ) (p k : String) (index : PlatformIndex) → index_at (write i p k index) p k ≡ some i
unfolding index_at write
index_at-write_self i p k index =
    ap (key_in k) (find-put_self p (λ table. put k (λ _. i) (or_empty table)) index)
    ∙ find-put_self k (λ _. i) (or_empty (find p index))

find-or_empty : (k : String) (o : Option (List (String × ℕ))) → find k (or_empty o) ≡ key_in k o
unfolding find
find-or_empty k none = refl
find-or_empty k (some table) = refl

index_at-write_other :
    (i : ℕ) (p k l : String) (index : PlatformIndex)
    → k ≢ l
    → index_at (write i p k index) p l ≡ index_at index p l
unfolding index_at write
index_at-write_other i p k l index n =
    ap (key_in l) (find-put_self p (λ table. put k (λ _. i) (or_empty table)) index)
    ∙ find-put_ne l k (λ _. i) (or_empty (find p index)) n
    ∙ find-or_empty l (find p index)

index_at-write_ne :
    (i : ℕ) (p k q l : String) (index : PlatformIndex)
    → p ≢ q
    → index_at (write i p k index) q l ≡ index_at index q l
unfolding index_at write
index_at-write_ne i p k q l index n =
    ap (key_in l) (find-put_ne q p (λ table. put k (λ _. i) (or_empty table)) index n)

-- A write changes one place only.
pub index_at-write :
    (i : ℕ) (p k q l : String) (index : PlatformIndex)
    → (index_at (write i p k index) q l ≡ some i)
      ⊎ (index_at (write i p k index) q l ≡ index_at index q l)
index_at-write i p k q l index = elim (Bool-cases (str_eq p q)) [
  | inr other ↦ inr (index_at-write_ne i p k q l index (λ e. ground (arith, eq_iff p q)))
  | inl same ↦
      let is = (eq_iff p q).0 same in
      elim (Bool-cases (str_eq k l)) [
        | inl here ↦ inl (
            subst (λ r. index_at (write i p k index) r l ≡ some i) is
              (subst (λ m. index_at (write i p k index) p m ≡ some i) ((eq_iff k l).0 here)
                (index_at-write_self i p k index)))
        | inr there ↦ inr (
            subst (λ r. index_at (write i p k index) r l ≡ index_at index r l) is
              (index_at-write_other i p k l index (λ e. ground (arith, eq_iff k l))))
      ]
]

stays :
    (i : ℕ) (p k q l : String) (index : PlatformIndex)
    → index_at index q l ≡ some i
    → index_at (write i p k index) q l ≡ some i
stays i p k q l index h = elim (index_at-write i p k q l index) [ inl e ↦ e | inr e ↦ e ∙ h ]

stays_all :
    (i : ℕ) (entry : IdentifierMap) (q l : String) (index : PlatformIndex)
    → index_at index q l ≡ some i
    → index_at (index_all i entry index) q l ≡ some i
unfolding index_all
stays_all i [] q l index h = h
stays_all i ((p, id) ∷ entry) q l index h =
    stays_all i entry q l (write i p (key_of id) index) (stays i p (key_of id) q l index h)

-- After `ensureIndexed` every identifier of the thing leads to it.
pub index_at-index_all :
    (i : ℕ) (entry : IdentifierMap) (q : String) (id : LocalId) (index : PlatformIndex)
    → find q entry ≡ some id
    → index_at (index_all i entry index) q (key_of id) ≡ some i
unfolding index_all find
index_at-index_all i [] q id index h = cc
index_at-index_all i ((p, jd) ∷ entry) q id index h = elim (Bool-cases (str_eq p q)) [
  | inr e ↦
      index_at-index_all i entry q id (write i p (key_of jd) index)
        (ap (λ b. if b then some jd else find q entry) (sym e) ∙ h)
  | inl e ↦
      let same = some_path (ap (λ b. if b then some jd else find q entry) (sym e) ∙ h) in
      stays_all i entry q (key_of id) (write i p (key_of jd) index) (
        subst (λ r. index_at (write i p (key_of jd) index) r (key_of id) ≡ some i)
          ((eq_iff p q).0 e)
          (subst (λ x. index_at (write i p (key_of jd) index) p (key_of x) ≡ some i) same
            (index_at-write_self i p (key_of jd) index)))
]

-- Every place in the index is below the bound.
abbrev pub Below : ℕ → PlatformIndex → Type 0
Below n index = (p k : String) (j : ℕ) → index_at index p k ≡ some j → j < n

pub write-Below :
    (n i : ℕ) (p k : String) (index : PlatformIndex)
    → i < n
    → Below n index
    → Below n (write i p k index)
write-Below n i p k index h v q l j e = elim (index_at-write i p k q l index) [
  | inl own ↦ subst (λ m. m < n) (some_path (sym own ∙ e)) h
  | inr old ↦ v q l j (sym old ∙ e)
]

pub index_all-Below :
    (n i : ℕ) (entry : IdentifierMap) (index : PlatformIndex)
    → i < n
    → Below n index
    → Below n (index_all i entry index)
unfolding index_all
index_all-Below n i [] index h v = v
index_all-Below n i ((p, id) ∷ entry) index h v =
    index_all-Below n i entry (write i p (key_of id) index) h
      (write-Below n i p (key_of id) index h v)
