-- ===== src/Table.antt =====
-- src/uthash.h is a copy of the uthash library. The provider keeps its caches in a table of it, by
-- the macros HASH_FIND, HASH_ADD, HASH_DEL and HASH_ITER; this is what it uses of them, as uthash
-- documents it: keys are found, an added item goes to the end of the iteration, a deleted one leaves
-- it. A table is NULL when it is empty.
use cachercise.Base.{
  suc, ◌≡◌, refl, Option, none, some, List, [], ◌∷◌, ◌++◌, ◌==◌, if◌then◌else◌, arith, length,
  false,
}
use cachercise.Common.{CacheId}

module _ {A : Type 0} where
  unfoldable pub lookup : CacheId → List (CacheId × A) → Option A
  lookup k [] = none
  lookup k ((j, a) ∷ xs) = if j == k then some a else lookup k xs

  unfoldable pub erase : CacheId → List (CacheId × A) → List (CacheId × A)
  erase k [] = []
  erase k ((j, a) ∷ xs) = if j == k then xs else (j, a) ∷ erase k xs

pub record UtHash (T A : Type 0) : Type 0 where
  pub empty : T
  pub find : CacheId → T → Option A
  pub add : CacheId → A → T → T
  pub del : CacheId → T → T
  pub items : T → List (CacheId × A)
  pub items-empty : items empty ≡ []
  pub find-items : (k : CacheId) (t : T) → find k t ≡ lookup k (items t)
  -- HASH_ADD asks that the key is not in the table.
  pub items-add :
      (k : CacheId) (a : A) (t : T) → find k t ≡ none → items (add k a t) ≡ items t ++ (k, a) ∷ []
  pub items-del : (k : CacheId) (t : T) → items (del k t) ≡ erase k (items t)

-- A list of the items is such a table.
unfoldable pub list_table : (A : Type 0) → UtHash (List (CacheId × A)) A
list_table A = record {
  empty = [];
  find = lookup;
  add = λ k a t. t ++ (k, a) ∷ [];
  del = erase;
  items = λ t. t;
  items-empty = refl;
  find-items = λ k t. refl;
  items-add = λ k a t e. refl;
  items-del = λ k t. refl;
}

module _ {A : Type 0} where
  pub lookup-append :
      (k : CacheId) (xs ys : List (CacheId × A))
      → lookup k (xs ++ ys) ≡ elim (lookup k xs) [ none ↦ lookup k ys | some a ↦ some a ]
  unfolding lookup
  lookup-append k [] ys = refl
  lookup-append k ((j, a) ∷ xs) ys = ground (arith, lookup-append k xs ys)

  pub lookup-erase_ne :
      (k j : CacheId) (xs : List (CacheId × A))
      → (k == j) ≡ false
      → lookup j (erase k xs) ≡ lookup j xs
  unfolding lookup erase
  lookup-erase_ne k j [] n = refl
  lookup-erase_ne k j ((i, a) ∷ xs) n = ground (arith, lookup-erase_ne k j xs)

  pub length-erase :
      (k : CacheId) (a : A) (xs : List (CacheId × A))
      → lookup k xs ≡ some a
      → length xs ≡ suc (length (erase k xs))
  unfolding lookup erase
  length-erase k a [] e = cc
  length-erase k a ((j, b) ∷ xs) e = ground (arith, length-erase k a xs)
