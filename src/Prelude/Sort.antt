-- ===== src/Prelude/Sort.antt =====
-- `Array.prototype.sort` with a comparator, which the language specifies to be stable: a stable
-- insertion sort by the test `before`, "the comparator puts the first strictly in front".
use worldsimulator.Prelude.Tests.{if◌then◌else◌, Bool-cases}
use worldsimulator.Prelude.Lists.{length, All}
use Prim.Native.Nat.{ℕ, suc, ◌+◌}
use mathlib.Core.Path.{◌≡◌, refl, ap, ◌∙◌}
use mathlib.Core.Logic.{inl, inr}
use mathlib.Core.Bool.{Bool, true, false}
use mathlib.Core.List.{List, [], ◌∷◌, Perm}
use mathlib.Core.List.Perm
use native.Mathlib.Omega.{arith}

module _ {ℓ} {A : Type ℓ} (before : A → A → Bool) where
  -- The last place among those that `x` may take, counting from the right: `x` stands in front of
  -- what is not strictly before it.
  unfoldable pub insert : A → List A → List A
  insert x [] = x ∷ []
  insert x (y ∷ ys) = let rest = insert x ys in if before y x then y ∷ rest else x ∷ y ∷ ys

  unfoldable pub sort : List A → List A
  unfolding insert
  sort [] = []
  sort (x ∷ xs) = insert x (sort xs)

  pub insert-Perm : (x : A) (ys : List A) → Perm (insert x ys) (x ∷ ys)
  unfolding insert
  insert-Perm x [] = Perm.refl _
  insert-Perm x (y ∷ ys) = elim (Bool-cases (before y x)) [
    | inl behind ↦ rw behind (Perm.trans (Perm.cons y (insert-Perm x ys)) (Perm.swap _ _ _))
    | inr front ↦ rw front (Perm.refl _)
  ]

  pub sort-Perm : (xs : List A) → Perm (sort xs) xs
  unfolding sort
  sort-Perm [] = Perm.refl _
  sort-Perm (x ∷ xs) = Perm.trans (insert-Perm x (sort xs)) (Perm.cons x (sort-Perm xs))

  pub length-insert : (x : A) (ys : List A) → length (insert x ys) ≡ suc (length ys)
  unfolding insert
  length-insert x [] = refl
  length-insert x (y ∷ ys) = elim (Bool-cases (before y x)) [
    | inl behind ↦ rw behind (ap suc (length-insert x ys))
    | inr front ↦ rw front
  ]

  pub length-sort : (xs : List A) → length (sort xs) ≡ length xs
  unfolding sort
  length-sort [] = refl
  length-sort (x ∷ xs) = length-insert x (sort xs) ∙ ap suc (length-sort xs)

  pub insert-All {κ} : (P : A → Type κ) (x : A) (ys : List A) → P x → All P ys → All P (insert x ys)
  unfolding insert
  insert-All P x [] p h = (p, tt)
  insert-All P x (y ∷ ys) p h = elim (Bool-cases (before y x)) [
    | inl behind ↦ rw behind (h.0, insert-All P x ys p h.1)
    | inr front ↦ rw front (p, h)
  ]

  pub sort-All {κ} : (P : A → Type κ) (xs : List A) → All P xs → All P (sort xs)
  unfolding sort
  sort-All P [] h = tt
  sort-All P (x ∷ xs) h = insert-All P x (sort xs) h.0 (sort-All P xs h.1)

-- The sum of a number taken from each item.
abbrev pub sum_of {ℓ} : {A : Type ℓ} → (A → ℕ) → List A → ℕ
sum_of f [] = 0
sum_of f (x ∷ xs) = f x + sum_of f xs

module _ {ℓ} {A : Type ℓ} (before : A → A → Bool) (f : A → ℕ) where
  sum_of-insert : (x : A) (ys : List A) → sum_of f (insert before x ys) ≡ f x + sum_of f ys
  unfolding insert
  sum_of-insert x [] = omega arith
  sum_of-insert x (y ∷ ys) = elim (Bool-cases (before y x)) [
    | inl behind ↦ rw behind (omega (arith, sum_of-insert x ys))
    | inr front ↦ rw front
  ]

  -- A sum over the items is the same after sorting.
  pub sum_of-sort : (xs : List A) → sum_of f (sort before xs) ≡ sum_of f xs
  unfolding sort
  sum_of-sort [] = refl
  sum_of-sort (x ∷ xs) = sum_of-insert x (sort before xs) ∙ ap (λ n. f x + n) (sum_of-sort xs)

-- No item stands directly behind one that should follow it.
abbrev pub IsSorted {ℓ} : {A : Type ℓ} → (A → A → Bool) → List A → Type 0
IsSorted before [] = Unit
IsSorted before (x ∷ []) = Unit
IsSorted before (x ∷ y ∷ ys) = (before y x ≡ false) × IsSorted before (y ∷ ys)

module _ {ℓ} {A : Type ℓ} (before : A → A → Bool)
    (asym : (x y : A) → before x y ≡ true → before y x ≡ false) where
  insert_behind :
      (x y : A) (ys : List A)
      → before y x ≡ true
      → IsSorted before (y ∷ ys)
      → IsSorted before (insert before x ys)
      → IsSorted before (y ∷ insert before x ys)
  unfolding insert
  insert_behind x y [] b h s = (asym y x b, tt)
  insert_behind x y (z ∷ zs) b h s = elim (Bool-cases (before z x)) [
    | inl behind ↦ rw behind (h.0, rw behind at s)
    | inr front ↦ rw front (asym y x b, rw front at s)
  ]

  insert-IsSorted :
      (x : A) (ys : List A) → IsSorted before ys → IsSorted before (insert before x ys)
  unfolding insert
  insert-IsSorted x [] h = tt
  insert-IsSorted x (y ∷ []) h = elim (Bool-cases (before y x)) [
    | inl behind ↦ rw behind (asym y x behind, tt)
    | inr front ↦ rw front (front, tt)
  ]
  insert-IsSorted x (y ∷ z ∷ zs) h = elim (Bool-cases (before y x)) [
    | inl behind ↦ rw behind (insert_behind x y (z ∷ zs) behind h (insert-IsSorted x (z ∷ zs) h.1))
    | inr front ↦ rw front (front, h)
  ]

  pub sort-IsSorted : (xs : List A) → IsSorted before (sort before xs)
  unfolding sort
  sort-IsSorted [] = tt
  sort-IsSorted (x ∷ xs) = insert-IsSorted x (sort before xs) (sort-IsSorted xs)

-- What is sorted already stays as it is.
pub sort_again {ℓ} :
    {A : Type ℓ} (before : A → A → Bool) (xs : List A) → IsSorted before xs → sort before xs ≡ xs
unfolding sort insert
sort_again before [] h = refl
sort_again before (x ∷ []) h = refl
sort_again before (x ∷ y ∷ ys) h =
    let rest = sort_again before (y ∷ ys) h.1 in ap (insert before x) rest ∙ rw h.0 refl
