-- ===== src/Prelude/Sort.antt =====
-- `Array.prototype.sort(compare)`, which is stable: insertion before the first item that is not
-- smaller. `le x y` is `compare(x, y) <= 0`.
use Prim.Native.Nat.{suc}
use mathlib.Core.Path.{◌≡◌, refl}
use mathlib.Core.Bool.{Bool, true, false}
use mathlib.Core.Logic.{inl, inr}
use mathlib.Core.List.{List, [], ◌∷◌, Perm}
use mathlib.Core.List.Perm
use native.Mathlib.Omega.{arith}
use rovaulta.Prelude.Tests.{if◌then◌else◌, Bool-cases}
use rovaulta.Prelude.Lists.{length, All}

module _ {ℓ} {A : Type ℓ} (le : A → A → Bool) where
  pub insert_sorted : A → List A → List A
  insert_sorted x [] = x ∷ []
  insert_sorted x (y ∷ ys) = if le x y then x ∷ y ∷ ys else y ∷ insert_sorted x ys

  unfoldable pub sort : List A → List A
  unfolding insert_sorted
  sort [] = []
  sort (x ∷ xs) = insert_sorted x (sort xs)

  -- Each item is in order with the next one.
  abbrev pub IsSorted : List A → Type 0
  IsSorted [] = Unit
  IsSorted (x ∷ []) = Unit
  IsSorted (x ∷ y ∷ ys) = (le x y ≡ true) × IsSorted (y ∷ ys)

  insert_sorted-perm : (x : A) (xs : List A) → Perm (insert_sorted x xs) (x ∷ xs)
  unfolding insert_sorted
  insert_sorted-perm x [] = Perm.refl _
  insert_sorted-perm x (y ∷ ys) = elim (Bool-cases (le x y)) [
    | inl e ↦ rw e (Perm.refl _)
    | inr e ↦ rw e (Perm.trans (Perm.cons y (insert_sorted-perm x ys)) (Perm.swap _ _ _))
  ]

  -- Sorting permutes the items.
  pub sort-perm : (xs : List A) → Perm (sort xs) xs
  unfolding sort
  sort-perm [] = Perm.refl []
  sort-perm (x ∷ xs) = Perm.trans (insert_sorted-perm x (sort xs)) (Perm.cons x (sort-perm xs))

  module _ (total : (x y : A) → le x y ≡ false → le y x ≡ true) where
    insert_sorted-IsSorted : (x : A) (xs : List A) → IsSorted xs → IsSorted (insert_sorted x xs)
    unfolding insert_sorted
    insert_sorted-IsSorted x [] h = tt
    insert_sorted-IsSorted x (y ∷ []) h = ground (arith, total x y)
    insert_sorted-IsSorted x (y ∷ z ∷ zs) h =
        ground (arith, total x y, total x z, insert_sorted-IsSorted x (z ∷ zs) h.1)

    -- The result is in order, where the comparison is total.
    pub sort-IsSorted : (xs : List A) → IsSorted (sort xs)
    unfolding sort
    sort-IsSorted [] = tt
    sort-IsSorted (x ∷ xs) = insert_sorted-IsSorted x (sort xs) (sort-IsSorted xs)

  insert_sorted-All {κ} :
      (P : A → Type κ) (x : A) (xs : List A) → P x → All P xs → All P (insert_sorted x xs)
  unfolding insert_sorted
  insert_sorted-All P x [] p h = (p, tt)
  insert_sorted-All P x (y ∷ ys) p h = elim (Bool-cases (le x y)) [
    | inl e ↦ rw e (p, h)
    | inr e ↦ rw e (h.0, insert_sorted-All P x ys p h.1)
  ]

  pub sort-All {κ} : (P : A → Type κ) (xs : List A) → All P xs → All P (sort xs)
  unfolding sort
  sort-All P [] h = tt
  sort-All P (x ∷ xs) h = insert_sorted-All P x (sort xs) h.0 (sort-All P xs h.1)

  All-insert_sorted {κ} :
      (P : A → Type κ) (x : A) (xs : List A) → All P (insert_sorted x xs) → P x × All P xs
  unfolding insert_sorted
  All-insert_sorted P x [] h = h
  All-insert_sorted P x (y ∷ ys) h = elim (Bool-cases (le x y)) [
    | inl e ↦ rw e at h
    | inr e ↦
        let (p, q) : P y × All P (insert_sorted x ys) = rw e at h in
        let (r, t) = All-insert_sorted P x ys q in (r, (p, t))
  ]

  pub All-sort {κ} : (P : A → Type κ) (xs : List A) → All P (sort xs) → All P xs
  unfolding sort
  All-sort P [] h = tt
  All-sort P (x ∷ xs) h =
      let (p, rest) = All-insert_sorted P x (sort xs) h in (p, All-sort P xs rest)

  length-insert_sorted : (x : A) (xs : List A) → length (insert_sorted x xs) ≡ suc (length xs)
  unfolding insert_sorted
  length-insert_sorted x [] = refl
  length-insert_sorted x (y ∷ ys) = ground (arith, length-insert_sorted x ys)

  pub length-sort : (xs : List A) → length (sort xs) ≡ length xs
  unfolding sort
  length-sort [] = refl
  length-sort (x ∷ xs) = omega (arith, length-insert_sorted x (sort xs), length-sort xs)
