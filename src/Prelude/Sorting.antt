-- ===== src/Prelude/Sorting.antt =====
-- Python's stable `sorted(xs, key=…)` and `min(xs, key=…)`, by a three-way comparison of the keys.
use mathlib.Core.Path.{◌≡◌, refl}
use mathlib.Core.Logic.{inl, inr}
use mathlib.Core.Bool.{Bool, ◌||◌}
use mathlib.Core.List.{List, [], ◌∷◌}
use native.Mathlib.Omega.{arith}
use gpu_scheduler_lab.Prelude.Logic.{Compare, not_gt, is_gt, if◌then◌else◌, Bool-cases, Eq, ◌==◌}
use gpu_scheduler_lab.Prelude.Lists.{length, All, any, sum_of}
use gpu_scheduler_lab.Prelude.Sets.{elem}
use Prim.Native.Nat.{ℕ, suc, ◌+◌}

module _ {ℓ} {A : Type ℓ} (cmp : Compare A) where
  -- `x` stands before its equals, which came after it.
  abbrev pub insert_sorted : A → List A → List A
  insert_sorted x [] = x ∷ []
  insert_sorted x (y ∷ ys) = if not_gt (cmp x y) then x ∷ y ∷ ys else y ∷ insert_sorted x ys

  unfoldable pub sort : List A → List A
  sort [] = []
  sort (x ∷ xs) = insert_sorted x (sort xs)

  -- `min(x, *xs)`: the first of the least elements.
  unfoldable pub minimum : A → List A → A
  minimum x [] = x
  minimum x (y ∷ ys) = minimum (if is_gt (cmp x y) then y else x) ys

module _ {ℓ κ} {A : Type ℓ} (cmp : Compare A) (P : A → Type κ) where
  All-insert_sorted : (x : A) (xs : List A) → P x → All P xs → All P (insert_sorted cmp x xs)
  All-insert_sorted x [] p h = (p, tt)
  All-insert_sorted x (y ∷ ys) p h = elim (Bool-cases (not_gt (cmp x y))) [
    | inl e ↦ rw e (p, h)
    | inr e ↦ rw e (h.0, All-insert_sorted x ys p h.1)
  ]

  pub All-sort : (xs : List A) → All P xs → All P (sort cmp xs)
  unfolding sort
  All-sort [] h = tt
  All-sort (x ∷ xs) h = All-insert_sorted x (sort cmp xs) h.0 (All-sort xs h.1)

  pub minimum_ind : (x : A) (xs : List A) → P x → All P xs → P (minimum cmp x xs)
  unfolding minimum
  minimum_ind x [] p h = p
  minimum_ind x (y ∷ ys) p h = elim (Bool-cases (is_gt (cmp x y))) [
    | inl e ↦ rw e (minimum_ind y ys h.0 h.1)
    | inr e ↦ rw e (minimum_ind x ys p h.1)
  ]

module _ {ℓ} {A : Type ℓ} (cmp : Compare A) where
  length-insert_sorted : (x : A) (xs : List A) → length (insert_sorted cmp x xs) ≡ suc (length xs)
  length-insert_sorted x [] = refl
  length-insert_sorted x (y ∷ ys) = ground (arith, length-insert_sorted x ys)

  pub length-sort : (xs : List A) → length (sort cmp xs) ≡ length xs
  unfolding sort
  length-sort [] = refl
  length-sort (x ∷ xs) = ground (arith, length-sort xs, length-insert_sorted x (sort cmp xs))

  any-insert_sorted :
      (p : A → Bool) (x : A) (xs : List A) → any p (insert_sorted cmp x xs) ≡ (p x || any p xs)
  any-insert_sorted p x [] = refl
  any-insert_sorted p x (y ∷ ys) = ground (arith, any-insert_sorted p x ys)

  pub any-sort : (p : A → Bool) (xs : List A) → any p (sort cmp xs) ≡ any p xs
  unfolding sort
  any-sort p [] = refl
  any-sort p (x ∷ xs) = ground (arith, any-insert_sorted p x (sort cmp xs), any-sort p xs)

  sum_of-insert_sorted :
      (f : A → ℕ) (x : A) (xs : List A) → sum_of f (insert_sorted cmp x xs) ≡ f x + sum_of f xs
  sum_of-insert_sorted f x [] = refl
  sum_of-insert_sorted f x (y ∷ ys) = ground (arith, sum_of-insert_sorted f x ys)

  pub sum_of-sort : (f : A → ℕ) (xs : List A) → sum_of f (sort cmp xs) ≡ sum_of f xs
  unfolding sort
  sum_of-sort f [] = refl
  sum_of-sort f (x ∷ xs) = ground (arith, sum_of-insert_sorted f x (sort cmp xs), sum_of-sort f xs)

module _ {ℓ} {A : Type ℓ} ⦃e : Eq A⦄ (cmp : Compare A) where
  elem-insert_sorted :
      (a x : A) (xs : List A) → elem a (insert_sorted cmp x xs) ≡ (a == x || elem a xs)
  elem-insert_sorted a x [] = refl
  elem-insert_sorted a x (y ∷ ys) = ground (arith, elem-insert_sorted a x ys)

  pub elem-sort : (a : A) (xs : List A) → elem a (sort cmp xs) ≡ elem a xs
  unfolding sort
  elem-sort a [] = refl
  elem-sort a (x ∷ xs) = ground (arith, elem-insert_sorted a x (sort cmp xs), elem-sort a xs)
