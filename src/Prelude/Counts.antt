-- ===== src/Prelude/Counts.antt =====
-- Lists drawn from a list: no element stands in the one more often than in the other.
use mathlib.Core.Path.{◌≡◌, refl, subst, ap}
use mathlib.Core.Bool.{Bool}
use mathlib.Core.List.{List, [], ◌∷◌, ◌++◌, map}
use mathlib.Core.Logic.{inl, inr}
use Prim.Native.Nat.{ℕ, zero, suc, ◌+◌, ◌≤◌}
use native.Mathlib.Omega.{arith}
use gpu_scheduler_lab.Prelude.Lists.{All-map_pred}
use gpu_scheduler_lab.Prelude.Logic.{Compare, Bool-cases, Eq, ◌==◌, if◌then◌else◌}
use gpu_scheduler_lab.Prelude.Lists.{count_of, filter, take, All}
use gpu_scheduler_lab.Prelude.Sorting.{sort, insert_sorted}
use gpu_scheduler_lab.Prelude.Dicts.{Dict, append_to, group_onto, group_by}

-- Nothing stands in `xs` more often than in `ys`.
abbrev pub Within {ℓ} : {A : Type ℓ} → List A → List A → Type ℓ
Within {A = A} xs ys = (p : A → Bool) → count_of p xs ≤ count_of p ys

module _ {ℓ} {A : Type ℓ} (p : A → Bool) where
  pub count_of-append : (xs ys : List A) → count_of p (xs ++ ys) ≡ count_of p xs + count_of p ys
  count_of-append [] ys = omega arith
  count_of-append (x ∷ xs) ys = ground (arith, count_of-append xs ys)

  pub count_of-filter : (q : A → Bool) (xs : List A) → count_of p (filter q xs) ≤ count_of p xs
  count_of-filter q [] = omega arith
  count_of-filter q (x ∷ xs) = ground (arith, count_of-filter q xs)

  pub count_of-take : (n : ℕ) (xs : List A) → count_of p (take n xs) ≤ count_of p xs
  count_of-take zero xs = ground arith
  count_of-take (suc n) [] = omega arith
  count_of-take (suc n) (x ∷ xs) = ground (arith, count_of-take n xs)

  count_of-insert_sorted :
      (cmp : Compare A) (x : A) (xs : List A)
      → count_of p (insert_sorted cmp x xs) ≡ (if p x then 1 else 0) + count_of p xs
  count_of-insert_sorted cmp x [] = refl
  count_of-insert_sorted cmp x (y ∷ ys) = ground (arith, count_of-insert_sorted cmp x ys)

  pub count_of-sort : (cmp : Compare A) (xs : List A) → count_of p (sort cmp xs) ≡ count_of p xs
  unfolding sort
  count_of-sort cmp [] = refl
  count_of-sort cmp (x ∷ xs) =
      ground (arith, count_of-insert_sorted cmp x (sort cmp xs), count_of-sort cmp xs)

pub count_of-map {ℓ κ} :
    {A : Type ℓ} {B : Type κ} (p : B → Bool) (f : A → B) (xs : List A)
    → count_of p (map f xs) ≡ count_of (λ x. p (f x)) xs
count_of-map p f [] = refl
count_of-map p f (x ∷ xs) = ap (λ (n : ℕ). (if p (f x) then 1 else 0) + n) (count_of-map p f xs)

-- Groups hold no more of a kind than what was grouped.
module _ {ℓ κ} {K : Type ℓ} {V : Type κ} ⦃e : Eq K⦄ (p : V → Bool) where
  -- Of each group, what it holds of a kind.
  abbrev AtMost : ℕ → Dict K (List V) → Type 0
  AtMost n d = All (λ item. count_of p item.1 ≤ n) d

  AtMost-weaken : (m n : ℕ) (d : Dict K (List V)) → m ≤ n → AtMost m d → AtMost n d
  AtMost-weaken m n d le h = All-map_pred _ d (λ item few. omega arith) h

  AtMost-append_to :
      (k : K) (v : V) (n : ℕ) (d : Dict K (List V))
      → AtMost n d
      → AtMost (n + (if p v then 1 else 0)) (append_to k v d)
  AtMost-append_to k v n [] h = (ground arith, tt)
  AtMost-append_to k v n ((j, vs) ∷ d) h = elim (Bool-cases (k == j)) [
    | inl same ↦ rw same (
      ground (arith, h.0, count_of-append p vs (v ∷ [])),
      AtMost-weaken n (n + (if p v then 1 else 0)) d (ground arith) h.1,
    )
    | inr other ↦ rw other (ground (arith, h.0), AtMost-append_to k v n d h.1)
  ]

  AtMost-group_onto :
      (key : V → K) (vs : List V) (n : ℕ) (d : Dict K (List V))
      → AtMost n d
      → AtMost (n + count_of p vs) (group_onto key vs d)
  AtMost-group_onto key [] n d h = subst (λ m. AtMost m d) (omega arith) h
  AtMost-group_onto key (v ∷ vs) n d h =
      subst (λ m. AtMost m (group_onto key vs (append_to (key v) v d))) (ground arith)
        (AtMost-group_onto key vs (n + (if p v then 1 else 0)) (append_to (key v) v d)
          (AtMost-append_to (key v) v n d h))

  pub count_of-group_by :
      (key : V → K) (vs : List V)
      → All (λ item. count_of p item.1 ≤ count_of p vs) (group_by key vs)
  unfolding group_by
  count_of-group_by key vs =
      subst (λ m. AtMost m (group_onto key vs [])) (omega arith) (AtMost-group_onto key vs 0 [] tt)

-- What holds of every element for each test holds for all tests of each element.
pub All-swap {ℓ κ μ} :
    {A : Type ℓ} {B : Type κ} (P : B → A → Type μ) (xs : List A)
    → ((b : B) → All (P b) xs)
    → All (λ x. (b : B) → P b x) xs
All-swap P [] h = tt
All-swap P (x ∷ xs) h = (λ b. (h b).0, All-swap P xs (λ b. (h b).1))
