-- ===== src/Prelude/Lists.antt =====
-- Lists as Python's lists, tuples and sets, measured by native numbers, and their laws.
use Prim.Native.Nat.{ℕ, zero, suc, ◌+◌, ◌≤◌, min, max}
use mathlib.Core.Path.{◌≡◌, refl, ap}
use mathlib.Core.Logic.{inl, inr}
use mathlib.Core.Bool.{Bool, true, false, ◌&&◌, ◌||◌}
use mathlib.Core.Option.{Option, none, some}
use mathlib.Core.List.{List, [], ◌∷◌, ◌++◌, map}
use native.Mathlib.Omega.{arith}
use gpu_scheduler_lab.Prelude.Logic.{if◌then◌else◌, Bool-cases}

module _ {ℓ} {A : Type ℓ} where
  abbrev pub length : List A → ℕ
  length [] = 0
  length (x ∷ xs) = suc (length xs)

  -- `xs[:n]`
  abbrev pub take : ℕ → List A → List A
  take zero xs = []
  take (suc n) [] = []
  take (suc n) (x ∷ xs) = x ∷ take n xs

  -- `xs[i]`, with nothing past the end
  abbrev pub get_elem? : List A → ℕ → Option A
  get_elem? [] i = none
  get_elem? (x ∷ xs) zero = some x
  get_elem? (x ∷ xs) (suc i) = get_elem? xs i

  abbrev pub any : (A → Bool) → List A → Bool
  any p [] = false
  any p (x ∷ xs) = p x || any p xs

  abbrev pub all : (A → Bool) → List A → Bool
  all p [] = true
  all p (x ∷ xs) = p x && all p xs

  -- `[x for x in xs if p(x)]`
  abbrev pub filter : (A → Bool) → List A → List A
  filter p [] = []
  filter p (x ∷ xs) = if p x then x ∷ filter p xs else filter p xs

  -- `next(x for x in xs if p(x))`
  abbrev pub find : (A → Bool) → List A → Option A
  find p [] = none
  find p (x ∷ xs) = if p x then some x else find p xs

  -- `sum(f(x) for x in xs)`
  abbrev pub sum_of : (A → ℕ) → List A → ℕ
  sum_of f [] = 0
  sum_of f (x ∷ xs) = f x + sum_of f xs

  -- `sum(p(x) for x in xs)` for a Boolean `p`
  abbrev pub count_of : (A → Bool) → List A → ℕ
  count_of p [] = 0
  count_of p (x ∷ xs) = (if p x then 1 else 0) + count_of p xs

  abbrev pub is_empty : List A → Bool
  is_empty [] = true
  is_empty (x ∷ xs) = false

  abbrev pub All {κ} : (A → Type κ) → List A → Type κ
  All P [] = Unit
  All P (x ∷ xs) = P x × All P xs

  -- `reversed(xs)`
  abbrev pub reverse : List A → List A
  reverse [] = []
  reverse (x ∷ xs) = reverse xs ++ x ∷ []

module _ {ℓ κ} {A : Type ℓ} {B : Type κ} where
  -- `[y for x in xs for y in f(x)]`
  abbrev pub flat_map : (A → List B) → List A → List B
  flat_map f [] = []
  flat_map f (x ∷ xs) = f x ++ flat_map f xs

module _ {ℓ} {A : Type ℓ} where
  pub length-append : (xs ys : List A) → length (xs ++ ys) ≡ length xs + length ys
  length-append [] ys = omega arith
  length-append (x ∷ xs) ys = omega (arith, length-append xs ys)

  pub length-take : (n : ℕ) (xs : List A) → length (take n xs) ≡ min n (length xs)
  length-take zero xs = omega arith
  length-take (suc n) [] = omega arith
  length-take (suc n) (x ∷ xs) = omega (arith, length-take n xs)

  pub length-map {κ} : {B : Type κ} (f : A → B) (xs : List A) → length (map f xs) ≡ length xs
  length-map f [] = refl
  length-map f (x ∷ xs) = ap suc (length-map f xs)

  pub sum_of-map {κ} :
      {B : Type κ} (f : A → B) (g : B → ℕ) (xs : List A)
      → sum_of g (map f xs) ≡ sum_of (λ x. g (f x)) xs
  sum_of-map f g [] = refl
  sum_of-map f g (x ∷ xs) = omega (arith, sum_of-map f g xs)

  pub length-filter-le : (p : A → Bool) (xs : List A) → length (filter p xs) ≤ length xs
  length-filter-le p [] = omega arith
  length-filter-le p (x ∷ xs) = ground (arith, length-filter-le p xs)

  pub any-append : (p : A → Bool) (xs ys : List A) → any p (xs ++ ys) ≡ (any p xs || any p ys)
  any-append p [] ys = refl
  any-append p (x ∷ xs) ys = ground (arith, any-append p xs ys)

  pub all-append : (p : A → Bool) (xs ys : List A) → all p (xs ++ ys) ≡ (all p xs && all p ys)
  all-append p [] ys = refl
  all-append p (x ∷ xs) ys = ground (arith, all-append p xs ys)

  pub filter-append :
      (p : A → Bool) (xs ys : List A) → filter p (xs ++ ys) ≡ filter p xs ++ filter p ys
  filter-append p [] ys = refl
  filter-append p (x ∷ xs) ys = ground (arith, filter-append p xs ys)

  pub sum_of-append : (f : A → ℕ) (xs ys : List A) → sum_of f (xs ++ ys) ≡ sum_of f xs + sum_of f ys
  sum_of-append f [] ys = omega arith
  sum_of-append f (x ∷ xs) ys = omega (arith, sum_of-append f xs ys)

module _ {ℓ κ} {A : Type ℓ} (P : A → Type κ) where
  pub All-append : (xs ys : List A) → All P xs → All P ys → All P (xs ++ ys)
  All-append [] ys h k = k
  All-append (x ∷ xs) ys h k = (h.0, All-append xs ys h.1 k)

  pub All-take : (n : ℕ) (xs : List A) → All P xs → All P (take n xs)
  All-take zero xs h = tt
  All-take (suc n) [] h = tt
  All-take (suc n) (x ∷ xs) h = (h.0, All-take n xs h.1)

  -- What the kept elements have: the test, and whatever held of the list.
  pub All-filter : (p : A → Bool) (xs : List A) → ((x : A) → p x ≡ true → P x) → All P (filter p xs)
  All-filter p [] h = tt
  All-filter p (x ∷ xs) h = elim (Bool-cases (p x)) [
    | inl e ↦ rw e (h x e, All-filter p xs h)
    | inr e ↦ rw e (All-filter p xs h)
  ]

  pub All-filter_keep : (p : A → Bool) (xs : List A) → All P xs → All P (filter p xs)
  All-filter_keep p [] h = tt
  All-filter_keep p (x ∷ xs) h = elim (Bool-cases (p x)) [
    | inl e ↦ rw e (h.0, All-filter_keep p xs h.1)
    | inr e ↦ rw e (All-filter_keep p xs h.1)
  ]

  pub All-map_pred {μ} :
      {Q : A → Type μ} (xs : List A) → ((x : A) → P x → Q x) → All P xs → All Q xs
  All-map_pred [] f h = tt
  All-map_pred (x ∷ xs) f h = (f x h.0, All-map_pred xs f h.1)

-- `max(xs, default=0)`
abbrev pub max_of : List ℕ → ℕ
max_of [] = 0
max_of (x ∷ xs) = max x (max_of xs)

pub count_of-le {ℓ} : {A : Type ℓ} (p : A → Bool) (xs : List A) → count_of p xs ≤ length xs
count_of-le p [] = omega arith
count_of-le p (x ∷ xs) = ground (arith, count_of-le p xs)
