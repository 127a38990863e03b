-- ===== src/Prelude/Sets.antt =====
-- Lists as Python's sets: members, duplicates, and what holds of every member.
use Prim.Native.Nat.{◌≤◌, ◌<◌}
use mathlib.Core.Path.{◌≡◌, refl, sym, subst, ap, ◌∙◌}
use mathlib.Core.Logic.{◌↔◌, inl, inr}
use mathlib.Core.Bool.{false≢true, Bool, true, false, ◌&&◌, ◌||◌}
use mathlib.Core.List.{List, [], ◌∷◌, ◌++◌, map}
use native.Mathlib.Omega.{arith}
use gpu_scheduler_lab.Prelude.Logic.{Eq, ◌==◌, if◌then◌else◌, nat_eq, beq_refl, Bool-cases}
use gpu_scheduler_lab.Prelude.Lists.{All, all, any, filter, length}

-- Sets as lists: membership, the distinct elements, and the test that a list has no duplicate.
module _ {ℓ} {A : Type ℓ} ⦃e : Eq A⦄ where
  abbrev pub elem : A → List A → Bool
  elem a [] = false
  elem a (x ∷ xs) = a == x || elem a xs

  -- `set(xs)`: an element stands where it occurs last.
  abbrev pub dedup : List A → List A
  dedup [] = []
  dedup (x ∷ xs) = if elem x xs then dedup xs else x ∷ dedup xs

  -- `len(set(xs)) == len(xs)`
  abbrev pub distinct : List A → Bool
  distinct xs = nat_eq (length (dedup xs)) (length xs)

  -- No element stands twice.
  abbrev pub Unique : List A → Type 0
  Unique [] = Unit
  Unique (x ∷ xs) = (elem x xs ≡ false) × Unique xs

module _ {ℓ} {A : Type ℓ} ⦃e : Eq A⦄ where
  pub length-dedup-le : (xs : List A) → length (dedup xs) ≤ length xs
  length-dedup-le [] = omega arith
  length-dedup-le (x ∷ xs) = ground (arith, length-dedup-le xs)

  pub distinct→Unique : (xs : List A) → distinct xs ≡ true → Unique xs
  distinct→Unique [] h = tt
  distinct→Unique (x ∷ xs) h = ground (arith, length-dedup-le xs, distinct→Unique xs)

  pub dedup-eq_of_Unique : (xs : List A) → Unique xs → dedup xs ≡ xs
  dedup-eq_of_Unique [] h = refl
  dedup-eq_of_Unique (x ∷ xs) h = ground (arith, dedup-eq_of_Unique xs h.1)

  pub Unique→distinct : (xs : List A) → Unique xs → distinct xs ≡ true
  Unique→distinct xs h = rw (dedup-eq_of_Unique xs h) (ground arith)

  pub elem_of_beq : (a x : A) (xs : List A) → (a == x) ≡ true → elem x xs ≡ true → elem a xs ≡ true
  elem_of_beq a x xs h m = rw ((e.beq_iff a x).0 h) m

  elem_absorbs : (a x : A) (xs : List A) → elem x xs ≡ true → elem a xs ≡ (a == x || elem a xs)
  elem_absorbs a x xs m = ground (arith, elem_of_beq a x xs)

  pub elem-dedup : (a : A) (xs : List A) → elem a (dedup xs) ≡ elem a xs
  elem-dedup a [] = refl
  elem-dedup a (x ∷ xs) = elim (Bool-cases (elem x xs)) [
    | inl again ↦ rw again (elem-dedup a xs ∙ elem_absorbs a x xs again)
    | inr first ↦ rw first (ap (λ b. a == x || b) (elem-dedup a xs))
  ]

  pub elem-append : (a : A) (xs ys : List A) → elem a (xs ++ ys) ≡ (elem a xs || elem a ys)
  elem-append a [] ys = refl
  elem-append a (x ∷ xs) ys = ground (arith, elem-append a xs ys)

  pub elem-filter : (p : A → Bool) (a : A) (xs : List A) → elem a (filter p xs) ≡ (elem a xs && p a)
  elem-filter p a [] = refl
  elem-filter p a (x ∷ xs) = elim (Bool-cases (a == x)) [
    | inr other ↦ ground (arith, elem-filter p a xs)
    | inl same ↦
        let tested : p a ≡ p x = ap p ((e.beq_iff a x).0 same) in ground (arith, elem-filter p a xs)
  ]

module _ {ℓ} {A : Type ℓ} where
  pub any-false→All : (p : A → Bool) (xs : List A) → any p xs ≡ false → All (λ x. p x ≡ false) xs
  any-false→All p [] h = tt
  any-false→All p (x ∷ xs) h = ground (arith, any-false→All p xs)

  pub all-true→All : (p : A → Bool) (xs : List A) → all p xs ≡ true → All (λ x. p x ≡ true) xs
  all-true→All p [] h = tt
  all-true→All p (x ∷ xs) h = ground (arith, all-true→All p xs)

  pub All→all-true : (p : A → Bool) (xs : List A) → All (λ x. p x ≡ true) xs → all p xs ≡ true
  All→all-true p [] h = refl
  All→all-true p (x ∷ xs) h = ground (arith, All→all-true p xs h.1)

module _ {ℓ} {A : Type ℓ} ⦃e : Eq A⦄ where
  pub All-elem {κ} : (P : A → Type κ) (xs : List A) (a : A) → All P xs → elem a xs ≡ true → P a
  All-elem P [] a h m = absurd (false≢true m)
  All-elem P (x ∷ xs) a h m = elim (Bool-cases (a == x)) [
    | inl same ↦ subst P (sym ((e.beq_iff a x).0 same)) h.0
    | inr other ↦ All-elem P xs a h.1 (ground arith)
  ]

  elem-length_pos : (a : A) (xs : List A) → elem a xs ≡ true → 0 < length xs
  elem-length_pos a [] h = cc
  elem-length_pos a (x ∷ xs) h = omega arith

  single_elem :
      (xs : List A) (a b : A) → length xs ≤ 1 → elem a xs ≡ true → elem b xs ≡ true → a ≡ b
  single_elem [] a b h m k = absurd (false≢true m)
  single_elem (x ∷ []) a b h m k =
      let p : a ≡ x = (e.beq_iff a x).0 (ground arith) in
      let q : b ≡ x = (e.beq_iff b x).0 (ground arith) in p ∙ sym q
  single_elem (x ∷ y ∷ xs) a b h m k = absurd (omega arith)

  -- `len(set(xs)) <= 1`: all elements are one.
  pub eq_of_single_set :
      (xs : List A) (a b : A) → length (dedup xs) ≤ 1 → elem a xs ≡ true → elem b xs ≡ true → a ≡ b
  eq_of_single_set xs a b h m k =
      single_elem (dedup xs) a b h (elem-dedup a xs ∙ m) (elem-dedup b xs ∙ k)

-- Each element's image stands among the images.
module _ {ℓ κ} {A : Type ℓ} {B : Type κ} ⦃e : Eq B⦄ (f : A → B) where
  All-self_elem_within :
      (xs ys : List A)
      → ((b : B) → elem b (map f xs) ≡ true → elem b (map f ys) ≡ true)
      → All (λ x. elem (f x) (map f ys) ≡ true) xs
  All-self_elem_within [] ys h = tt
  All-self_elem_within (x ∷ xs) ys h = (
    h (f x) (ground (arith, beq_refl (f x))),
    All-self_elem_within xs ys (λ b m. h b (ground (arith, m))),
  )

  pub All-self_elem : (xs : List A) → All (λ x. elem (f x) (map f xs) ≡ true) xs
  All-self_elem xs = All-self_elem_within xs xs (λ b m. m)

module _ {ℓ κ} {A : Type ℓ} ⦃e : Eq A⦄ (P : A → Type κ) where
  All-of_elem_within :
      (xs ys : List A)
      → ((a : A) → elem a xs ≡ true → elem a ys ≡ true)
      → ((a : A) → elem a ys ≡ true → P a)
      → All P xs
  All-of_elem_within [] ys h f = tt
  All-of_elem_within (x ∷ xs) ys h f = (
    f x (h x (ground (arith, beq_refl x))),
    All-of_elem_within xs ys (λ a m. h a (ground (arith, m))) f,
  )

  -- What holds of every member holds of all.
  pub All-of_elem : (xs : List A) → ((a : A) → elem a xs ≡ true → P a) → All P xs
  All-of_elem xs f = All-of_elem_within xs xs (λ a m. m) f

module _ {ℓ κ μ ν} {A : Type ℓ} {P : A → Type κ} {Q : A → Type μ} {R : A → Type ν} where
  pub All-zip : (xs : List A) → ((x : A) → P x → Q x → R x) → All P xs → All Q xs → All R xs
  All-zip [] f p q = tt
  All-zip (x ∷ xs) f p q = (f x p.0 q.0, All-zip xs f p.1 q.1)

-- Tuples of ids, which key the candidate placements.
module _ {ℓ} {A : Type ℓ} ⦃e : Eq A⦄ where
  abbrev pub list_beq : List A → List A → Bool
  list_beq [] [] = true
  list_beq [] (y ∷ ys) = false
  list_beq (x ∷ xs) [] = false
  list_beq (x ∷ xs) (y ∷ ys) = x == y && list_beq xs ys

  list_beq→eq : (xs ys : List A) → list_beq xs ys ≡ true → xs ≡ ys
  list_beq→eq [] [] h = refl
  list_beq→eq [] (y ∷ ys) h = absurd (false≢true h)
  list_beq→eq (x ∷ xs) [] h = absurd (false≢true h)
  list_beq→eq (x ∷ xs) (y ∷ ys) h =
      let p : x ≡ y = (e.beq_iff x y).0 (ground arith) in
      let q : xs ≡ ys = list_beq→eq xs ys (ground arith) in λ i. p i ∷ q i

  list_beq_refl : (xs : List A) → list_beq xs xs ≡ true
  list_beq_refl [] = refl
  list_beq_refl (x ∷ xs) = ground (arith, beq_refl x, list_beq_refl xs)

  pub list_beq_iff : (xs ys : List A) → (list_beq xs ys ≡ true) ↔ (xs ≡ ys)
  list_beq_iff xs ys =
      (list_beq→eq xs ys, λ p. subst (λ zs. list_beq xs zs ≡ true) p (list_beq_refl xs))

instance abbrev pub list_eq {ℓ} : {A : Type ℓ} ⦃e : Eq A⦄ → Eq (List A)
list_eq = record { beq = list_beq; beq_iff = list_beq_iff }
