-- ===== src/Prelude/Logic.antt =====
-- Boolean tests on native numbers, decided equality as an interface, and three-way comparison
-- for the keys that Python's `sorted` and `min` are given.
use Prim.Native.Nat.{ℕ, zero, suc, ◌/◌, ◌%◌, ◌≤◌, ◌<◌, Ordering}
use Prim.Native.Nat.{compare as compare_ℕ}
use Prim.Native.String.{String, slice, ◌++◌ as text_append}
use mathlib.Core.Path.{◌≡◌, refl}
use mathlib.Core.Logic.{◌↔◌, ◌⊎◌, inl, inr}
use mathlib.Core.Bool.{Bool, true, false, ◌&&◌, not}
use mathlib.Core.Option.{Option, none, some}
use native.Mathlib.Omega.{arith}
use text.Mathlib.Text.{◌==◌ as text_eq}
use text.Mathlib.TextEquality.{eq_iff}

abbrev pub ltb : ℕ → ℕ → Bool
ltb a b = elim (compare_ℕ a b) [ Ordering.lt ↦ true | _ ↦ false ]

abbrev pub leb : ℕ → ℕ → Bool
leb a b = elim (compare_ℕ a b) [ Ordering.gt ↦ false | _ ↦ true ]

abbrev pub nat_eq : ℕ → ℕ → Bool
nat_eq a b = elim (compare_ℕ a b) [ Ordering.eq ↦ true | _ ↦ false ]

infix 1 if◌then◌else◌
abbrev pub if◌then◌else◌ {ℓ} : {A : Type ℓ} → Bool → A → A → A
if true then x else y = x
if false then x else y = y

pub nat_eq_iff : (a b : ℕ) → (nat_eq a b ≡ true) ↔ (a ≡ b)
nat_eq_iff a b = ground arith

pub ltb→lt : (a b : ℕ) → ltb a b ≡ true → a < b
ltb→lt a b h = ground arith

pub lt→ltb : (a b : ℕ) → a < b → ltb a b ≡ true
lt→ltb a b h = ground arith

pub leb→le : (a b : ℕ) → leb a b ≡ true → a ≤ b
leb→le a b h = ground arith

pub le→leb : (a b : ℕ) → a ≤ b → leb a b ≡ true
le→leb a b h = ground arith

pub Bool-cases : (b : Bool) → (b ≡ true) ⊎ (b ≡ false)
Bool-cases true = inl refl
Bool-cases false = inr refl

pub Option-cases {ℓ} : {A : Type ℓ} (o : Option A) → (o ≡ none) ⊎ ((a : A) × (o ≡ some a))
Option-cases none = inl refl
Option-cases (some a) = inr (a, refl)

pub some_eq {ℓ} : {A : Type ℓ} {a b : A} → some a ≡ some b → a ≡ b
some_eq h = cc

pub and-true : (a b : Bool) → (a && b) ≡ true → (a ≡ true) × (b ≡ true)
and-true a b h = ground arith

pub not-true : (a : Bool) → not a ≡ true → a ≡ false
not-true a h = ground arith

-- Equality that the program tests with `==` or with a set's membership.
pub record Eq {ℓ} (T : Type ℓ) : Type ℓ where
  pub beq : T → T → Bool
  pub beq_iff : (x y : T) → (beq x y ≡ true) ↔ (x ≡ y)

infix 50 ◌==◌
abbrev pub ◌==◌ {ℓ} : {T : Type ℓ} ⦃e : Eq T⦄ → T → T → Bool
◌==◌ ⦃e⦄ = e.beq

instance abbrev pub ℕ_eq : Eq ℕ
ℕ_eq = record { beq = nat_eq; beq_iff = nat_eq_iff }

instance abbrev pub text_eq_instance : Eq String
text_eq_instance = record { beq = text_eq; beq_iff = eq_iff }

module _ {ℓ} {A : Type ℓ} ⦃e : Eq A⦄ where
  pub beq_refl : (a : A) → (a == a) ≡ true
  beq_refl a = (e.beq_iff a a).1 refl

  pub beq_comm : (a b : A) → (a == b) ≡ (b == a)
  beq_comm a b = ground (arith, e.beq_iff a b, e.beq_iff b a)

-- Lexicographic comparison of a tuple's components: the second decides where the first ties.
abbrev pub and_then : Ordering → Ordering → Ordering
and_then Ordering.lt o = Ordering.lt
and_then Ordering.eq o = o
and_then Ordering.gt o = Ordering.gt

abbrev pub flip_order : Ordering → Ordering
flip_order Ordering.lt = Ordering.gt
flip_order Ordering.eq = Ordering.eq
flip_order Ordering.gt = Ordering.lt

-- Python orders `False` before `True`.
abbrev pub compare_bool : Bool → Bool → Ordering
compare_bool false false = Ordering.eq
compare_bool false true = Ordering.lt
compare_bool true false = Ordering.gt
compare_bool true true = Ordering.eq

abbrev pub Compare {ℓ} : Type ℓ → Type ℓ
Compare A = A → A → Ordering

abbrev pub not_gt : Ordering → Bool
not_gt Ordering.gt = false
not_gt Ordering.lt = true
not_gt Ordering.eq = true

abbrev pub is_gt : Ordering → Bool
is_gt Ordering.gt = true
is_gt Ordering.lt = false
is_gt Ordering.eq = false

-- What an f-string joins.
infixr 65 ◌<>◌
abbrev pub ◌<>◌ : String → String → String
s <> t = text_append s t

-- `str(n)`, by rounds of which `suc n` are enough
unfoldable decimal_digits : ℕ → ℕ → String
decimal_digits zero n = ""
decimal_digits (suc fuel) n =
    let rest = decimal_digits fuel (n / 10) in
    let digit = slice "0123456789" (n % 10) (suc (n % 10)) in
    if ltb n 10 then digit else rest <> digit

unfoldable pub decimal : ℕ → String
unfolding decimal_digits
decimal n = decimal_digits (suc n) n
