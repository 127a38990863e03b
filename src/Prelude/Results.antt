-- ===== src/Prelude/Results.antt =====
-- Python's exceptions as values, and methods that mutate an object and may raise.
use mathlib.Core.Path.{◌≡◌, refl, sym, subst}
use mathlib.Core.Logic.{◌⊎◌, inl, inr}
use gpu_scheduler_lab.Prelude.Logic.{Eq, ◌==◌, Bool-cases}
use gpu_scheduler_lab.Prelude.Lists.{All}
use gpu_scheduler_lab.Prelude.Sets.{elem}
use native.Mathlib.Omega.{arith}
use mathlib.Core.Bool.{Bool, true, false}
use mathlib.Core.List.{List, [], ◌∷◌}
use mathlib.Core.Option.{Option, none, some}
use Prim.Native.String.{String}

-- The exceptions that the program raises, with their messages.
pub data Error : Type 0 where
  value_error key_error index_error runtime_error assertion_error zero_division_error :
      String → Error
  -- `next` on an iterator that is exhausted
  stop_iteration : Error

pub data Result {ℓ} (A : Type ℓ) : Type ℓ where
  ok : A → Result A
  raise : Error → Result A

infixl 5 ◌>>=◌ ◌>>◌
abbrev pub ◌>>=◌ {ℓ κ} : {A : Type ℓ} {B : Type κ} → Result A → (A → Result B) → Result B
ok a >>= f = f a
raise e >>= f = raise e

abbrev pub ◌>>◌ {ℓ} : {B : Type ℓ} → Result (Unit {0}) → Result B → Result B
m >> k = m >>= λ _. k

-- `if c: raise e`
abbrev pub raise_if : Bool → Error → Result (Unit {0})
raise_if true e = raise e
raise_if false e = ok tt

-- `d[k]`, where a missing key raises
abbrev pub or_raise {ℓ} : {A : Type ℓ} → Option A → Error → Result A
or_raise none e = raise e
or_raise (some a) e = ok a

abbrev pub is_ok {ℓ} : {A : Type ℓ} → Result A → Bool
is_ok (ok a) = true
is_ok (raise e) = false

-- `[f(x) for x in xs]`, where `f` may raise
abbrev pub traverse {ℓ κ} : {A : Type ℓ} {B : Type κ} → (A → Result B) → List A → Result (List B)
traverse f [] = ok []
traverse f (x ∷ xs) = f x >>= λ y. traverse f xs >>= λ ys. ok (y ∷ ys)

-- `for x in xs: check(x)`, where `check` may raise
abbrev pub check_each {ℓ} : {A : Type ℓ} → (A → Result (Unit {0})) → List A → Result (Unit {0})
check_each check [] = ok tt
check_each check (x ∷ xs) = check x >> check_each check xs

-- Inversion of a successful bind: what the first part gave, and what the rest made of it.
pub >>=-eq-ok {ℓ κ} :
    {A : Type ℓ} {B : Type κ} (first : Result A) (rest : A → Result B) {b : B}
    → (first >>= rest) ≡ ok b
    → (given : A) × (first ≡ ok given) × (rest given ≡ ok b)
>>=-eq-ok (raise e) rest made = cc
>>=-eq-ok (ok given) rest made = (given, refl, made)

pub raise_if-eq-ok : (c : Bool) (e : Error) {u : Unit {0}} → raise_if c e ≡ ok u → c ≡ false
raise_if-eq-ok true e h = cc
raise_if-eq-ok false e h = refl

pub or_raise-eq-ok {ℓ} :
    {A : Type ℓ} (o : Option A) (e : Error) {a : A} → or_raise o e ≡ ok a → o ≡ some a
or_raise-eq-ok none e h = cc
or_raise-eq-ok (some b) e h = cc

-- To split on a computed result and keep the equation.
pub Result-cases {ℓ} :
    {A : Type ℓ} (r : Result A) → ((a : A) × (r ≡ ok a)) ⊎ ((e : Error) × (r ≡ raise e))
Result-cases (ok a) = inl (a, refl)
Result-cases (raise e) = inr (e, refl)

pub ok-injective {ℓ} : {A : Type ℓ} {a b : A} → ok a ≡ ok b → a ≡ b
ok-injective h = cc

module _ {ℓ κ} {A : Type ℓ} {B : Type κ} where
  -- A traversal that succeeded has a result for each element, with what holds of every result.
  pub traverse_at {μ} :
      ⦃e : Eq A⦄ (f : A → Result B) (P : B → Type μ) (xs : List A) (a : A) {ys : List B}
      → traverse f xs ≡ ok ys
      → All P ys
      → elem a xs ≡ true
      → (b : B) × (f a ≡ ok b) × P b
  traverse_at f P [] a h p m = cc
  traverse_at ⦃e⦄ f P (x ∷ xs) a {ys} h p m =
      let (b, here, more) = >>=-eq-ok (f x) (λ y. traverse f xs >>= λ ys. ok (y ∷ ys)) h in
      let (bs, rest, made) = >>=-eq-ok (traverse f xs) (λ ys. ok (b ∷ ys)) more in
      let p' : All P (b ∷ bs) = subst (All P) (sym (ok-injective made)) p in
      elim (Bool-cases (a == x)) [
        | inl same ↦ (b, subst (λ z. f z ≡ ok b) (sym ((e.beq_iff a x).0 same)) here, p'.0)
        | inr other ↦ traverse_at f P xs a rest p'.1 (ground arith)
      ]
