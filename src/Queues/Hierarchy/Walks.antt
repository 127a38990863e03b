-- ===== src/Queues/Hierarchy/Walks.antt =====
-- The walks to the root (gpu_scheduler_lab/queues/hierarchy.py): the cycle check always ends, and
-- in a hierarchy that passed it the ancestors of a queue are all there, each once.
use gpu_scheduler_lab.Queues.Spec.{QueueSpec}
use gpu_scheduler_lab.Prelude.{
  ◌==◌, raise, >>=-eq-ok, ◌∙◌, length-map, ◌≤◌, ◌<◌, ◌+◌, check_each, ◌≢◌, true, length, keys,
  if◌then◌else◌, contains, Result, ℕ, zero, suc, String, text_eq_instance, ◌≡◌, refl, inl, inr,
  false, Option, none, some, List, [], ◌∷◌, arith, Bool-cases, All, elem, Unique, ok,
}
use gpu_scheduler_lab.Queues.Hierarchy.{
  validate_acyclic, new_hierarchy, ancestors, QueueHierarchy, finished, walk_fuel, Specs, parent_of,
  walk, climb,
}

-- `path` leads from `current` by the parents to a queue that has none.
abbrev pub IsAncestry : Specs → Option String → List String → Type 0
IsAncestry specs none [] = Unit
IsAncestry specs none (a ∷ path) = ⊥
IsAncestry specs (some queue_id) [] = ⊥
IsAncestry specs (some queue_id) (a ∷ path) =
    (a ≡ queue_id) × IsAncestry specs (parent_of specs queue_id) path

abbrev Avoids : List String → List String → Type 0
Avoids seen path = All (λ a. elem a seen ≡ false) path

Avoids-cons :
    (x : String) (seen path : List String)
    → Avoids (x ∷ seen) path
    → (elem x path ≡ false) × Avoids seen path
Avoids-cons x seen [] h = (refl, tt)
Avoids-cons x seen (a ∷ path) h =
    ground (
      arith,
      Avoids-cons x seen path h.1,
      text_eq_instance.beq_iff a x,
      text_eq_instance.beq_iff x a,
    )

-- A walk that ends well has seen exactly what `climb` lists.
climb_of_walk :
    (fuel : ℕ) (specs : Specs) (seen : List String) (current : Option String)
    → walk fuel specs seen current ≡ some (ok tt)
    → IsAncestry specs current (climb fuel specs current)
      × Avoids seen (climb fuel specs current)
      × Unique (climb fuel specs current)
unfolding walk climb
climb_of_walk zero specs seen current h = cc
climb_of_walk (suc fuel) specs seen none h = (tt, tt, tt)
climb_of_walk (suc fuel) specs seen (some queue_id) h = elim (Bool-cases (elem queue_id seen)) [
  | inl again ↦ ground arith
  | inr first ↦
      let (chain, apart, unique) =
        climb_of_walk fuel specs (queue_id ∷ seen) (parent_of specs queue_id) (ground arith) in
      let (fresh, apart') = Avoids-cons queue_id seen _ apart in
      ((refl, chain), (first, apart'), (fresh, unique))
]

-- The first `x` of a list taken out, for counting.
abbrev without : String → List String → List String
without x [] = []
without x (y ∷ ys) = if x == y then ys else y ∷ without x ys

length-without :
    (x : String) (ys : List String) → elem x ys ≡ true → suc (length (without x ys)) ≡ length ys
length-without x [] h = cc
length-without x (y ∷ ys) h = ground (arith, length-without x ys)

elem-without :
    (x z : String) (ys : List String)
    → (z == x) ≡ false
    → elem z ys ≡ true
    → elem z (without x ys) ≡ true
elem-without x z [] h m = cc
elem-without x z (y ∷ ys) h m = ground (
  arith,
  elem-without x z ys,
  text_eq_instance.beq_iff x y,
  text_eq_instance.beq_iff z y,
  text_eq_instance.beq_iff z x,
)

abbrev Within : List String → List String → Type 0
Within ys xs = All (λ x. elem x ys ≡ true) xs

Within-without :
    (x : String) (xs ys : List String) → elem x xs ≡ false → Within ys xs → Within (without x ys) xs
Within-without x [] ys h m = tt
Within-without x (z ∷ xs) ys h m = ground (
  arith,
  Within-without x xs ys,
  elem-without x z ys,
  text_eq_instance.beq_iff z x,
  text_eq_instance.beq_iff x z,
)

-- Distinct elements of a list are no more than the list has.
length-le_of_Within : (xs ys : List String) → Unique xs → Within ys xs → length xs ≤ length ys
length-le_of_Within [] ys u m = omega arith
length-le_of_Within (x ∷ xs) ys u m = omega (
  arith,
  length-without x ys m.0,
  length-le_of_Within xs (without x ys) u.1 (Within-without x xs ys u.0 m.1),
)

contains-keys : (a : String) (specs : Specs) → elem a (keys specs) ≡ contains a specs
contains-keys a [] = refl
contains-keys a ((j, q) ∷ specs) = ground (arith, contains-keys a specs)

parent_of_missing :
    (a : String) (specs : Specs) → contains a specs ≡ false → parent_of specs a ≡ none
parent_of_missing a [] h = refl
parent_of_missing a ((j, q) ∷ specs) h = ground (arith, parent_of_missing a specs)

walk_end : (fuel : ℕ) (specs : Specs) (seen : List String) → walk (suc fuel) specs seen none ≢ none
unfolding walk
walk_end fuel specs seen h = cc

-- A queue that is no key has no parent, so the walk ends after it.
walk_from_missing :
    (fuel : ℕ) (specs : Specs) (seen : List String) (a : String)
    → contains a specs ≡ false
    → 0 < fuel
    → walk fuel specs seen (parent_of specs a) ≢ none
walk_from_missing zero specs seen a h p = absurd (omega arith)
walk_from_missing (suc fuel) specs seen a h p =
    rw (parent_of_missing a specs h) (walk_end fuel specs seen)

walk-ne-none :
    (fuel : ℕ) (specs : Specs) (seen : List String) (current : Option String)
    → Unique seen
    → Within (keys specs) seen
    → length specs + 2 ≤ fuel + length seen
    → walk fuel specs seen current ≢ none
unfolding walk
walk-ne-none zero specs seen current u m h = absurd (
    omega (
      arith,
      length-le_of_Within seen (keys specs) u m,
      length-map (λ (kv : String × QueueSpec). kv.0) specs,
    ))
walk-ne-none (suc fuel) specs seen none u m h = λ e. cc
walk-ne-none (suc fuel) specs seen (some a) u m h = elim (Bool-cases (elem a seen)) [
  | inl again ↦ ground arith
  | inr first ↦ elim (Bool-cases (contains a specs)) [
    | inl known ↦ rw first (
        walk-ne-none fuel specs (a ∷ seen) (parent_of specs a) (first, u)
          (contains-keys a specs ∙ known, m) (omega arith))
    | inr missing ↦ rw first (
        walk_from_missing fuel specs (a ∷ seen) a missing (
          omega (
            arith,
            length-le_of_Within seen (keys specs) u m,
            length-map (λ (kv : String × QueueSpec). kv.0) specs,
          )))
  ]
]

-- The cycle check of a queue never runs out of fuel, whatever the parents are.
pub walk-fuel_enough :
    (specs : Specs) (queue_id : String) → walk (walk_fuel specs) specs [] (some queue_id) ≢ none
walk-fuel_enough specs queue_id =
    walk-ne-none (walk_fuel specs) specs [] (some queue_id) tt tt (omega arith)

finished-eq-ok :
    (r : Option (Result (Unit {0}))) {u : Unit {0}} → finished r ≡ ok u → r ≡ some (ok tt)
finished-eq-ok none h = cc
finished-eq-ok (some (ok done)) h = refl
finished-eq-ok (some (raise e)) h = cc

walk_of_valid :
    (f : String → Result (Unit {0})) (ks : List String) (a : String) {u : Unit {0}}
    → check_each f ks ≡ ok u
    → elem a ks ≡ true
    → f a ≡ ok tt
walk_of_valid f [] a h m = cc
walk_of_valid f (k ∷ ks) a h m =
    let (_, here, rest) = >>=-eq-ok (f k) (λ _. check_each f ks) h in
    elim (Bool-cases (a == k)) [
      | inl same ↦ rw ((text_eq_instance.beq_iff a k).0 same) here
      | inr other ↦ walk_of_valid f ks a rest (ground arith)
    ]

-- What the constructor's checks leave: the queues of `h` passed the cycle check.
pub record IsAcyclic (h : QueueHierarchy) : Type 0 where
  pub checked : validate_acyclic h.specs ≡ ok tt

new_hierarchy-IsAcyclic :
    (queues : List QueueSpec) {h : QueueHierarchy} → new_hierarchy queues ≡ ok h → IsAcyclic h
unfolding new_hierarchy
new_hierarchy-IsAcyclic queues h = record { checked = ground arith }

-- In a hierarchy whose construction succeeded, the ancestors of a known queue are its whole chain
-- of parents, from the queue itself to one without a parent, and no queue stands in it twice.
pub new_hierarchy-ancestors :
    (queues : List QueueSpec) {h : QueueHierarchy} (queue_id : String)
    → new_hierarchy queues ≡ ok h
    → contains queue_id h.specs ≡ true
    → IsAncestry h.specs (some queue_id) (ancestors h queue_id) × Unique (ancestors h queue_id)
unfolding ancestors validate_acyclic
new_hierarchy-ancestors queues {h} queue_id made known =
    let valid = (new_hierarchy-IsAcyclic queues made).checked in
    let walked =
      finished-eq-ok _
        (walk_of_valid _ (keys h.specs) queue_id valid (contains-keys queue_id h.specs ∙ known)) in
    let (chain, _, unique) = climb_of_walk (walk_fuel h.specs) h.specs [] (some queue_id) walked in
    (chain, unique)
