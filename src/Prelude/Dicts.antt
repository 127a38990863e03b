-- ===== src/Prelude/Dicts.antt =====
-- Python's dict as a list of its items in insertion order.
use mathlib.Core.Path.{◌≡◌, refl}
use mathlib.Core.Bool.{Bool, false, ◌||◌}
use mathlib.Core.Option.{Option, none, some}
use mathlib.Core.List.{List, [], ◌∷◌, ◌++◌, map}
use native.Mathlib.Omega.{arith}
use gpu_scheduler_lab.Prelude.Lists.{All, All-append}
use mathlib.Core.Logic.{inl, inr}
use gpu_scheduler_lab.Prelude.Logic.{Bool-cases, Eq, ◌==◌, if◌then◌else◌}

abbrev pub Dict {ℓ κ} : Type ℓ → Type κ → Type (ℓ ⊔ κ)
Dict K V = List (K × V)

module _ {ℓ κ} {K : Type ℓ} {V : Type κ} ⦃e : Eq K⦄ where
  -- `d.get(k)`
  abbrev pub lookup : K → Dict K V → Option V
  lookup k [] = none
  lookup k ((j, v) ∷ d) = if k == j then some v else lookup k d

  -- `d.get(k, v)`
  abbrev pub get_or : K → V → Dict K V → V
  get_or k v d = elim (lookup k d) [ none ↦ v | some w ↦ w ]

  -- `k in d`
  abbrev pub contains : K → Dict K V → Bool
  contains k [] = false
  contains k ((j, v) ∷ d) = k == j || contains k d

  -- `d[k] = v`: a key keeps its place.
  abbrev pub insert : K → V → Dict K V → Dict K V
  insert k v [] = (k, v) ∷ []
  insert k v ((j, w) ∷ d) = if k == j then (j, v) ∷ d else (j, w) ∷ insert k v d

  -- `d.pop(k, None)`
  abbrev pub remove : K → Dict K V → Dict K V
  remove k [] = []
  remove k ((j, w) ∷ d) = if k == j then d else (j, w) ∷ remove k d

module _ {ℓ κ} {K : Type ℓ} {V : Type κ} ⦃e : Eq K⦄ where
  -- `d.setdefault(k, []).append(v)`
  abbrev pub append_to : K → V → Dict K (List V) → Dict K (List V)
  append_to k v [] = (k, v ∷ []) ∷ []
  append_to k v ((j, vs) ∷ d) = if k == j then (j, vs ++ v ∷ []) ∷ d else (j, vs) ∷ append_to k v d

  abbrev pub group_onto : (V → K) → List V → Dict K (List V) → Dict K (List V)
  group_onto key [] d = d
  group_onto key (v ∷ vs) d = group_onto key vs (append_to (key v) v d)

  -- The values by their keys, in the order of each key's first value.
  unfoldable pub group_by : (V → K) → List V → Dict K (List V)
  group_by key vs = group_onto key vs []

module _ {ℓ κ} {K : Type ℓ} {V : Type κ} where
  abbrev pub keys : Dict K V → List K
  keys d = map (λ kv. kv.0) d

  abbrev pub values : Dict K V → List V
  values d = map (λ kv. kv.1) d

module _ {ℓ κ} {K : Type ℓ} {V : Type κ} ⦃e : Eq K⦄ where
  pub lookup-insert :
      (k j : K) (v : V) (d : Dict K V)
      → lookup j (insert k v d) ≡ (if k == j then some v else lookup j d)
  lookup-insert k j v [] = ground (arith, e.beq_iff k j, e.beq_iff j k)
  lookup-insert k j v ((i, w) ∷ d) =
      ground
        (arith, e.beq_iff k j, e.beq_iff j k, e.beq_iff k i, e.beq_iff j i, lookup-insert k j v d)

-- The keys of a dict stand in it once.
module _ {ℓ κ} {K : Type ℓ} {V : Type κ} ⦃e : Eq K⦄ where
  abbrev pub HasUniqueKeys : Dict K V → Type 0
  HasUniqueKeys [] = Unit
  HasUniqueKeys ((k, v) ∷ d) = (contains k d ≡ false) × HasUniqueKeys d

  pub lookup_absent : (k : K) (d : Dict K V) → contains k d ≡ false → lookup k d ≡ none
  lookup_absent k [] h = refl
  lookup_absent k ((j, v) ∷ d) h = ground (arith, lookup_absent k d)

  pub lookup-remove :
      (k j : K) (d : Dict K V)
      → HasUniqueKeys d
      → lookup j (remove k d) ≡ (if k == j then none else lookup j d)
  lookup-remove k j [] h = ground arith
  lookup-remove k j ((i, w) ∷ d) h = ground (
    arith,
    e.beq_iff k j,
    e.beq_iff j k,
    e.beq_iff k i,
    e.beq_iff j i,
    lookup_absent i d h.0,
    lookup-remove k j d h.1,
  )

  contains-insert :
      (k j : K) (v : V) (d : Dict K V) → contains j (insert k v d) ≡ (j == k || contains j d)
  contains-insert k j v [] = refl
  contains-insert k j v ((i, w) ∷ d) =
      ground
        (arith, e.beq_iff k j, e.beq_iff j k, e.beq_iff k i, e.beq_iff j i, contains-insert k j v d)

  pub insert-HasUniqueKeys :
      (k : K) (v : V) (d : Dict K V) → HasUniqueKeys d → HasUniqueKeys (insert k v d)
  insert-HasUniqueKeys k v [] h = (refl, tt)
  insert-HasUniqueKeys k v ((i, w) ∷ d) h = elim (Bool-cases (k == i)) [
    | inl same ↦ rw same h
    | inr other ↦ rw other (
      ground (arith, e.beq_iff k i, e.beq_iff i k, contains-insert k i v d),
      insert-HasUniqueKeys k v d h.1,
    )
  ]

module _ {ℓ κ μ} {K : Type ℓ} {V : Type κ} (P : V → Type μ) where
  pub All-values : (d : Dict K V) → All (λ item. P item.1) d → All P (values d)
  All-values [] h = tt
  All-values ((k, v) ∷ d) h = (h.0, All-values d h.1)

module _ {ℓ κ μ} {K : Type ℓ} {V : Type κ} ⦃e : Eq K⦄ (P : V → Type μ) where
  All-append_to :
      (k : K) (v : V) (d : Dict K (List V))
      → P v
      → All (λ item. All P item.1) d
      → All (λ item. All P item.1) (append_to k v d)
  All-append_to k v [] p h = ((p, tt), tt)
  All-append_to k v ((j, vs) ∷ d) p h = elim (Bool-cases (k == j)) [
    | inl e ↦ rw e (All-append P vs (v ∷ []) h.0 (p, tt), h.1)
    | inr e ↦ rw e (h.0, All-append_to k v d p h.1)
  ]

  All-group_onto :
      (key : V → K) (vs : List V) (d : Dict K (List V))
      → All P vs
      → All (λ item. All P item.1) d
      → All (λ item. All P item.1) (group_onto key vs d)
  All-group_onto key [] d p h = h
  All-group_onto key (v ∷ vs) d p h =
      All-group_onto key vs (append_to (key v) v d) p.1 (All-append_to (key v) v d p.0 h)

  -- Grouping keeps what holds of every value.
  pub All-group_by :
      (key : V → K) (vs : List V) → All P vs → All (λ item. All P item.1) (group_by key vs)
  unfolding group_by
  All-group_by key vs p = All-group_onto key vs [] p tt
