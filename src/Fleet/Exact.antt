-- ===== src/Fleet/Exact.antt =====
-- The snapshots of `schedulable_node_snapshots` (gpu_scheduler_lab/fleet/events.py) against the
-- states of the fleet's timeline.
use gpu_scheduler_lab.Models.Cluster.{Cluster}
use gpu_scheduler_lab.Fleet.{
  differs_from_last, include_initial, future_events, initially_active, gpu_nodes, apply_event,
  same_time_next, append_snapshot, subset, set_equal, collect, FleetEvent,
  schedulable_node_snapshots,
}
use gpu_scheduler_lab.Prelude.{
  All-append, text_eq_instance, All-of_elem, ◌⊎◌, elem, any-append, arith, Bool-cases, All→all-true,
  ◌≡◌, ◌∷◌, Option, any, Bool, All, String, List, inr, inl, false, true, [], refl, ℕ,
}

-- The states that the active nodes pass through where the time of the events changes.
pub data Passes (gpu_node_ids : List String)
    : List String → List FleetEvent → List String → Type 0 where
  settles :
      (active : List String) (e : FleetEvent) (rest : List FleetEvent)
      → same_time_next e rest ≡ false
      → Passes gpu_node_ids active (e ∷ rest) (apply_event gpu_node_ids e active)
  goes_on :
      (active : List String) (e : FleetEvent) (rest : List FleetEvent) {s : List String}
      → Passes gpu_node_ids (apply_event gpu_node_ids e active) rest s
      → Passes gpu_node_ids active (e ∷ rest) s

module _ {ℓ} (gpu_node_ids : List String) (P : List String → Type ℓ) where
  All-append_snapshot :
      (s : List String) (snapshots : List (List String))
      → P s
      → All P snapshots
      → All P (append_snapshot s snapshots)
  All-append_snapshot s snapshots p h = elim (Bool-cases (differs_from_last snapshots s)) [
    | inl e ↦ rw e (All-append P snapshots (s ∷ []) h (p, tt))
    | inr e ↦ rw e h
  ]

  All-collect :
      (events : List FleetEvent) (active : List String) (snapshots : List (List String))
      → ((s : List String) → Passes gpu_node_ids active events s → P s)
      → All P snapshots
      → All P (collect gpu_node_ids events active snapshots)
  unfolding collect
  All-collect [] active snapshots f h = h
  All-collect (e ∷ rest) active snapshots f h = elim (Bool-cases (same_time_next e rest)) [
    | inl again ↦ rw again (
        All-collect rest (apply_event gpu_node_ids e active) snapshots
          (λ s p. f s (goes_on active e rest p)) h)
    | inr ends ↦ rw ends (
        All-collect rest (apply_event gpu_node_ids e active)
          (append_snapshot (apply_event gpu_node_ids e active) snapshots)
          (λ s p. f s (goes_on active e rest p))
          (All-append_snapshot (apply_event gpu_node_ids e active) snapshots
            (f (apply_event gpu_node_ids e active) (settles active e rest ends)) h))
  ]

-- Every snapshot is the fleet's first state or a state that it passes through where the time of
-- the events changes: none is a union of states that do not coexist.
pub schedulable_node_snapshots-Passes :
    (c : Cluster) (fleet_events : List FleetEvent) (after : Option ℕ)
    → All
        (λ s.
          (s ≡ initially_active c)
          ⊎ Passes (gpu_nodes c) (initially_active c) (future_events after fleet_events) s)
        (schedulable_node_snapshots c fleet_events after)
unfolding schedulable_node_snapshots
schedulable_node_snapshots-Passes c fleet_events after =
    All-collect (gpu_nodes c) _ (future_events after fleet_events) (initially_active c) _
      (λ s p. inr p)
      (elim (Bool-cases (include_initial after (future_events after fleet_events))) [
        | inl e ↦ rw e (inl refl, tt)
        | inr e ↦ rw e tt
      ])

subset_refl : (s : List String) → subset s s ≡ true
subset_refl s = All→all-true (λ x. elem x s) s (All-of_elem (λ x. elem x s ≡ true) s (λ a m. m))

pub set_equal_refl : (s : List String) → set_equal s s ≡ true
set_equal_refl s = ground (arith, subset_refl s)

-- Where a snapshot is not appended, the last one equals it.
any-last :
    (s : List String) (snapshots : List (List String))
    → differs_from_last snapshots s ≡ false
    → any (set_equal s) snapshots ≡ true
any-last s [] h = cc
any-last s (t ∷ []) h = ground arith
any-last s (t ∷ u ∷ rest) h = ground (arith, any-last s (u ∷ rest) h)

any-append_snapshot :
    (s : List String) (snapshots : List (List String))
    → any (set_equal s) (append_snapshot s snapshots) ≡ true
any-append_snapshot s snapshots = elim (Bool-cases (differs_from_last snapshots s)) [
  | inl e ↦ rw e (ground (arith, any-append (set_equal s) snapshots (s ∷ []), set_equal_refl s))
  | inr e ↦ rw e (any-last s snapshots e)
]

any-append_snapshot_keep :
    (p : List String → Bool) (s : List String) (snapshots : List (List String))
    → any p snapshots ≡ true
    → any p (append_snapshot s snapshots) ≡ true
any-append_snapshot_keep p s snapshots h = ground (arith, any-append p snapshots (s ∷ []))

module _ (gpu_node_ids : List String) where
  any-collect_keep :
      (p : List String → Bool) (events : List FleetEvent) (active : List String)
      (snapshots : List (List String))
      → any p snapshots ≡ true
      → any p (collect gpu_node_ids events active snapshots) ≡ true
  unfolding collect
  any-collect_keep p [] active snapshots h = h
  any-collect_keep p (e ∷ rest) active snapshots h =
      any-collect_keep p rest (apply_event gpu_node_ids e active) _
        (ground (arith, any-append_snapshot_keep p (apply_event gpu_node_ids e active) snapshots h))

  any-collect :
      {events : List FleetEvent} {active s : List String} (snapshots : List (List String))
      → Passes gpu_node_ids active events s
      → any (set_equal s) (collect gpu_node_ids events active snapshots) ≡ true
  unfolding collect
  any-collect snapshots (settles active e rest ends) = rw ends (
      any-collect_keep _ rest (apply_event gpu_node_ids e active) _
        (any-append_snapshot (apply_event gpu_node_ids e active) snapshots))
  any-collect snapshots (goes_on active e rest p) = any-collect _ p

-- Every state that the fleet passes through is among the snapshots, as a set.
pub schedulable_node_snapshots_complete :
    (c : Cluster) (fleet_events : List FleetEvent) (after : Option ℕ) (s : List String)
    → Passes (gpu_nodes c) (initially_active c) (future_events after fleet_events) s
    → any (set_equal s) (schedulable_node_snapshots c fleet_events after) ≡ true
unfolding schedulable_node_snapshots
schedulable_node_snapshots_complete c fleet_events after s p = any-collect (gpu_nodes c) _ p
