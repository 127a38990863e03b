-- ===== src/Schedulers/Topology/Sought.antt =====
-- How `TopologyAwareScheduler.place` (gpu_scheduler_lab/schedulers/topology.py) comes to a placement:
-- the nodes that it is sought on and the eligible GPUs that it is selected from.
use gpu_scheduler_lab.Models.Cluster.Drawn.{eligible_gpus-Within}
use native.Mathlib.Nat
use gpu_scheduler_lab.Schedulers.Topology.Counted.{UniqueNodes, count_of-proposals}
use gpu_scheduler_lab.Models.Cluster.Eligible.{
  clone_cluster-Offered, eligible_gpus-Offered, Offered,
}
use gpu_scheduler_lab.Schedulers.Topology.{proposals, candidate_placements}
use gpu_scheduler_lab.Schedulers.Topology.Sound.{
  All-proposals, select-Selected, add_candidates-Drawn, Selected, Drawn, All-filter_result,
}
use gpu_scheduler_lab.Schedulers.Topology.Place.{
  vendor_order, place, select, satisfies, filter_result, compare_eligible, first_placement,
  place_candidates, choose, Placement,
}
use gpu_scheduler_lab.Models.Job.{requested_gpu_count, Job}
use gpu_scheduler_lab.Models.Cluster.Allocation.{topologies_of, clone_cluster}
use gpu_scheduler_lab.Models.Cluster.{
  schedulable_gpus, Node, schedulable_nodes, eligible_gpus, Gpu, Cluster,
}
use gpu_scheduler_lab.Models.Accelerator.{Vendor}
use gpu_scheduler_lab.Prelude.{
  Bool, All-swap, count_of-sort, sym, count_of-take, text_eq_instance, count_of, All-take, ◌≤◌,
  All-zip, subst, ℕ, Within, ok-injective, leb, length, All-sort, ltb, sort, Bool-cases,
  Option-cases, >>=-eq-ok, arith, Result-cases, ◌∷◌, All, ◌≡◌, String, List, Result, inr, inl, ok,
  true, some, [],
}

-- What is known of the GPUs of a placement: each has a property, and if the ids of the nodes are
-- distinct, they are drawn from a list.
abbrev pub Kept : (Gpu → Type 0) → List Node → List Gpu → List Gpu → Type 0
Kept P ns source gs = All P gs × (UniqueNodes ns → Within gs source)

module _ (P : Gpu → Type 0) (candidate_cluster score_cluster : Cluster) (j : Job) where
  candidate_placements-Drawn :
      (eligible : List Gpu) (ns : List Node) (required : ℕ)
      → All P eligible
      → All (Drawn (Kept P ns eligible) required) (candidate_placements eligible ns required)
  unfolding candidate_placements
  candidate_placements-Drawn eligible ns required h =
      add_candidates-Drawn (Kept P ns eligible) required (proposals eligible ns) []
        (All-zip (proposals eligible ns)
          (λ gs all few. (
            All-take P required gs all,
            λ u p. Nat.le_trans (count_of-take p required gs) (few u p),
          ))
          (All-proposals P eligible ns h)
          (All-swap (λ (u : UniqueNodes ns) (gs : List Gpu). Within gs eligible)
            (proposals eligible ns)
            (λ u.
              All-swap (λ (p : Gpu → Bool) (gs : List Gpu). count_of p gs ≤ count_of p eligible)
                (proposals eligible ns) (λ p. count_of-proposals p eligible ns u))))
        tt

  choose-Selected :
      (eligible : List Gpu) {ids : List String}
      → choose candidate_cluster score_cluster j eligible ≡ ok (some ids)
      → All P eligible
      → Selected
          (Kept P (schedulable_nodes candidate_cluster) eligible)
          (schedulable_nodes candidate_cluster)
          j
          ids
  unfolding choose
  choose-Selected eligible {ids} e h =
      let ns : List Node = schedulable_nodes candidate_cluster in
      elim (Bool-cases (ltb (length eligible) (requested_gpu_count j))) [
        | inl few ↦ absurd (ground arith)
        | inr enough ↦
            let (feasible, made, last) =
              >>=-eq-ok
                (filter_result (satisfies j (topologies_of ns))
                  (candidate_placements eligible ns (requested_gpu_count j)))
                (λ feasible. ok (select score_cluster ns j feasible)) (ground arith) in
            select-Selected (Kept P ns eligible) score_cluster ns j feasible
              (All-filter_result (satisfies j (topologies_of ns))
                (Drawn (Kept P ns eligible) (requested_gpu_count j))
                (candidate_placements eligible ns (requested_gpu_count j)) made
                (candidate_placements-Drawn eligible ns (requested_gpu_count j) h))
              (ok-injective last)
      ]

  place_candidates-Selected :
      {ids : List String}
      → place_candidates candidate_cluster score_cluster j ≡ ok (some ids)
      → ((gs : List Gpu) → eligible_gpus candidate_cluster j ≡ ok gs → All P gs)
      → Selected
          (Kept P (schedulable_nodes candidate_cluster) (schedulable_gpus candidate_cluster))
          (schedulable_nodes candidate_cluster)
          j
          ids
  unfolding place_candidates
  place_candidates-Selected {ids} e f =
      let (offered, at, more) =
        >>=-eq-ok (eligible_gpus candidate_cluster j)
          (λ offered.
            choose candidate_cluster score_cluster j
              (sort (compare_eligible j.gpu_memory_gb) offered))
          e in
      let chosen =
        choose-Selected (sort (compare_eligible j.gpu_memory_gb) offered) more
          (All-sort (compare_eligible j.gpu_memory_gb) P offered (f offered at)) in
      record {
        placement = chosen.placement;
        named = chosen.named;
        drawn = (
          chosen.drawn.0,
          (
            chosen.drawn.1.0,
            λ u p. Nat.le_trans (chosen.drawn.1.1 u p) (
                subst (λ n. n ≤ count_of p (schedulable_gpus candidate_cluster))
                  (sym (count_of-sort p (compare_eligible j.gpu_memory_gb) offered))
                  (eligible_gpus-Within candidate_cluster j at p)),
          ),
        );
        satisfied = chosen.satisfied;
      }

-- The first placement that a vendor has was found for some vendor.
first_placement-found :
    (try : Vendor → Result Placement) (vendors : List Vendor) {ids : List String}
    → first_placement try vendors ≡ ok (some ids)
    → (v : Vendor) × (try v ≡ ok (some ids))
first_placement-found try [] e = cc
first_placement-found try (v ∷ vendors) {ids} e = elim (Result-cases (try v)) [
  | inr (error, failed) ↦ absurd (ground arith)
  | inl (placement, tried) ↦ elim (Option-cases placement) [
    | inl nothing ↦ first_placement-found try vendors (ground arith)
    | inr (found, same) ↦ (v, ground arith)
  ]
]

-- The nodes that a placement is sought on: the cluster's, or those of its clone for one vendor.
pub data View (c : Cluster) : Cluster → Type 0 where
  whole_cluster : View c c
  one_vendor : (v : Vendor) → View c (clone_cluster true (some v) c)

-- A placement is found on a view of the cluster, whose nodes' GPUs it is drawn from.
pub place-Selected :
    (c : Cluster) (j : Job) {ids : List String}
    → place c j ≡ ok (some ids)
    → (view : Cluster) × View c view
      × Selected
          (Kept (Offered c j) (schedulable_nodes view) (schedulable_gpus view))
          (schedulable_nodes view)
          j
          ids
unfolding place
place-Selected c j {ids} e = elim (Bool-cases (leb (requested_gpu_count j) 1)) [
  | inl one ↦ (
    c,
    whole_cluster,
    place_candidates-Selected (Offered c j) c c j (ground arith)
        (λ gs at. eligible_gpus-Offered c j at),
  )
  | inr several ↦
      let (vendors, ordered, more) =
        >>=-eq-ok (vendor_order c j)
          (first_placement (λ vendor. place_candidates (clone_cluster true (some vendor) c) c j))
          (ground arith) in
      let (v, found) =
        first_placement-found (λ vendor. place_candidates (clone_cluster true (some vendor) c) c j)
          vendors more in
      (
        clone_cluster true (some v) c,
        one_vendor v,
        place_candidates-Selected (Offered c j) (clone_cluster true (some v) c) c j found
            (λ gs at. clone_cluster-Offered (some v) c j at),
      )
]
