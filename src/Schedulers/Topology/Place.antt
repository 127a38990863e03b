-- ===== src/Schedulers/Topology/Place.antt =====
-- `TopologyAwareScheduler.place` and `_place_candidates`
-- (gpu_scheduler_lab/schedulers/topology.py).
use gpu_scheduler_lab.Models.Topology.{topology_requirement_satisfied, Labels}
use gpu_scheduler_lab.Schedulers.Topology.{compare_score, sorted_ids, score, candidate_placements}
use gpu_scheduler_lab.Models.Job.{requested_gpu_count, Job}
use gpu_scheduler_lab.Models.Cluster.Allocation.{topologies_of, clone_cluster}
use gpu_scheduler_lab.Models.Cluster.{
  gpu_by_id, schedulable_gpus, can_host, vendors_of, schedulable_nodes, eligible_gpus, Node, Gpu,
  Cluster,
}
use gpu_scheduler_lab.Models.Accelerator.{compare_vendor, Vendor}
use gpu_scheduler_lab.Prelude.{
  nat_eq, traverse, length, ltb, filter, map, compare_text, ◌-◌, minimum, sort, compare_ℕ, ◌∷◌,
  ◌>>=◌, leb, is_empty, and_then, String, if◌then◌else◌, Ordering, List, Dict, Bool, Result, Option,
  ok, true, some, none, [], ℕ,
}

-- A placement, none if the job has to wait.
abbrev pub Placement : Type 0
Placement = Option (List String)

-- `[x for x in xs if p(x)]`, where `p` may raise
abbrev pub filter_result {ℓ} : {A : Type ℓ} → (A → Result Bool) → List A → Result (List A)
filter_result p [] = ok []
filter_result p (x ∷ xs) = do
  keep ← p x
  rest ← filter_result p xs
  ok (if keep then x ∷ rest else rest)

abbrev pub compare_eligible : ℕ → Gpu → Gpu → Ordering
compare_eligible request a b =
    and_then (compare_ℕ (a.memory_capacity_gb - request) (b.memory_capacity_gb - request))
      (and_then (compare_text a.node_id b.node_id) (compare_text a.id b.id))

abbrev pub satisfies : Job → Dict String Labels → List Gpu → Result Bool
satisfies j topologies placement =
    topology_requirement_satisfied j.topology_mode (map (λ g. g.node_id) placement) topologies

-- `min(feasible, key=…)`, or nothing
abbrev pub select : Cluster → List Node → Job → List (List Gpu) → Placement
select score_cluster ns j [] = none
select score_cluster ns j (first ∷ rest) = some (
    sorted_ids (
      minimum (λ a b. compare_score (score score_cluster ns a j) (score score_cluster ns b j)) first
        rest))

-- What follows the sorting of the eligible GPUs.
unfoldable pub choose : Cluster → Cluster → Job → List Gpu → Result Placement
unfolding candidate_placements score
choose candidate_cluster score_cluster j eligible =
    let ns = schedulable_nodes candidate_cluster in
    if ltb (length eligible) (requested_gpu_count j) then ok none else (do
      feasible ←
          filter_result (satisfies j (topologies_of ns))
            (candidate_placements eligible ns (requested_gpu_count j))
      ok (select score_cluster ns j feasible))

unfoldable pub place_candidates : Cluster → Cluster → Job → Result Placement
unfolding choose
place_candidates candidate_cluster score_cluster j = do
  offered ← eligible_gpus candidate_cluster j
  choose candidate_cluster score_cluster j (sort (compare_eligible j.gpu_memory_gb) offered)

-- The vendors of a running job, or those of the GPUs that could host a new one.
abbrev pub vendor_order : Cluster → Job → Result (List Vendor)
vendor_order cluster j =
    if is_empty j.allocated_gpu_ids
    then ok
        (sort compare_vendor (vendors_of (filter (λ g. can_host g j) (schedulable_gpus cluster))))
    else (do
      allocated ← traverse (gpu_by_id cluster) j.allocated_gpu_ids
      ok (if nat_eq (length (vendors_of allocated)) 1 then vendors_of allocated else []))

-- The first placement among vendors.
abbrev pub first_placement : (Vendor → Result Placement) → List Vendor → Result Placement
first_placement try [] = ok none
first_placement try (vendor ∷ rest) =
    let later = first_placement try rest in
    try vendor >>= λ placement. elim placement [ none ↦ later | some ids ↦ ok (some ids) ]

unfoldable pub place : Cluster → Job → Result Placement
unfolding place_candidates clone_cluster
place cluster j = if leb (requested_gpu_count j) 1 then place_candidates cluster cluster j else (do
  vendors ← vendor_order cluster j
  first_placement (λ vendor. place_candidates (clone_cluster true (some vendor) cluster) cluster j)
      vendors)
