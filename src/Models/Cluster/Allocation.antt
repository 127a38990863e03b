-- ===== src/Models/Cluster/Allocation.antt =====
-- `Cluster.allocate`, `release`, `resize` and `clone` (gpu_scheduler_lab/models/cluster.py). A
-- GPU object is written through its id. `release` and `resize` can raise between their writes, so
-- what they leave behind comes back beside the error.
use gpu_scheduler_lab.Prelude.{
  String, text_eq_instance, Bool, true, false, ◌&&◌, ◌||◌, not, Option, none, some, List, [], ◌∷◌,
  map, ◌==◌, ltb, if◌then◌else◌, length, any, filter, elem, dedup, distinct, Dict, sort,
  compare_text, Result, ok, raise, value_error, runtime_error, ◌>>=◌, ◌>>◌, raise_if, traverse,
  ◌<>◌, nat_eq,
}
use gpu_scheduler_lab.Models.Accelerator.{Vendor, vendor_eq}
use gpu_scheduler_lab.Models.Topology.{Labels, topology_requirement_satisfied}
use gpu_scheduler_lab.Models.Job.{Job, requested_gpu_count}
use gpu_scheduler_lab.Models.Cluster.{
  Gpu, Node, Cluster, schedulable_gpus, gpu_by_id, can_host, vendors_of,
}

-- What a write does to each GPU, and through the nodes to the cluster.
abbrev pub write_where : (Gpu → Bool) → (Gpu → Gpu) → Gpu → Gpu
write_where p f g = if p g then f g else g

abbrev pub with_gpus : (List Gpu → List Gpu) → Node → Node
with_gpus f n = record n { gpus = f n.gpus }

abbrev pub map_gpus : (Gpu → Gpu) → Cluster → Cluster
map_gpus f c = record { nodes = map (with_gpus (map f)) c.nodes }

abbrev pub update_gpu : String → (Gpu → Gpu) → Cluster → Cluster
update_gpu gpu_id f = map_gpus (write_where (λ g. g.id == gpu_id) f)

-- `gpu.owner_job_id = job.id; gpu.allocated_memory_gb = job.gpu_memory_gb`
abbrev pub take_ownership : Job → Gpu → Gpu
take_ownership j g = record g { owner_job_id = some j.id; allocated_memory_gb = j.gpu_memory_gb }

-- `gpu.owner_job_id = None; gpu.allocated_memory_gb = 0.0`
abbrev pub give_up : Gpu → Gpu
give_up g = record g { owner_job_id = none; allocated_memory_gb = 0 }

unfoldable pub assign : Job → List String → Cluster → Cluster
assign j [] c = c
assign j (gpu_id ∷ rest) c = assign j rest (update_gpu gpu_id (take_ownership j) c)

abbrev pub topologies_of : List Node → Dict String Labels
topologies_of nodes = map (λ n. (n.id, n.topology)) nodes

abbrev pub is_available : Cluster → Job → Gpu → Bool
is_available c j g = elem g.id (map (λ h. h.id) (schedulable_gpus c)) && can_host g j

-- The checks of `allocate`, which come before its writes.
unfoldable pub check_placement : Cluster → Job → List String → Result (Unit {0})
check_placement c j selected_ids = do
  raise_if
      (not (nat_eq (length selected_ids) (requested_gpu_count j)) || not (distinct selected_ids))
      (value_error "placement must contain exactly the requested number of unique GPUs")
  selected ← traverse (gpu_by_id c) selected_ids
  raise_if (ltb 1 (length (vendors_of selected)))
      (value_error "placement must not mix accelerator vendors")
  raise_if (any (λ g. not (is_available c j g)) selected)
      (value_error "placement contains an unavailable or undersized GPU")
  satisfied ←
      topology_requirement_satisfied j.topology_mode (map (λ g. g.node_id) selected)
        (topologies_of c.nodes)
  raise_if (not satisfied) (value_error "placement violates the job topology requirement")

unfoldable pub allocate : Cluster → Job → List String → Result (Cluster × Job)
unfolding assign
allocate c j selected_ids = do
  check_placement c j selected_ids
  ok (assign j selected_ids c, record j { allocated_gpu_ids = selected_ids })

abbrev pub owned_by : String → Gpu → Bool
owned_by job_id g = elim g.owner_job_id [ none ↦ false | some owner ↦ owner == job_id ]

-- The loop over the GPUs to give up, which stops at one that the job does not own.
unfoldable pub release_gpus : String → List String → Cluster → Result (Unit {0}) × Cluster
release_gpus job_id [] c = (ok tt, c)
release_gpus job_id (gpu_id ∷ rest) c =
    let after = release_gpus job_id rest (update_gpu gpu_id give_up c) in
    elim (gpu_by_id c gpu_id) [
      | raise e ↦ (raise e, c)
      | ok g ↦
          if owned_by job_id g
          then after
          else (raise (runtime_error ("GPU ownership mismatch for " <> g.id)), c)
    ]

-- `job.allocated_gpu_ids` is cleared only when every GPU was given up.
abbrev pub finish_release : Job → Result (Unit {0}) × Cluster → Result (Unit {0}) × Cluster × Job
finish_release j (ok done, c) = (ok tt, c, record j { allocated_gpu_ids = [] })
finish_release j (raise e, c) = (raise e, c, j)

unfoldable pub release : Cluster → Job → Result (Unit {0}) × Cluster × Job
unfolding release_gpus
release c j = finish_release j (release_gpus j.id j.allocated_gpu_ids c)

-- `sorted(a - b)` for sets
abbrev pub sorted_difference : List String → List String → List String
sorted_difference a b = sort compare_text (filter (λ x. not (elem x b)) (dedup a))

-- The loop over the GPUs that the job would gain.
unfoldable pub check_growth : Cluster → Job → List String → Result (Unit {0})
check_growth c j [] = ok tt
check_growth c j (gpu_id ∷ rest) = do
  g ← gpu_by_id c gpu_id
  raise_if (not (elem gpu_id (map (λ h. h.id) (schedulable_gpus c))) || not (can_host g j))
      (value_error "resize contains an unavailable or undersized GPU")
  check_growth c j rest

-- The checks of `resize`, which come before its writes.
unfoldable pub check_resize : Cluster → Job → List String → Result (Unit {0})
unfolding check_growth
check_resize c j target = do
  raise_if (not (distinct target)) (value_error "resize placement must contain unique GPUs")
  selected ← traverse (gpu_by_id c) target
  raise_if (ltb 1 (length (vendors_of selected)))
      (value_error "resize placement must not mix accelerator vendors")
  satisfied ←
      topology_requirement_satisfied j.topology_mode (map (λ g. g.node_id) selected)
        (topologies_of c.nodes)
  raise_if (not satisfied) (value_error "resize placement violates the job topology requirement")
  check_growth c j (sorted_difference target j.allocated_gpu_ids)

abbrev pub finish_resize :
    Job → List String → Result (Unit {0}) × Cluster → Result (Unit {0}) × Cluster × Job
finish_resize j target (raise e, c) = (raise e, c, j)
finish_resize j target (ok done, c) = (
  ok tt,
  assign j (sorted_difference target j.allocated_gpu_ids) c,
  record j { allocated_gpu_ids = target },
)

abbrev pub resize_checked :
    Cluster → Job → List String → Result (Unit {0}) → Result (Unit {0}) × Cluster × Job
resize_checked c j target (raise e) = (raise e, c, j)
resize_checked c j target (ok checked) =
    finish_resize j target (release_gpus j.id (sorted_difference j.allocated_gpu_ids target) c)

unfoldable pub resize : Cluster → Job → List String → Result (Unit {0}) × Cluster × Job
unfolding release_gpus assign check_resize
resize c j target = resize_checked c j target (check_resize c j target)

abbrev pub keeps_vendor : Option Vendor → Gpu → Bool
keeps_vendor none g = true
keeps_vendor (some vendor) g = g.vendor == vendor

abbrev pub clone_gpus : Bool → Option Vendor → List Gpu → List Gpu
clone_gpus preserve_allocations vendor gs =
    map (λ g. if preserve_allocations then g else give_up g) (filter (keeps_vendor vendor) gs)

-- `Cluster.clone(preserve_allocations=…, vendor=…)`. A clone of a valid cluster is valid.
unfoldable pub clone_cluster : Bool → Option Vendor → Cluster → Cluster
clone_cluster preserve_allocations vendor c = record {
  nodes = map (with_gpus (clone_gpus preserve_allocations vendor)) c.nodes;
}
