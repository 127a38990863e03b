-- ===== src/Models/Cluster.antt =====
-- gpu_scheduler_lab/models/cluster.py: GPUs, nodes and the cluster, and what they offer. The
-- source keeps an index of the GPU objects by their ids; here a GPU is looked up in its node.
pub mod Allocation
pub mod Writes
pub mod Ownership
pub mod Roundtrip
pub mod Checks
pub mod Freed
pub mod Resized
pub mod Refusals
pub mod Refines
pub mod Eligible
pub mod Drawn
use gpu_scheduler_lab.Prelude.{
  ℕ, String, text_eq_instance, Bool, true, false, ◌&&◌, ◌||◌, not, Option, none, some, List, [],
  ◌∷◌, map, ◌==◌, ltb, leb, if◌then◌else◌, length, any, all, filter, find, sum_of, count_of,
  is_empty, flat_map, elem, dedup, distinct, Dict, group_by, sort, Result, ok, raise, key_error,
  value_error, ◌>>=◌, ◌>>◌, raise_if, or_raise, traverse, check_each, ◌<>◌, nat_eq, Ordering,
}
use gpu_scheduler_lab.Models.Accelerator.{
  Vendor, unknown, Kind, vendor_supports_kind, vendor_eq, kind_eq, compare_vendor,
}
use gpu_scheduler_lab.Models.Topology.{Labels}
use gpu_scheduler_lab.Models.Job.{Job, requested_gpu_count}

pub record Gpu : Type 0 where
  pub id : String
  pub node_id : String
  pub memory_capacity_gb : ℕ
  pub model : String
  pub vendor : Vendor
  pub kind : Kind
  pub runtime_profiles : List String
  pub capabilities : List String
  pub accelerator_metadata_inferred : Bool
  pub allocated_memory_gb : ℕ
  pub owner_job_id : Option String

pub record Node : Type 0 where
  pub id : String
  pub gpus : List Gpu
  pub schedulable : Bool
  pub topology : Labels
  pub revocable : Bool
  pub draining : Bool
  pub available : Bool

pub record Cluster : Type 0 where
  pub nodes : List Node

-- `GPU.__post_init__`
unfoldable pub new_gpu : Gpu → Result Gpu
new_gpu g = do
  raise_if (not (g.vendor == unknown) && not (vendor_supports_kind g.vendor g.kind))
      (value_error "vendor and kind must form a supported accelerator pair")
  raise_if (g.id == "") (value_error "gpu id must not be empty")
  raise_if (leb g.memory_capacity_gb 0) (value_error "GPU memory capacity must be positive")
  raise_if (g.model == "") (value_error "GPU model must not be empty")
  raise_if (any (λ p. p == "") g.runtime_profiles)
      (value_error "runtime_profiles must not contain empty values")
  raise_if (not (distinct g.runtime_profiles))
      (value_error "runtime_profiles must not contain duplicates")
  raise_if (any (λ c. c == "") g.capabilities)
      (value_error "capabilities must not contain empty values")
  raise_if (not (distinct g.capabilities)) (value_error "capabilities must not contain duplicates")
  ok g

abbrev pub occupied : Gpu → Bool
occupied g = elim g.owner_job_id [ none ↦ false | some _ ↦ true ]

abbrev pub free : Gpu → Bool
free g = not (occupied g)

-- `not allowed or value in allowed`
abbrev unrestricted_or {ℓ} : {A : Type ℓ} → List A → Bool → Bool
unrestricted_or allowed found = is_empty allowed || found

abbrev is_none_or : Option String → (String → Bool) → Bool
is_none_or none p = true
is_none_or (some value) p = p value

-- `GPU.is_compatible` on a job
unfoldable pub is_compatible : Gpu → Job → Bool
is_compatible g j =
    is_none_or j.gpu_model (λ m. g.model == m)
    && unrestricted_or j.allowed_gpu_models (elem g.model j.allowed_gpu_models)
    && unrestricted_or j.allowed_models (elem g.model j.allowed_models)
    && unrestricted_or j.allowed_vendors (elem g.vendor j.allowed_vendors)
    && unrestricted_or j.allowed_kinds (elem g.kind j.allowed_kinds)
    && all (λ c. elem c g.capabilities) j.required_capabilities
    && is_none_or j.runtime_profile (λ p. elem p g.runtime_profiles)
    && leb j.gpu_memory_gb g.memory_capacity_gb

-- `GPU.is_compatible` on an amount of memory
abbrev pub fits_memory : Gpu → ℕ → Bool
fits_memory g request = leb request g.memory_capacity_gb

abbrev pub can_host : Gpu → Job → Bool
can_host g j = free g && is_compatible g j

abbrev pub occupied_gpu_count : Node → ℕ
occupied_gpu_count n = count_of occupied n.gpus

abbrev pub free_gpu_count : Node → ℕ
free_gpu_count n = count_of free n.gpus

abbrev pub gpus : Cluster → List Gpu
gpus c = flat_map (λ n. n.gpus) c.nodes

abbrev pub is_schedulable : Node → Bool
is_schedulable n = not (is_empty n.gpus) && n.schedulable && n.available

abbrev pub schedulable_nodes : Cluster → List Node
schedulable_nodes c = filter is_schedulable c.nodes

-- Capacity that exists now: a draining node counts while it has running work.
abbrev pub is_active : Node → Bool
is_active n =
    not (is_empty n.gpus) && n.available && (n.schedulable || (n.draining && any occupied n.gpus))

abbrev pub active_nodes : Cluster → List Node
active_nodes c = filter is_active c.nodes

unfoldable pub active_gpus : Cluster → List Gpu
active_gpus c = flat_map (λ n. filter (λ g. n.schedulable || occupied g) n.gpus) (active_nodes c)

abbrev pub schedulable_gpus : Cluster → List Gpu
schedulable_gpus c = flat_map (λ n. n.gpus) (schedulable_nodes c)

abbrev pub physical_gpu_count : Cluster → ℕ
physical_gpu_count c = sum_of (λ n. length n.gpus) c.nodes

abbrev pub physical_memory_gb : Cluster → ℕ
physical_memory_gb c = sum_of (λ g. g.memory_capacity_gb) (gpus c)

abbrev pub total_gpu_count : Cluster → ℕ
total_gpu_count c = length (schedulable_gpus c)

abbrev pub total_memory_gb : Cluster → ℕ
total_memory_gb c = sum_of (λ g. g.memory_capacity_gb) (schedulable_gpus c)

-- `Cluster.__post_init__`
unfoldable pub new_cluster : List Node → Result Cluster
new_cluster nodes = do
  let c : Cluster = record { nodes = nodes }
  raise_if (not (distinct (map (λ n. n.id) nodes))) (value_error "node ids must be unique")
  raise_if (not (distinct (map (λ g. g.id) (gpus c)))) (value_error "GPU ids must be unique")
  check_each
      (λ n.
        raise_if (any (λ g. not (g.node_id == n.id)) n.gpus)
          (value_error ("GPU node_id must match containing node " <> n.id)))
      nodes
  ok c

abbrev pub find_gpu : String → List Gpu → Option Gpu
find_gpu gpu_id gs = find (λ g. g.id == gpu_id) gs

unfoldable pub gpu_by_id : Cluster → String → Result Gpu
gpu_by_id c gpu_id = or_raise (find_gpu gpu_id (gpus c)) (key_error gpu_id)

abbrev pub first_group : Dict Vendor (List Gpu) → List Gpu
first_group [] = []
first_group (item ∷ rest) = item.1

-- The vendor whose candidates suffice, the first by its name.
abbrev pub first_feasible : ℕ → Dict Vendor (List Gpu) → List Gpu
first_feasible required by_vendor =
    first_group (
      filter (λ item. leb required (length item.1))
        (sort (λ a b. compare_vendor a.0 b.0) by_vendor))

abbrev pub vendors_of : List Gpu → List Vendor
vendors_of gs = dedup (map (λ g. g.vendor) gs)

-- The candidates of the one vendor that a growing job runs on.
abbrev pub of_vendor : List Vendor → List Gpu → Result (List Gpu)
of_vendor [] candidates = ok []
of_vendor (vendor ∷ []) candidates = ok (filter (λ g. g.vendor == vendor) candidates)
of_vendor (vendor ∷ other ∷ rest) candidates = ok []

-- `Cluster.eligible_gpus` on a job
unfoldable pub eligible_gpus : Cluster → Job → Result (List Gpu)
eligible_gpus c j =
    let candidates = filter (λ g. can_host g j) (schedulable_gpus c) in
    if not (is_empty j.allocated_gpu_ids)
    then (do
      allocated ← traverse (gpu_by_id c) j.allocated_gpu_ids
      of_vendor (vendors_of allocated) candidates)
    else if leb (requested_gpu_count j) 1
    then ok candidates
    else ok (first_feasible (requested_gpu_count j) (group_by (λ g. g.vendor) candidates))
