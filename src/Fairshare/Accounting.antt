-- ===== src/Fairshare/Accounting.antt =====
-- `AccountingPolicy` (gpu_scheduler_lab/fairshare/accounting.py). Weights are counted in
-- billionths, and a model without a weight weighs one.
use gpu_scheduler_lab.Models.Accelerator.{vendor_eq}
use gpu_scheduler_lab.Models.Elastic.{unit}
use gpu_scheduler_lab.Queues.Resource.{ResourceVector}
use gpu_scheduler_lab.Models.Job.{Job}
use gpu_scheduler_lab.Models.Cluster.{
  is_compatible, gpu_by_id, total_memory_gb, schedulable_gpus, gpus, Gpu, Cluster,
}
use gpu_scheduler_lab.Prelude.{
  ◌||◌, ◌*◌, map, group_by, ◌==◌, values, minimum, compare_ℕ, ◌∷◌, traverse, text_eq_instance, sort,
  length, any, ◌>>=◌, value_error, take, raise_if, leb, ◌>>◌, sum_of, get_or, filter, String,
  Result, List, Dict, raise, ok, [], ℕ,
}

pub record AccountingPolicy : Type 0 where
  pub model_weights : Dict String ℕ

-- `AccountingPolicy.__post_init__`
unfoldable pub new_accounting : AccountingPolicy → Result AccountingPolicy
new_accounting policy = do
  raise_if (any (λ item. item.0 == "" || leb item.1 0) policy.model_weights)
      (value_error "accounting model weights must be finite and positive")
  ok policy

abbrev pub weight_of : AccountingPolicy → Gpu → ℕ
weight_of policy g = get_or g.model unit policy.model_weights

-- `allocation` of given GPUs; those of the job are passed where the source passes none
unfoldable pub allocation : AccountingPolicy → Job → Cluster → List String → Result ResourceVector
allocation policy j cluster gpu_ids = do
  selected ← traverse (gpu_by_id cluster) gpu_ids
  ok (record {
    gpu_units = sum_of (weight_of policy) selected;
    gpu_memory_gb = j.gpu_memory_gb * length gpu_ids;
  })

-- The least that a number of a group's GPUs weigh.
abbrev least_units : AccountingPolicy → ℕ → List Gpu → ℕ
least_units policy replicas group =
    sum_of (λ w. w) (take replicas (sort compare_ℕ (map (weight_of policy) group)))

abbrev viable_groups : Job → List Gpu → ℕ → List (List Gpu)
viable_groups j gs replicas =
    filter (λ group. leb replicas (length group))
      (values (group_by (λ g. g.vendor) (filter (λ g. is_compatible g j) gs)))

-- `minimum_demand`
unfoldable pub minimum_demand : AccountingPolicy → Job → List Gpu → ℕ → Result ResourceVector
minimum_demand policy j gs replicas = elim (viable_groups j gs replicas) [
  | [] ↦ raise (value_error "insufficient compatible GPUs for accounting demand")
  | group ∷ rest ↦ ok (record {
    gpu_units =
        minimum compare_ℕ (least_units policy replicas group)
          (map (least_units policy replicas) rest);
    gpu_memory_gb = replicas * j.gpu_memory_gb;
  })
]

-- `demand` of a number of replicas
unfoldable pub demand_of : AccountingPolicy → Job → Cluster → ℕ → Result ResourceVector
unfolding minimum_demand
demand_of policy j cluster replicas = minimum_demand policy j (gpus cluster) replicas

-- `capacity`
unfoldable pub capacity_of : AccountingPolicy → Cluster → ResourceVector
capacity_of policy cluster = record {
  gpu_units = sum_of (weight_of policy) (schedulable_gpus cluster);
  gpu_memory_gb = total_memory_gb cluster;
}
