-- ===== src/Simulator/Reclaiming.antt =====
-- How a job that is owed capacity takes it back (gpu_scheduler_lab/simulator/engine.py): a plan
-- for one vendor shrinks elastic jobs first and preempts others then, on a projected cluster with
-- copies of the jobs.
pub mod Planning
pub mod Committing
pub mod Taken
pub mod Rounds
use gpu_scheduler_lab.Schedulers.Topology.Place.{filter_result}
use gpu_scheduler_lab.Fleet.{set_add}
use gpu_scheduler_lab.Models.Cluster.Allocation.{give_up, clone_cluster, update_gpu}
use gpu_scheduler_lab.Models.Accelerator.{vendor_eq, compare_vendor, Vendor}
use gpu_scheduler_lab.Simulator.Preempting.{compare_lists, compare_victim, VictimKey}
use gpu_scheduler_lab.Models.Job.{Job}
use gpu_scheduler_lab.Models.Cluster.{gpu_by_id, Cluster}
use gpu_scheduler_lab.Prelude.{
  is_empty, if◌then◌else◌, compare_text, ◌>>=◌, ◌==◌, length, elem, compare_fraction, ◌++◌,
  text_eq_instance, not, ltb, compare_ℕ, Result, ◌∷◌, values, remove, insert, filter, and_then,
  Dict, Bool, String, Ordering, List, Fraction, ok, false, true, some, none, [], ℕ,
}

-- `_ReclaimActionKey`
pub record ActionKey : Type 0 where
  pub priority : ℕ
  pub action_rank : ℕ
  pub remaining_runtime : Fraction
  pub disruption_cost : ℕ
  pub job_id : String
  pub gpu_id : String

abbrev pub compare_action_key : ActionKey → ActionKey → Ordering
compare_action_key a b = and_then (compare_ℕ a.priority b.priority) (
    and_then (compare_ℕ a.action_rank b.action_rank) (
      and_then (compare_fraction a.remaining_runtime b.remaining_runtime) (
        and_then (compare_ℕ a.disruption_cost b.disruption_cost)
          (and_then (compare_text a.job_id b.job_id) (compare_text a.gpu_id b.gpu_id)))))

-- `_discard_plan_action_keys`
abbrev pub discard_plan_action_keys : List (String × ActionKey) → String → List (String × ActionKey)
discard_plan_action_keys action_keys job_id = filter (λ item. not (item.0 == job_id)) action_keys

-- The local variables of `_plan_reclaim_for_vendor`.
pub record Projection : Type 0 where
  pub projected : Cluster
  pub projected_jobs : Dict String Job
  pub planned_targets : Dict String (List String)
  pub preempted_ids : List String
  pub plan_action_keys : List (String × ActionKey)
  pub entitlement_queue_ids : List String

-- A job with the GPUs of one vendor that it holds, if it holds any.
abbrev pub project_job : Cluster → Vendor → Job → Result (Dict String Job)
project_job c vendor j = do
  held ←
      filter_result (λ gpu_id. gpu_by_id c gpu_id >>= λ g. ok (g.vendor == vendor))
        j.allocated_gpu_ids
  ok (
      if is_empty held
      then []
      else (j.id, record j { allocated_gpu_ids = held; current_replicas = length held }) ∷ [])

abbrev pub project_jobs : Cluster → Vendor → List Job → Result (Dict String Job)
project_jobs c vendor [] = ok []
project_jobs c vendor (j ∷ rest) = do
  here ← project_job c vendor j
  later ← project_jobs c vendor rest
  ok (here ++ later)

abbrev pub initial_projection : Cluster → Vendor → Dict String Job → Projection
initial_projection c vendor jobs = record {
  projected = clone_cluster true (some vendor) c;
  projected_jobs = jobs;
  planned_targets = [];
  preempted_ids = [];
  plan_action_keys = [];
  entitlement_queue_ids = [];
}

-- `projected_allocated`. The dict of the projected jobs is in the order of the allocated jobs.
abbrev pub projected_allocated : Projection → List Job
projected_allocated p = values (filter (λ item. not (elem item.0 p.preempted_ids)) p.projected_jobs)

abbrev pub put_projected : Job → Projection → Projection
put_projected j p = record p { projected_jobs = insert j.id j p.projected_jobs }

abbrev pub put_all_projected : List Job → Projection → Projection
put_all_projected [] p = p
put_all_projected (j ∷ rest) p = put_all_projected rest (put_projected j p)

-- A GPU that the plan takes from an elastic job.
pub record ElasticAction : Type 0 where
  pub priority : ℕ
  pub weight : ℕ
  pub remaining : Fraction
  pub disruption : ℕ
  pub job_id : String
  pub gpu_id : String
  pub entitlement : String

-- The heavier GPU stands first.
abbrev pub compare_elastic : ElasticAction → ElasticAction → Ordering
compare_elastic a b = and_then (compare_ℕ a.priority b.priority) (
    and_then (compare_ℕ b.weight a.weight) (
      and_then (compare_fraction a.remaining b.remaining) (
        and_then (compare_ℕ a.disruption b.disruption)
          (and_then (compare_text a.job_id b.job_id) (compare_text a.gpu_id b.gpu_id)))))

-- A job that the plan preempts.
pub record VictimAction : Type 0 where
  pub key : VictimKey
  pub entitlement : String

abbrev pub compare_victim_action : VictimAction → VictimAction → Ordering
compare_victim_action a b = compare_victim a.key b.key

abbrev pub may_shrink : Job → Bool
may_shrink j = elim j.elastic [ none ↦ false | some e ↦ ltb e.min_replicas j.current_replicas ]

-- The plan after a GPU was taken from an elastic job.
abbrev pub without_gpu : String → Job → Job
without_gpu gpu_id j = record j {
  allocated_gpu_ids = filter (λ item. not (item == gpu_id)) j.allocated_gpu_ids;
  current_replicas = length (filter (λ item. not (item == gpu_id)) j.allocated_gpu_ids);
}

abbrev pub elastic_key : ElasticAction → ActionKey
elastic_key a = record {
  priority = a.priority;
  action_rank = 0;
  remaining_runtime = a.remaining;
  disruption_cost = a.disruption;
  job_id = a.job_id;
  gpu_id = a.gpu_id;
}

abbrev pub take_gpu : ElasticAction → Job → Projection → Projection
take_gpu a j p =
    let shrunk : Job = without_gpu a.gpu_id j in
    record (put_projected shrunk p) {
      projected = update_gpu a.gpu_id give_up p.projected;
      planned_targets = insert a.job_id shrunk.allocated_gpu_ids p.planned_targets;
      plan_action_keys = p.plan_action_keys ++ (a.job_id, elastic_key a) ∷ [];
      entitlement_queue_ids = set_add a.entitlement p.entitlement_queue_ids;
    }

abbrev pub preempted_key : VictimAction → ActionKey
preempted_key a = record {
  priority = a.key.priority;
  action_rank = 1;
  remaining_runtime = a.key.remaining;
  disruption_cost = a.key.disruption;
  job_id = a.key.job_id;
  gpu_id = "";
}

abbrev pub give_up_all : List String → Cluster → Cluster
give_up_all [] c = c
give_up_all (gpu_id ∷ rest) c = give_up_all rest (update_gpu gpu_id give_up c)

-- The plan after a job was preempted, which makes its earlier reductions void.
abbrev pub take_job : VictimAction → Job → Projection → Projection
take_job a j p =
    record (put_projected (record j { allocated_gpu_ids = []; current_replicas = 0 }) p) {
      projected = give_up_all j.allocated_gpu_ids p.projected;
      planned_targets = remove a.key.job_id p.planned_targets;
      preempted_ids = p.preempted_ids ++ a.key.job_id ∷ [];
      plan_action_keys =
          discard_plan_action_keys p.plan_action_keys a.key.job_id
          ++ (a.key.job_id, preempted_key a) ∷ [];
      entitlement_queue_ids = set_add a.entitlement p.entitlement_queue_ids;
    }

-- `_ReclaimPlan`, with its score's components
pub record ReclaimPlan : Type 0 where
  pub action_keys : List ActionKey
  pub disruption : ℕ
  pub elastic_reductions : ℕ
  pub vendor : Vendor
  pub planned_targets : Dict String (List String)
  pub preempted_ids : List String
  pub entitlement_queue_ids : List String
  pub placement : List String

abbrev pub compare_reclaim_plan : ReclaimPlan → ReclaimPlan → Ordering
compare_reclaim_plan a b = and_then (compare_lists compare_action_key a.action_keys b.action_keys) (
    and_then (compare_ℕ a.disruption b.disruption) (
      and_then (compare_ℕ (length a.preempted_ids) (length b.preempted_ids)) (
        and_then (compare_ℕ a.elastic_reductions b.elastic_reductions) (
          and_then (compare_lists compare_text a.preempted_ids b.preempted_ids)
            (compare_vendor a.vendor b.vendor)))))
