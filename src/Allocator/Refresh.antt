-- ===== src/Allocator/Refresh.antt =====
-- `prepare`, `refresh_usage` and `on_job_started`
-- (gpu_scheduler_lab/allocation/allocator.py).
use gpu_scheduler_lab.Queues.Resource.{◌⊞◌}
use gpu_scheduler_lab.Queues.Spec.{QueueSpec}
use gpu_scheduler_lab.Queues.Hierarchy.{aggregate_usage, usage_of, ancestors, Usage}
use gpu_scheduler_lab.Models.Job.{status_eq, priority_value, running, Job}
use gpu_scheduler_lab.Models.Cluster.{Cluster}
use gpu_scheduler_lab.Fairshare.History.{integrate, debt, Decay}
use gpu_scheduler_lab.Fairshare.Accounting.{capacity_of, allocation, AccountingPolicy}
use gpu_scheduler_lab.Allocator.{queue_usage, sync_rates, siblings, queue_spec, FairShare}
use gpu_scheduler_lab.Prelude.{
  ◌++◌, sort, leb, ◌-◌, ltb, flat_map, compare_text, ◌&&◌, text_eq_instance, min, insert, dedup,
  traverse, is_empty, if◌then◌else◌, group_by, compare_ℕ, ◌∷◌, ◌>>=◌, ◌==◌, not, map, filter,
  and_then, Fraction, Dict, Result, Ordering, List, Bool, String, ok, false, some, none, [], ℕ,
}

abbrev holds_gpus : Job → Bool
holds_gpus j = not (is_empty j.allocated_gpu_ids)

-- The sum of the jobs' allocations by their queues.
abbrev pub charge_jobs : AccountingPolicy → Cluster → List Job → Usage → Result Usage
charge_jobs accounting cluster [] direct = ok direct
charge_jobs accounting cluster (j ∷ rest) direct =
    if is_empty j.allocated_gpu_ids then charge_jobs accounting cluster rest direct else (do
      charged ← allocation accounting j cluster j.allocated_gpu_ids
      charge_jobs accounting cluster rest
          (insert j.queue_id (usage_of direct j.queue_id ⊞ charged) direct))

abbrev set_borrowed : String → ℕ → List Job → List Job
set_borrowed job_id amount jobs =
    map (λ j. if j.id == job_id then record j { borrowed_gpu_units = amount } else j) jobs

abbrev compare_borrowers : Job → Job → Ordering
compare_borrowers a b =
    and_then (compare_ℕ (priority_value a.priority) (priority_value b.priority))
      (compare_text a.id b.id)

-- The loop that shares what a queue borrows among its jobs, those of low priority first.
abbrev pub share_borrowed : AccountingPolicy → Cluster → ℕ → List Job → List Job → Result (List Job)
share_borrowed accounting cluster borrowed [] jobs = ok jobs
share_borrowed accounting cluster borrowed (j ∷ rest) jobs = do
  charged ← allocation accounting j cluster j.allocated_gpu_ids
  let taken : ℕ = min charged.gpu_units borrowed
  let after = set_borrowed j.id taken jobs
  let later = share_borrowed accounting cluster (borrowed - taken) rest after
  (if leb (borrowed - taken) 0 then ok after else later)

abbrev share_queue : FairShare → Cluster → Usage → String × List Job → List Job → Result (List Job)
share_queue s cluster direct (queue_id, queue_jobs) jobs = do
  q ← queue_spec s queue_id
  share_borrowed s.accounting cluster
      ((usage_of direct queue_id).gpu_units - q.guaranteed.gpu_units)
      (sort compare_borrowers queue_jobs) jobs

abbrev share_queues :
    FairShare → Cluster → Usage → Dict String (List Job) → List Job → Result (List Job)
share_queues s cluster direct [] jobs = ok jobs
share_queues s cluster direct (entry ∷ rest) jobs = do
  after ← share_queue s cluster direct entry jobs
  share_queues s cluster direct rest after

abbrev clear_borrowed : Job → Job
clear_borrowed j = record j { borrowed_gpu_units = 0 }

-- `refresh_usage`. The jobs that it writes to are returned.
unfoldable pub refresh_usage : Cluster → List Job → FairShare → Result (FairShare × List Job)
refresh_usage cluster allocated s = do
  direct ← charge_jobs s.accounting cluster allocated []
  let reset : List Job = map clear_borrowed allocated
  shared ←
      share_queues s cluster direct (group_by (λ j. j.queue_id) (filter holds_gpus reset)) reset
  aggregate ← aggregate_usage s.hierarchy direct
  ok (
    sync_rates (record s {
      cluster = some cluster;
      capacity = capacity_of s.accounting cluster;
      direct_usage = direct;
      aggregate_usage = aggregate;
    }),
    shared,
  )

-- Elastic jobs that run below the replicas they prefer.
abbrev wants_replicas : Job → Bool
wants_replicas j =
    j.status == running
    && elim j.elastic [ none ↦ false | some e ↦ ltb j.current_replicas e.preferred_replicas ]

abbrev branches_of : FairShare → Job → List String
branches_of s j = filter (λ a. not (a == "root")) (ancestors s.hierarchy j.queue_id)

-- `{sibling_id: specs[sibling_id].weight for sibling_id in …}`
abbrev pub sibling_weights : FairShare → QueueSpec → Result (Dict String ℕ)
sibling_weights s q =
    traverse (λ id. queue_spec s id >>= λ sibling. ok (id, sibling.weight)) (siblings s q)

abbrev queue_debt : FairShare → String × QueueSpec → Result (String × Fraction)
queue_debt s (queue_id, q) = do
  weights ← sibling_weights s q
  ok (queue_id, debt s.history queue_id weights)

-- `prepare`, with the jobs whose borrowed units are written
unfoldable pub prepare :
    Decay → ℕ → Cluster → List Job → List Job → FairShare → Result (FairShare × List Job)
unfolding refresh_usage
prepare decay now cluster pending_jobs running_jobs s = do
  integrated ← integrate decay now s.last_rates s.history
  refreshed ← refresh_usage cluster running_jobs (record s { history = integrated })
  let t : FairShare = refreshed.0
  debts ← traverse (queue_debt t) (filter (λ item. not (item.0 == "root")) t.hierarchy.specs)
  ok (
    record t {
      pending_branches =
          dedup (flat_map (branches_of t) (pending_jobs ++ filter wants_replicas refreshed.1));
      debts = debts;
    },
    refreshed.1,
  )

abbrev charge_started : Job → Cluster → FairShare → Result (FairShare × Job)
charge_started j cluster s = do
  charged ← allocation s.accounting j cluster j.allocated_gpu_ids
  q ← queue_spec s j.queue_id
  let direct = insert j.queue_id (usage_of s.direct_usage j.queue_id ⊞ charged) s.direct_usage
  aggregate ← aggregate_usage s.hierarchy direct
  ok (
    sync_rates (record s { direct_usage = direct; aggregate_usage = aggregate }),
    record j {
      borrowed_gpu_units =
          charged.gpu_units - (q.guaranteed.gpu_units - (queue_usage s j.queue_id).gpu_units);
    },
  )

-- `on_job_started`
unfoldable pub on_job_started : Job → FairShare → Result (FairShare × Job)
on_job_started j s = elim s.cluster [ none ↦ ok (s, j) | some cluster ↦ charge_started j cluster s ]
