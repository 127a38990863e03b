-- ===== src/Simulator/Arrivals.antt =====
-- How jobs arrive, and the demand of those that wait or run
-- (gpu_scheduler_lab/simulator/engine.py).
pub mod Demand
pub mod Arrived
use gpu_scheduler_lab.Models.Accelerator.{vendor_eq}
use gpu_scheduler_lab.Simulator.Lifecycle.{trace_of}
use gpu_scheduler_lab.Queues.Hierarchy.{usage_of}
use gpu_scheduler_lab.Queues.Resource.{◌⊞◌, ResourceVector}
use gpu_scheduler_lab.Models.Cluster.{Gpu, Cluster}
use gpu_scheduler_lab.Fleet.{schedulable_node_snapshots, FleetEvent}
use gpu_scheduler_lab.Simulator.{
  job_of, schedule_aging_tick, put_job, record_trace, Simulator, Policy,
}
use gpu_scheduler_lab.Models.Job.{preferred_gpu_count, minimum_gpu_count, rejected, Job}
use gpu_scheduler_lab.Models.Events.{job_reject, job_arrival, job_admit, Event}
use gpu_scheduler_lab.Fairshare.Accounting.{minimum_demand, AccountingPolicy}
use gpu_scheduler_lab.Admission.{
  compare_demand, decide, compatible_on, AdmissionDecision, AdmissionController,
}
use gpu_scheduler_lab.Prelude.{
  group_by, values, length, nat_eq, min, filter, map, max_of, ◌<>◌, ◌++◌, elem, text_eq_instance,
  minimum, ◌∷◌, ◌>>=◌, ◌==◌, ltb, get_or, flat_map, insert, if◌then◌else◌, Result, String, Option,
  List, suc, raise, ok, some, none, [], ℕ,
}

-- What the simulator is given and does not change.
pub record Setting : Type 0 where
  pub policy : Policy
  pub admission : Option AdmissionController
  pub accounting : AccountingPolicy
  pub fleet_events : List FleetEvent
  pub elastic_job_ids : List String

-- `_capacity_snapshots`
unfoldable pub capacity_snapshots : Setting → ℕ → Simulator → List (List String)
capacity_snapshots setting now s =
    schedulable_node_snapshots s.cluster setting.fleet_events (some now)

-- The most replicas that one vendor has GPUs for, up to the preferred ones.
abbrev pub vendor_replicas : Job → List Gpu → ℕ
vendor_replicas j compatible = max_of (
    map (λ group. min (preferred_gpu_count j.spec) (length group))
      (values (group_by (λ g. g.vendor) compatible)))

-- What a snapshot of the nodes offers the job, if it is enough: the loop's body, in which a
-- `ValueError` is passed over.
abbrev pub demand_within : AccountingPolicy → Job → List Gpu → ℕ → List (ℕ × ResourceVector)
demand_within accounting j compatible replicas =
    if ltb replicas (minimum_gpu_count j.spec)
    then []
    else elim (minimum_demand accounting j compatible replicas) [
      | raise e ↦ []
      | ok demand ↦ (replicas, demand) ∷ []
    ]

abbrev pub demand_candidates :
    AccountingPolicy → Cluster → Job → List (List String) → List (ℕ × ResourceVector)
demand_candidates accounting c j snapshots =
    flat_map
      (λ node_ids.
        demand_within accounting j (compatible_on c j node_ids)
          (vendor_replicas j (compatible_on c j node_ids)))
      snapshots

-- The least demand among the candidates with the most replicas.
abbrev pub least_demand : List ResourceVector → Option ResourceVector
least_demand [] = none
least_demand (demand ∷ rest) = some (minimum compare_demand demand rest)

abbrev pub chosen_demand : List (ℕ × ResourceVector) → Option ResourceVector
chosen_demand candidates =
    let replicas = max_of (map (λ candidate. candidate.0) candidates) in
    least_demand (
      map (λ candidate. candidate.1) (filter (λ candidate. nat_eq candidate.0 replicas) candidates))

abbrev pub with_demand : Job → ResourceVector → Simulator → Simulator
with_demand j demand s = record s {
  runnable_demand_by_job = insert j.id demand s.runnable_demand_by_job;
  direct_runnable_demand =
      insert j.queue_id (usage_of s.direct_runnable_demand j.queue_id ⊞ demand)
        s.direct_runnable_demand;
}

-- `_add_runnable_demand`
unfoldable pub add_runnable_demand :
    AccountingPolicy → Job → List (List String) → Simulator → Simulator
add_runnable_demand accounting j snapshots s =
    elim (chosen_demand (demand_candidates accounting s.cluster j snapshots)) [
      | none ↦ s
      | some demand ↦ with_demand j demand s
    ]

abbrev pub rejected_job : Option String → Job → Job
rejected_job reason j = record j { status = rejected; rejection_reason = reason }

-- `reason or "unspecified"`
abbrev pub reason_text : Option String → String
reason_text none = "unspecified"
reason_text (some reason) = if reason == "" then "unspecified" else reason

abbrev count_rejection : String → Simulator → Simulator
count_rejection reason s = record s {
  tally = record s.tally {
    rejection_reasons =
        insert reason (suc (get_or reason 0 s.tally.rejection_reasons)) s.tally.rejection_reasons;
  };
}

abbrev pub reject_job : Option String → Job → ℕ → Simulator → Simulator
reject_job given j now s =
    record_trace (trace_of now job_reject j.id [] [] ("reason=" <> reason_text given))
      (count_rejection (reason_text given) (put_job (rejected_job given j) s))

abbrev pub admitted_job : ℕ → Job → Job
admitted_job now j = record j { admission_time = some now }

-- What follows the decision to admit a job.
abbrev pub enqueue_job : Setting → List (List String) → Job → ℕ → Simulator → Result Simulator
enqueue_job setting snapshots j now s = schedule_aging_tick setting.policy j now (
    record_trace (trace_of now job_arrival j.id [] [] "") (
      add_runnable_demand setting.accounting j snapshots
        (record s { pending = s.pending ++ j.id ∷ [] })))

abbrev pub admit_job : Setting → List (List String) → Job → ℕ → Simulator → Result Simulator
admit_job setting snapshots j now s =
    enqueue_job setting snapshots (admitted_job now j) now
      (record_trace (trace_of now job_admit j.id [] [] "") (put_job (admitted_job now j) s))

abbrev pub settle_arrival :
    Setting → List (List String) → Job → ℕ → Simulator → AdmissionDecision → Result Simulator
settle_arrival setting snapshots j now s decision =
    if decision.admitted
    then admit_job setting snapshots j now s
    else ok (reject_job decision.reason j now s)

-- The controller sees the simulator's own cluster.
abbrev pub controller_of : AdmissionController → Simulator → AdmissionController
controller_of a s = record a { cluster = s.cluster }

abbrev pub arrive_job : Setting → Job → ℕ → Simulator → Result Simulator
arrive_job setting j now s =
    let snapshots = capacity_snapshots setting now s in
    elim setting.admission [
      | none ↦
          enqueue_job setting snapshots (admitted_job now j) now (put_job (admitted_job now j) s)
      | some a ↦ decide (controller_of a s) j snapshots >>= settle_arrival setting snapshots j now s
    ]

-- `_arrive`
unfoldable pub arrive : Setting → Event → ℕ → Simulator → Result Simulator
unfolding capacity_snapshots add_runnable_demand
arrive setting e now s = do j ← job_of s e.job_id; arrive_job setting j now s

-- `_handle_scheduler_tick`
unfoldable pub handle_scheduler_tick : Policy → Event → ℕ → Simulator → Result Simulator
handle_scheduler_tick policy e now s = do
  j ← job_of s e.job_id
  (if elem j.id s.pending then schedule_aging_tick policy j now s else ok s)
