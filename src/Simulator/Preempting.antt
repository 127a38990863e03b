-- ===== src/Simulator/Preempting.antt =====
-- How running jobs of a lower priority make room (gpu_scheduler_lab/simulator/engine.py).
pub mod Plans
use gpu_scheduler_lab.Models.Elastic.{unit}
use gpu_scheduler_lab.Simulator.Preemption.{begin_preemption}
use gpu_scheduler_lab.Simulator.Reservations.{placement_cluster}
use gpu_scheduler_lab.Schedulers.Topology.Place.{filter_result, Placement}
use gpu_scheduler_lab.Models.Cluster.Allocation.{
  give_up, owned_by, write_where, clone_cluster, map_gpus,
}
use gpu_scheduler_lab.Models.Accelerator.{vendor_eq, compare_vendor, Vendor}
use gpu_scheduler_lab.Simulator.Scheduler.{
  count_failure, place_now, count_attempt, sort_by_key, prepare_pass, Scheduler,
}
use gpu_scheduler_lab.Simulator.{job_of, Simulator, Policy}
use gpu_scheduler_lab.Models.Job.{
  priority_value, total_productive_work, productive_rate, effective_priority, Job,
}
use gpu_scheduler_lab.Models.Cluster.{
  schedulable_gpus, vendors_of, is_compatible, gpu_by_id, Gpu, Cluster,
}
use gpu_scheduler_lab.Prelude.{
  ◌==◌, max, ◌*◌, filter, ◌&&◌, sum_of, count_of, compare_text, ◌++◌, traverse, text_eq_instance,
  map, length, dedup, compare_fraction, ◌>>=◌, whole, sort, minimum, ltb, insert, if◌then◌else◌,
  compare_ℕ, any, ◌∷◌, ◌-◌, ◌+◌, and_then, Result, Dict, Bool, String, Ordering, Option, List,
  Fraction, Compare, ok, false, true, some, none, [], ℕ,
}

-- `any(test(self.cluster.gpu_by_id(gpu_id)) for gpu_id in gpu_ids)`
unfoldable pub any_held : Cluster → (Gpu → Bool) → List String → Result Bool
any_held c test [] = ok false
any_held c test (gpu_id ∷ rest) =
    let later = any_held c test rest in
    gpu_by_id c gpu_id >>= λ g. if test g then ok true else later

-- `_suitable_gpu_count`
unfoldable pub suitable_gpu_count : Cluster → Job → Job → Result ℕ
suitable_gpu_count c victim incoming = do
  held ← traverse (gpu_by_id c) victim.allocated_gpu_ids
  ok (count_of (λ g. is_compatible g incoming) held)

abbrev pub elapsed_since : Option ℕ → ℕ → ℕ
elapsed_since none now = 0
elapsed_since (some start) now = now - start

-- `_runtime_so_far`
abbrev pub runtime_so_far : Job → ℕ → ℕ
runtime_so_far j now = j.accumulated_runtime + elapsed_since j.last_start_time now

-- `_remaining_productive_runtime`, as an exact quotient
unfoldable pub remaining_productive_runtime : Job → ℕ → Result Fraction
remaining_productive_runtime j now = elim j.elastic [
  | none ↦ ok (whole (j.duration - runtime_so_far j now))
  | some e ↦ (do
    rate ← productive_rate j j.current_replicas
    ok (record {
      num =
          (total_productive_work j.spec - j.productive_work_completed) * unit
          - elapsed_since j.last_start_time now * rate;
      den = max rate 1;
    }))
]

-- The tuple by which victims are sorted.
pub record VictimKey : Type 0 where
  pub priority : ℕ
  pub suitable : ℕ
  pub held : ℕ
  pub remaining : Fraction
  pub disruption : ℕ
  pub borrowed : ℕ
  pub job_id : String

abbrev pub compare_victim : VictimKey → VictimKey → Ordering
compare_victim a b = and_then (compare_ℕ a.priority b.priority) (
    and_then (compare_ℕ b.suitable a.suitable) (
      and_then (compare_ℕ a.held b.held) (
        and_then (compare_fraction a.remaining b.remaining) (
          and_then (compare_ℕ a.disruption b.disruption)
            (and_then (compare_ℕ b.borrowed a.borrowed) (compare_text a.job_id b.job_id))))))

abbrev pub disruption_cost : Job → ℕ
disruption_cost j = j.checkpoint_cost + j.restart_cost

unfoldable pub victim_key : Policy → Cluster → Job → ℕ → Job → Result VictimKey
unfolding suitable_gpu_count remaining_productive_runtime
victim_key policy c incoming now j = do
  suitable ← suitable_gpu_count c j incoming
  remaining ← remaining_productive_runtime j now
  ok (record {
    priority = effective_priority j now policy.aging_interval;
    suitable = suitable;
    held = length j.allocated_gpu_ids;
    remaining = remaining;
    disruption = disruption_cost j;
    borrowed = j.borrowed_gpu_units;
    job_id = j.id;
  })

-- The comparison of tuples of keys, where a prefix stands first.
abbrev pub compare_lists : {A : Type 0} → Compare A → Compare (List A)
compare_lists cmp [] [] = Ordering.eq
compare_lists cmp [] (y ∷ ys) = Ordering.lt
compare_lists cmp (x ∷ xs) [] = Ordering.gt
compare_lists cmp (x ∷ xs) (y ∷ ys) = and_then (cmp x y) (compare_lists cmp xs ys)

abbrev pub has_lower_priority : Policy → Job → ℕ → Job → Bool
has_lower_priority policy incoming now j =
    ltb (effective_priority j now policy.aging_interval)
      (effective_priority incoming now policy.aging_interval)
    && ltb (priority_value j.priority) (priority_value incoming.priority)

abbrev pub is_eligible_victim : Policy → Cluster → Job → ℕ → Job → Result Bool
is_eligible_victim policy c incoming now j = do
  holds_suitable ← any_held c (λ g. is_compatible g incoming) j.allocated_gpu_ids
  ok (holds_suitable && has_lower_priority policy incoming now j)

unfoldable pub eligible_victims : Policy → Job → ℕ → Simulator → Result (List Job)
unfolding any_held
eligible_victims policy incoming now s = do
  jobs ← traverse (job_of s) s.running
  filter_result (is_eligible_victim policy s.cluster incoming now) jobs

-- The vendors that a job could run on, by their names.
abbrev pub compatible_vendors : Cluster → Job → List Vendor
compatible_vendors c incoming =
    sort compare_vendor (vendors_of (filter (λ g. is_compatible g incoming) (schedulable_gpus c)))

-- The projected cluster without what a victim holds.
abbrev pub evict_projected : String → Cluster → Cluster
evict_projected job_id c = map_gpus (write_where (owned_by job_id) give_up) c

abbrev pub victims_on : Cluster → Vendor → List Job → Result (List Job)
victims_on c vendor victims =
    filter_result (λ j. any_held c (λ g. g.vendor == vendor) j.allocated_gpu_ids) victims

pub record PreemptionPlan : Type 0 where
  pub keys : List VictimKey
  pub disruption : ℕ
  pub held : ℕ
  pub vendor : Vendor
  pub selected : List Job
  pub placement : List String

abbrev pub compare_plan : PreemptionPlan → PreemptionPlan → Ordering
compare_plan a b = and_then (compare_lists compare_victim a.keys b.keys) (
    and_then (compare_ℕ a.disruption b.disruption) (
      and_then (compare_ℕ (length a.selected) (length b.selected))
        (and_then (compare_ℕ a.held b.held) (compare_vendor a.vendor b.vendor))))

abbrev pub is_deferred : List Job → Bool
is_deferred selected = any (λ j. ltb 0 j.checkpoint_cost) selected

-- The reservation of a plan's GPUs until its victims have saved their work.
abbrev pub set_targets : String → List Job → Dict String String → Dict String String
set_targets incoming_id [] targets = targets
set_targets incoming_id (victim ∷ rest) targets =
    set_targets incoming_id rest (insert victim.id incoming_id targets)

abbrev pub reserve_plan : Job → String → List Job → List String → Simulator → Simulator
reserve_plan incoming reason selected placement s = record s {
  preemption_reserved_gpus = insert incoming.id (dedup placement) s.preemption_reserved_gpus;
  preemption_reservation_reason = insert incoming.id reason s.preemption_reservation_reason;
  preemption_target_by_victim = set_targets incoming.id selected s.preemption_target_by_victim;
}
