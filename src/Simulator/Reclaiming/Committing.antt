-- ===== src/Simulator/Reclaiming/Committing.antt =====
-- `_reclaim_for` (gpu_scheduler_lab/simulator/engine.py): the best vendor's plan is carried out.
use gpu_scheduler_lab.Simulator.Reservations.{placement_cluster}
use gpu_scheduler_lab.Simulator.Capacity.{shrink_job}
use gpu_scheduler_lab.Models.Accelerator.{Vendor}
use gpu_scheduler_lab.Simulator.Preempting.Plans.{preempt_each}
use gpu_scheduler_lab.Simulator.Preempting.{compatible_vendors, is_deferred, reserve_plan}
use gpu_scheduler_lab.Schedulers.Topology.Place.{Placement}
use gpu_scheduler_lab.Models.Cluster.{Cluster}
use gpu_scheduler_lab.Fairshare.Accounting.{AccountingPolicy}
use gpu_scheduler_lab.Simulator.Reclaiming.Planning.{plan_reclaim_for_vendor, ReclaimRequest}
use gpu_scheduler_lab.Simulator.Reclaiming.{compare_reclaim_plan, ReclaimPlan}
use gpu_scheduler_lab.Simulator.Scheduler.{allocated_ids, place_now, prepare_pass, Scheduler}
use gpu_scheduler_lab.Simulator.{job_of, Policy, Simulator}
use gpu_scheduler_lab.Models.Job.{Job}
use gpu_scheduler_lab.Prelude.{
  ◌==◌, list_eq, ◌++◌, traverse, key_error, compare_text, ◌>>◌, sort, minimum, if◌then◌else◌, elem,
  ◌∷◌, ◌>>=◌, runtime_error, not, text_eq_instance, raise_if, insert, Result, List, String, Dict,
  raise, ok, false, some, none, [], ℕ,
}

abbrev pub note_resize : String → ℕ → Simulator → Simulator
note_resize job_id now s = record s {
  tally = record s.tally { last_resize_time = insert job_id now s.tally.last_resize_time };
}

-- `self.running[job_id]`
abbrev pub running_job : Simulator → String → Result Job
running_job s job_id = raise_if (not (elem job_id s.running)) (key_error job_id) >> job_of s job_id

-- The loop that shrinks the elastic jobs of a plan to their targets.
unfoldable pub shrink_each : ℕ → Dict String (List String) → Simulator → Result Simulator
shrink_each now [] s = ok s
shrink_each now ((job_id, target) ∷ rest) s =
    let unchanged = shrink_each now rest s in
    running_job s job_id >>= λ j. if target == j.allocated_gpu_ids then unchanged else (do
      shrunk ← shrink_job j now "PREEMPT_RECLAIM" target (note_resize job_id now s)
      shrink_each now rest shrunk)

abbrev reserve_reclaim : Job → ReclaimPlan → List Job → Simulator → Simulator
reserve_reclaim incoming plan selected s =
    record (reserve_plan incoming "PREEMPT_RECLAIM" selected plan.placement s) {
      preemption_reclaim_entitlements =
          insert incoming.id plan.entitlement_queue_ids s.preemption_reclaim_entitlements;
    }

module _ {S K : Type 0} (scheduler : Scheduler S K) where
  unfoldable pub reclaim_plans :
      ReclaimRequest
      → Simulator
      → Cluster
      → List Job
      → List Vendor
      → S
      → Result (List ReclaimPlan × S)
  reclaim_plans request s placement_on allocated [] t = ok ([], t)
  reclaim_plans request s placement_on allocated (vendor ∷ rest) t = do
    here ← plan_reclaim_for_vendor scheduler request s placement_on allocated vendor t
    later ← reclaim_plans request s placement_on allocated rest here.1
    ok (here.0 ++ later.0, later.1)

  abbrev promised : Job → ReclaimPlan → Placement × S → Result (Placement × S)
  promised incoming plan (none, t) =
      raise (runtime_error "committed reclaim plan did not preserve target placement")
  promised incoming plan (some ids, t) = do
    allowed ← scheduler.can_reclaim_placement t incoming ids plan.entitlement_queue_ids
    raise_if (not allowed)
        (runtime_error "committed reclaim plan did not preserve target placement")
    ok (some ids, t)

  -- What follows once the plan is carried out: the placement that it promised.
  abbrev keep_promise : Job → ℕ → ReclaimPlan → S → Simulator → Result (Placement × S × Simulator)
  keep_promise incoming now plan t s = do
    prepared ← prepare_pass scheduler now t s
    placed ← place_now scheduler false incoming prepared.0 prepared.1
    kept ← promised incoming plan placed
    ok (kept.0, kept.1, prepared.1)

  abbrev commit_reclaim :
      Policy → Job → ℕ → ReclaimPlan → S → Simulator → Result (Placement × S × Simulator)
  commit_reclaim policy incoming now plan t s = do
    shrunk ← shrink_each now (sort (λ a b. compare_text a.0 b.0) plan.planned_targets) s
    selected ← traverse (running_job shrunk) plan.preempted_ids
    (if is_deferred selected
        then (do
          preempted ←
              preempt_each policy now incoming.id "PREEMPT_RECLAIM" plan.preempted_ids
                (reserve_reclaim incoming plan selected shrunk)
          ok (none, t, preempted))
        else (do
          preempted ←
              preempt_each policy now incoming.id "PREEMPT_RECLAIM" plan.preempted_ids shrunk
          keep_promise incoming now plan t preempted))

  abbrev commit_best_reclaim :
      Policy → Job → ℕ → List ReclaimPlan → S → Simulator → Result (Placement × S × Simulator)
  commit_best_reclaim policy incoming now [] t s = ok (none, t, s)
  commit_best_reclaim policy incoming now (plan ∷ rest) t s =
      commit_reclaim policy incoming now (minimum compare_reclaim_plan plan rest) t s

  -- `_reclaim_for`
  unfoldable pub reclaim_for :
      Policy → AccountingPolicy → Job → ℕ → S → Simulator → Result (Placement × S × Simulator)
  unfolding reclaim_plans
  reclaim_for policy accounting incoming now t s = do
    requested ← scheduler.can_reclaim_request t incoming
    (if not requested then ok (none, t, s) else (do
      allocated ← traverse (job_of s) (allocated_ids s)
      placement_on ← placement_cluster s incoming
      let request : ReclaimRequest = record {
        policy = policy;
        accounting = accounting;
        incoming = incoming;
        now = now;
      }
      plans ←
          reclaim_plans request s placement_on allocated (compatible_vendors placement_on incoming)
            t
      prepared ← prepare_pass scheduler now plans.1 s
      commit_best_reclaim policy incoming now plans.0 prepared.0 prepared.1))
