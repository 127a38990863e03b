-- ===== src/Simulator/Reclaiming/Planning.antt =====
-- `_plan_reclaim_for_vendor` (gpu_scheduler_lab/simulator/engine.py). Each round of its loops takes
-- a GPU or a job, so that as many rounds as there are GPUs held, or jobs running, are enough.
use gpu_scheduler_lab.Simulator.Preempting.{
  disruption_cost, remaining_productive_runtime, suitable_gpu_count, any_held,
}
use gpu_scheduler_lab.Admission.{flat_traverse}
use gpu_scheduler_lab.Schedulers.Topology.Place.{Placement}
use gpu_scheduler_lab.Models.Job.{effective_priority, Job}
use gpu_scheduler_lab.Models.Cluster.{is_compatible, gpu_by_id, Cluster}
use gpu_scheduler_lab.Models.Accelerator.{Vendor}
use gpu_scheduler_lab.Simulator.Reclaiming.{
  take_job, take_gpu, put_all_projected, initial_projection, projected_allocated, project_jobs,
  may_shrink, compare_victim_action, compare_elastic, VictimAction, ReclaimPlan, ElasticAction,
  Projection,
}
use gpu_scheduler_lab.Fairshare.Accounting.{weight_of, AccountingPolicy}
use gpu_scheduler_lab.Simulator.Scheduler.{Scheduler}
use gpu_scheduler_lab.Simulator.{job_of, Simulator, Policy}
use gpu_scheduler_lab.Prelude.{
  ◌+◌, is_empty, ◌||◌, ◌-◌, text_eq_instance, map, not, minimum, key_error, elem, ◌∷◌, values,
  traverse, lookup, if◌then◌else◌, ◌>>=◌, or_raise, length, Option, Bool, sum_of, String, Result,
  List, Dict, suc, zero, ok, false, true, some, none, [], ℕ,
}

-- What the plan is for: the job, the time, and the policies that weigh it.
pub record ReclaimRequest : Type 0 where
  pub policy : Policy
  pub accounting : AccountingPolicy
  pub incoming : Job
  pub now : ℕ

module _ {S K : Type 0} (scheduler : Scheduler S K) (request : ReclaimRequest) where
  -- `refresh_projected`
  abbrev pub refresh_projected : Simulator → Projection → S → Result (Projection × S)
  refresh_projected s p t = do
    waiting ← traverse (job_of s) s.pending
    prepared ← scheduler.prepare request.now p.projected waiting (projected_allocated p) t
    ok (put_all_projected prepared.1 p, prepared.0)

  abbrev pub allowed_placement : Projection → Placement × S → Result (Placement × S)
  allowed_placement p (none, t) = ok (none, t)
  allowed_placement p (some ids, t) = do
    allowed ← scheduler.can_reclaim_placement t request.incoming ids p.entitlement_queue_ids
    ok (if allowed then some ids else none, t)

  -- `target_placement`
  abbrev pub target_placement : Projection → S → Result (Placement × S)
  target_placement p t = do
    placed ← scheduler.place p.projected request.incoming t
    allowed_placement p placed

  -- The action on a GPU of an elastic job, if the scheduler allows it.
  abbrev elastic_action : Projection → S → Job → Job → String → String → Result (List ElasticAction)
  elastic_action p t j copy entitlement gpu_id = do
    g ← gpu_by_id p.projected gpu_id
    (if not (is_compatible g request.incoming) then ok [] else (do
      allowed ← scheduler.can_reclaim_allocation t copy request.incoming (gpu_id ∷ []) false
      (if not allowed then ok [] else (do
        remaining ← remaining_productive_runtime j request.now
        ok (
            record {
              priority = effective_priority copy request.now request.policy.aging_interval;
              weight = weight_of request.accounting g;
              remaining = remaining;
              disruption = disruption_cost j;
              job_id = j.id;
              gpu_id = gpu_id;
              entitlement = entitlement;
            }
            ∷ [])))))

  abbrev elastic_actions_on :
      Projection → S → Job → Job → Option String → Result (List ElasticAction)
  elastic_actions_on p t j copy none = ok []
  elastic_actions_on p t j copy (some entitlement) =
      flat_traverse (elastic_action p t j copy entitlement) copy.allocated_gpu_ids

  abbrev elastic_actions_of : Projection → S → Job → Result (List ElasticAction)
  elastic_actions_of p t j = elim (lookup j.id p.projected_jobs) [
    | none ↦ ok []
    | some copy ↦ if not (may_shrink copy) then ok [] else (do
      reclaimable ← scheduler.can_reclaim t copy request.incoming
      (if not reclaimable then ok [] else (do
        entitlement ← scheduler.reclaim_entitlement_queue t copy request.incoming
        elastic_actions_on p t j copy entitlement)))
  ]

  abbrev pub projected_job : Projection → String → Result Job
  projected_job p job_id = or_raise (lookup job_id p.projected_jobs) (key_error job_id)

  -- The next state of a loop: a placement that ends it, or the plan to go on with.
  abbrev pub after_action : Simulator → Projection → S → Result (Placement × Projection × S)
  after_action s p t = do
    refreshed ← refresh_projected s p t
    found ← target_placement refreshed.0 refreshed.1
    ok (found.0, refreshed.0, found.1)

  abbrev shrink_best :
      Simulator → Projection → S → List ElasticAction → Result (Option (Placement × Projection × S))
  shrink_best s p t [] = ok none
  shrink_best s p t (a ∷ rest) = do
    let best = minimum compare_elastic a rest
    copy ← projected_job p best.job_id
    next ← after_action s (take_gpu best copy p) t
    ok (some next)

  -- One round of the first loop: nothing where no action is left.
  abbrev shrink_round :
      Simulator → List Job → Projection → S → Result (Option (Placement × Projection × S))
  shrink_round s running_jobs p t = do
    actions ← flat_traverse (elastic_actions_of p t) running_jobs
    shrink_best s p t actions

  abbrev pub is_offered : Projection → S → Job → Result Bool
  is_offered p t copy = do
    holds_suitable ←
        any_held p.projected (λ g. is_compatible g request.incoming) copy.allocated_gpu_ids
    (if not holds_suitable then ok false else (do
      reclaimable ← scheduler.can_reclaim t copy request.incoming
      (if not reclaimable
          then ok false
          else scheduler.can_reclaim_allocation t copy request.incoming copy.allocated_gpu_ids
              true)))

  abbrev pub victim_action : Projection → Job → Job → String → Result (List VictimAction)
  victim_action p j copy entitlement = do
    suitable ← suitable_gpu_count p.projected copy request.incoming
    remaining ← remaining_productive_runtime j request.now
    ok (
        record {
          key = record {
            priority = effective_priority copy request.now request.policy.aging_interval;
            suitable = suitable;
            held = length copy.allocated_gpu_ids;
            remaining = remaining;
            disruption = disruption_cost j;
            borrowed = j.borrowed_gpu_units;
            job_id = j.id;
          };
          entitlement = entitlement;
        }
        ∷ [])

  abbrev pub victim_action_on : Projection → Job → Job → Option String → Result (List VictimAction)
  victim_action_on p j copy none = ok []
  victim_action_on p j copy (some entitlement) = victim_action p j copy entitlement

  abbrev pub victim_actions_of : Projection → S → Job → Result (List VictimAction)
  victim_actions_of p t j = elim (lookup j.id p.projected_jobs) [
    | none ↦ ok []
    | some copy ↦
        if elem j.id p.preempted_ids || is_empty copy.allocated_gpu_ids then ok [] else (do
          offered ← is_offered p t copy
          (if not offered then ok [] else (do
            entitlement ← scheduler.reclaim_entitlement_queue t copy request.incoming
            victim_action_on p j copy entitlement)))
  ]

  abbrev pub preempt_best :
      Simulator → Projection → S → List VictimAction → Result (Option (Placement × Projection × S))
  preempt_best s p t [] = ok none
  preempt_best s p t (a ∷ rest) = do
    let best = minimum compare_victim_action a rest
    copy ← projected_job p best.key.job_id
    next ← after_action s (take_job best copy p) t
    ok (some next)

  -- One round of the second loop.
  abbrev pub preempt_round :
      Simulator → List Job → Projection → S → Result (Option (Placement × Projection × S))
  preempt_round s running_jobs p t = do
    actions ← flat_traverse (victim_actions_of p t) running_jobs
    preempt_best s p t actions

  -- `while projected_placement is None`: until a placement is found or no action is left.
  unfoldable pub repeat :
      ℕ
      → (Projection → S → Result (Option (Placement × Projection × S)))
      → Projection
      → S
      → Result (Placement × Projection × S)
  repeat zero round p t = ok (none, p, t)
  repeat (suc fuel) round p t = round p t >>= λ stepped. elim stepped [
    | none ↦ ok (none, p, t)
    | some next ↦ elim next.0 [
      | some ids ↦ ok (some ids, next.1, next.2)
      | none ↦ repeat fuel round next.1 next.2
    ]
  ]

  abbrev elastic_reductions : Simulator → Dict String (List String) → Result ℕ
  elastic_reductions s [] = ok 0
  elastic_reductions s ((job_id, target) ∷ rest) = do
    j ← job_of s job_id
    later ← elastic_reductions s rest
    ok ((j.current_replicas - length target) + later)

  abbrev reclaim_plan : Simulator → Vendor → List String → Projection → Result ReclaimPlan
  reclaim_plan s vendor placement p = do
    preempted ← traverse (job_of s) p.preempted_ids
    reductions ← elastic_reductions s p.planned_targets
    ok (record {
      action_keys = map (λ item. item.1) p.plan_action_keys;
      disruption = sum_of disruption_cost preempted;
      elastic_reductions = reductions;
      vendor = vendor;
      planned_targets = p.planned_targets;
      preempted_ids = p.preempted_ids;
      entitlement_queue_ids = p.entitlement_queue_ids;
      placement = placement;
    })

  abbrev finish_plan :
      Simulator → Vendor → Placement × Projection × S → Result (List ReclaimPlan × S)
  finish_plan s vendor (none, p, t) = ok ([], t)
  finish_plan s vendor (some ids, p, t) = do plan ← reclaim_plan s vendor ids p; ok (plan ∷ [], t)

  -- The second loop, where the first one found no placement.
  abbrev go_on :
      Simulator → List Job → Placement × Projection × S → Result (Placement × Projection × S)
  go_on s running_jobs (some ids, p, t) = ok (some ids, p, t)
  go_on s running_jobs (none, p, t) =
      repeat (suc (length running_jobs)) (preempt_round s running_jobs) p t

  abbrev held_in_all : Projection → ℕ
  held_in_all p = sum_of (λ j. length j.allocated_gpu_ids) (values p.projected_jobs)

  -- `_plan_reclaim_for_vendor`
  unfoldable pub plan_reclaim_for_vendor :
      Simulator → Cluster → List Job → Vendor → S → Result (List ReclaimPlan × S)
  unfolding repeat
  plan_reclaim_for_vendor s placement_on allocated vendor t = do
    running_jobs ← traverse (job_of s) s.running
    copies ← project_jobs placement_on vendor allocated
    refreshed ← refresh_projected s (initial_projection placement_on vendor copies) t
    shrunk ←
        repeat (suc (held_in_all refreshed.0)) (shrink_round s running_jobs) refreshed.0 refreshed.1
    found ← go_on s running_jobs shrunk
    finish_plan s vendor found
