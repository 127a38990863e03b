-- ===== src/Simulator/Preempting/Plans.antt =====
-- The plans by which victims make room, and what comes of the best one
-- (gpu_scheduler_lab/simulator/engine.py).
use gpu_scheduler_lab.Simulator.Preempting.{
  reserve_plan, disruption_cost, compare_victim, victims_on, victim_key, is_deferred, compare_plan,
  evict_projected, compatible_vendors, PreemptionPlan, eligible_victims,
}
use gpu_scheduler_lab.Simulator.Preemption.{begin_preemption}
use gpu_scheduler_lab.Simulator.Reservations.{placement_cluster}
use gpu_scheduler_lab.Schedulers.Topology.Place.{Placement}
use gpu_scheduler_lab.Models.Cluster.Allocation.{clone_cluster}
use gpu_scheduler_lab.Models.Accelerator.{vendor_eq, Vendor}
use gpu_scheduler_lab.Simulator.Scheduler.{
  count_failure, place_now, count_attempt, sort_by_key, prepare_pass, Scheduler,
}
use gpu_scheduler_lab.Simulator.{job_of, Simulator, Policy}
use gpu_scheduler_lab.Models.Job.{Job}
use gpu_scheduler_lab.Models.Cluster.{Cluster}
use gpu_scheduler_lab.Prelude.{
  sum_of, ◌++◌, traverse, text_eq_instance, map, length, ◌>>=◌, minimum, if◌then◌else◌, ◌∷◌, Result,
  String, List, ok, false, true, some, none, [], ℕ,
}

-- The loop that preempts the selected jobs.
unfoldable pub preempt_each :
    Policy → ℕ → String → String → List String → Simulator → Result Simulator
preempt_each policy now incoming_id reason [] s = ok s
preempt_each policy now incoming_id reason (job_id ∷ rest) s = do
  victim ← job_of s job_id
  after ← begin_preemption policy victim now incoming_id reason s
  preempt_each policy now incoming_id reason rest after

module _ {S K : Type 0} (scheduler : Scheduler S K) where
  -- The loop over a vendor's victims, which ends once the job fits.
  unfoldable pub select_victims :
      Job → List Job → List Job → Cluster → Placement × S → Result (List Job × Placement × S)
  select_victims incoming [] selected projected (found, t) = ok (selected, found, t)
  select_victims incoming (victim ∷ rest) selected projected (some found, t) =
      ok (selected, some found, t)
  select_victims incoming (victim ∷ rest) selected projected (none, t) = do
    placed ← scheduler.place (evict_projected victim.id projected) incoming t
    select_victims incoming rest (selected ++ victim ∷ []) (evict_projected victim.id projected)
        placed

  abbrev pub plan_of :
      Policy → Cluster → Job → ℕ → Vendor → List Job → List String → Result PreemptionPlan
  plan_of policy c incoming now vendor selected placement = do
    keys ← traverse (victim_key policy c incoming now) selected
    ok (record {
      keys = keys;
      disruption = sum_of disruption_cost selected;
      held = sum_of (λ j. length j.allocated_gpu_ids) selected;
      vendor = vendor;
      selected = selected;
      placement = placement;
    })

  abbrev pub plan_found :
      Policy
      → Cluster
      → Job
      → ℕ
      → Vendor
      → List Job × Placement × S
      → Result (List PreemptionPlan × S)
  plan_found policy c incoming now vendor (selected, none, t) = ok ([], t)
  plan_found policy c incoming now vendor (selected, some placement, t) = do
    plan ← plan_of policy c incoming now vendor selected placement
    ok (plan ∷ [], t)

  abbrev pub plan_for_vendor :
      Policy
      → Job
      → ℕ
      → Cluster
      → List Job
      → Simulator
      → Vendor
      → S
      → Result (List PreemptionPlan × S)
  plan_for_vendor policy incoming now placement_on victims s vendor t = do
    let projected : Cluster = clone_cluster true (some vendor) placement_on
    here ← victims_on s.cluster vendor victims
    ordered ← sort_by_key compare_victim (victim_key policy s.cluster incoming now) here
    placed ← scheduler.place projected incoming t
    selected ← select_victims incoming ordered [] projected placed
    plan_found policy s.cluster incoming now vendor selected

  unfoldable pub plans_for :
      Policy
      → Job
      → ℕ
      → Cluster
      → List Job
      → Simulator
      → List Vendor
      → S
      → Result (List PreemptionPlan × S)
  unfolding select_victims
  plans_for policy incoming now placement_on victims s [] t = ok ([], t)
  plans_for policy incoming now placement_on victims s (vendor ∷ rest) t = do
    here ← plan_for_vendor policy incoming now placement_on victims s vendor t
    later ← plans_for policy incoming now placement_on victims s rest here.1
    ok (here.0 ++ later.0, later.1)

  -- What follows once the victims gave their GPUs up: another attempt to place the job.
  abbrev pub retry_placement : Job → ℕ → S → Simulator → Result (Placement × S × Simulator)
  retry_placement incoming now t s = do
    prepared ← prepare_pass scheduler now t s
    let counted : Simulator = count_attempt prepared.1
    placed ← place_now scheduler false incoming prepared.0 counted
    ok (placed.0, placed.1, elim placed.0 [ none ↦ count_failure counted | some ids ↦ counted ])

  abbrev pub commit_plan :
      Policy
      → Job
      → ℕ
      → String
      → PreemptionPlan
      → S
      → Simulator
      → Result (Placement × S × Simulator)
  commit_plan policy incoming now reason plan t s =
      if is_deferred plan.selected
      then (do
        preempted ←
            preempt_each policy now incoming.id reason (map (λ j. j.id) plan.selected)
              (reserve_plan incoming reason plan.selected plan.placement s)
        ok (none, t, preempted))
      else (do
        preempted ← preempt_each policy now incoming.id reason (map (λ j. j.id) plan.selected) s
        retry_placement incoming now t preempted)

  abbrev pub commit_best :
      Policy
      → Job
      → ℕ
      → String
      → List PreemptionPlan
      → S
      → Simulator
      → Result (Placement × S × Simulator)
  commit_best policy incoming now reason [] t s = ok (none, t, s)
  commit_best policy incoming now reason (plan ∷ rest) t s =
      commit_plan policy incoming now reason (minimum compare_plan plan rest) t s

  -- `_preempt_for` by priority
  unfoldable pub preempt_for :
      Policy → Job → ℕ → String → S → Simulator → Result (Placement × S × Simulator)
  unfolding plans_for
  preempt_for policy incoming now reason t s = do
    victims ← eligible_victims policy incoming now s
    placement_on ← placement_cluster s incoming
    plans ←
        plans_for policy incoming now placement_on victims s
          (compatible_vendors placement_on incoming) t
    commit_best policy incoming now reason plans.0 plans.1 s
