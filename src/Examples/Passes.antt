-- ===== src/Examples/Passes.antt =====
-- A pass and a round of the simulator under the first-in, first-out scheduler.
use gpu_scheduler_lab.Examples.{one_node}
use gpu_scheduler_lab.Simulator.Capacity.{invalidate_reservations_for_node, handle_fleet_event}
use gpu_scheduler_lab.Models.Events.{fleet, Event}
use gpu_scheduler_lab.Schedulers.Topology.Place.{place_candidates, choose}
use gpu_scheduler_lab.Schedulers.Topology.{score, pair_distances, candidate_placements}
use gpu_scheduler_lab.Metrics.Fragmentation.{
  gpu_memory_fragmentation, gpu_count_fragmentation, fragmentation_snapshot,
}
use gpu_scheduler_lab.Models.Cluster.Checks.{check_gpus, assert_invariants}
use gpu_scheduler_lab.Simulator.Resizing.{first_growth, grow, resize_elastic_jobs}
use gpu_scheduler_lab.Simulator.Start.{record_topology_placement, start}
use gpu_scheduler_lab.Fleet.{node_drain, collect, schedulable_node_snapshots}
use gpu_scheduler_lab.Fairshare.Accounting.{demand_of, minimum_demand}
use gpu_scheduler_lab.Models.Topology.{topology_domain, topology_requirement_satisfied}
use gpu_scheduler_lab.Models.Cluster.Allocation.{clone_cluster, assign, check_placement, allocate}
use gpu_scheduler_lab.Simulator.Reservations.{
  placement_cluster, withhold, release_preemption_reservation,
}
use gpu_scheduler_lab.Simulator.Lifecycle.{
  remove_runnable_demand, schedule_completion, accrue_productive_work,
}
use gpu_scheduler_lab.Schedulers.Packing.{fifo_place}
use gpu_scheduler_lab.Models.Job.{
  productive_rate, total_productive_work, effective_priority, remaining_duration,
  preferred_gpu_count, minimum_gpu_count, requested_gpu_count, Job,
}
use gpu_scheduler_lab.Simulator.Areas.{
  record_phase3_timeline, append_timeline, integrate_queues, integrate_state, QueueView,
}
use gpu_scheduler_lab.Simulator.Arrivals.{arrive, capacity_snapshots, add_runnable_demand, Setting}
use gpu_scheduler_lab.Simulator.{
  discard_idle_ticks, discard_obsolete_ticks, discard_stale, schedule_aging_tick, push_event,
  Simulator,
}
use gpu_scheduler_lab.Models.Cluster.{active_gpus, eligible_gpus, is_compatible, gpu_by_id, Cluster}
use gpu_scheduler_lab.Prelude.{
  inr, group_by, minimum, sort, ◌>>=◌, compare_ℕ, arith, List, ◌≡◌, ◌∷◌, ℕ, Result, ok, false, true,
  some, none, [], refl,
}
use gpu_scheduler_lab.Models.Topology.{topology_distance}
use gpu_scheduler_lab.Simulator.{discard_stale_generation_events}
use gpu_scheduler_lab.Schedulers.Topology.Place.{place}
use gpu_scheduler_lab.Schedulers.Packing.{validate_atomic_placement}
use gpu_scheduler_lab.Simulator.Run.Discarding.{discard_events_settles}
use gpu_scheduler_lab.Examples.Simulation.{policy, held, completion}
use gpu_scheduler_lab.Simulator.Reclaiming.Rounds.{preempting_enough_rounds}
use gpu_scheduler_lab.Simulator.Reclaiming.Planning.{ReclaimRequest, preempt_round, repeat}
use gpu_scheduler_lab.Simulator.Reclaiming.{Projection}
use gpu_scheduler_lab.Simulator.Run.Stale.{IsOutlived, end_of_run, outlived_event_ignored}
use gpu_scheduler_lab.Simulator.Run.{handle_kind}
use gpu_scheduler_lab.Models.Events.{job_complete}
use gpu_scheduler_lab.Models.Job.{running}
use gpu_scheduler_lab.Simulator.Dispatch.Passed.{schedule-KeepsOwned}
use gpu_scheduler_lab.Simulator.Dispatch.Rounds.{dispatch_enough_rounds}
use gpu_scheduler_lab.Simulator.Dispatch.Untouched.{KeepsOwned}
use gpu_scheduler_lab.Simulator.Run.Reached.{Reaches-IsBounded, begins, goes_on, IsShort}
use gpu_scheduler_lab.Simulator.Areas.Bounds.{IsBounded}
use gpu_scheduler_lab.Simulator.Run.{
  discard_round, handle_all, discard_events, run_round, initial_run, RunState,
}
use gpu_scheduler_lab.Simulator.Dispatch.{
  resume_each, attempt_placement, dispatch_pending, schedule, dispatch,
}
use gpu_scheduler_lab.Simulator.Scheduler.{
  placement_cannot_change_without_release, place_now, prepare_pass, Scheduler,
}
use gpu_scheduler_lab.Examples.Simulation.{busy, waiting}
use gpu_scheduler_lab.Examples.Capacity.{noon, setting}

-- A first-in, first-out scheduler has no state and no queues.
abbrev fifo : Scheduler (Unit {0}) ℕ
fifo = record {
  supports_reclaim = false;
  supports_elastic = false;
  supports_guarantee_placement = false;
  dynamic_pending_order = false;
  compare_key = compare_ℕ;
  pending_key = λ t j now. ok j.arrival_time;
  scale_up_key = λ t j now. ok 0;
  prepare = λ now c waits holds t. ok (t, holds);
  place = λ c j t. fifo_place c j >>= λ placement. ok (placement, t);
  place_guaranteed = λ c j t. fifo_place c j >>= λ placement. ok (placement, t);
  on_job_started = λ j now t. ok (t, j);
  can_reclaim = λ t victim j. ok false;
  can_reclaim_request = λ t j. ok false;
  can_reclaim_placement = λ t j ids queue_ids. ok true;
  reclaim_entitlement_queue = λ t victim j. ok none;
  can_reclaim_allocation = λ t victim j ids collateral. ok false;
  can_scale_up = λ t j. ok false;
  can_resize_placement = λ t j ids. ok false;
}

abbrev no_view : Unit {0} → Result QueueView
no_view t = ok none

abbrev no_usage : Cluster → List Job → Unit {0} → Result (Unit {0} × List Job)
no_usage c jobs t = ok (t, jobs)

program : Unit {0}
unfolding place validate_atomic_placement push_event schedule_aging_tick accrue_productive_work
    release_preemption_reservation schedule_completion remove_runnable_demand add_runnable_demand
    capacity_snapshots arrive gpu_by_id is_compatible allocate check_placement assign clone_cluster
    eligible_gpus requested_gpu_count minimum_gpu_count preferred_gpu_count remaining_duration
    effective_priority total_productive_work productive_rate topology_requirement_satisfied
    topology_domain topology_distance sort minimum minimum_demand demand_of group_by fifo_place
    schedulable_node_snapshots collect start record_topology_placement withhold placement_cluster
    prepare_pass place_now placement_cannot_change_without_release schedule dispatch_pending
    dispatch attempt_placement resume_each resize_elastic_jobs integrate_state integrate_queues
    append_timeline record_phase3_timeline discard_events handle_all handle_fleet_event
    invalidate_reservations_for_node run_round discard_stale discard_stale_generation_events
    discard_obsolete_ticks discard_idle_ticks assert_invariants check_gpus active_gpus
    fragmentation_snapshot gpu_count_fragmentation gpu_memory_fragmentation candidate_placements
    pair_distances score choose place_candidates grow first_growth
program = tt

abbrev open_setting : Setting
open_setting = record setting { admission = none }

passed : (out : Unit {0} × Simulator) × (schedule open_setting fifo noon (tt, waiting) ≡ ok out)
unfolding program
passed = (_, refl)

schedule-KeepsOwned_example : KeepsOwned waiting.cluster passed.0.1.cluster
schedule-KeepsOwned_example =
    schedule-KeepsOwned open_setting fifo noon tt waiting {out = passed.0} refl refl passed.1

dispatch_enough_rounds_example :
    dispatch open_setting fifo 1 false true ("train" ∷ []) noon (tt, waiting)
    ≡ dispatch open_setting fifo 4 false true ("train" ∷ []) noon (tt, waiting)
dispatch_enough_rounds_example =
    dispatch_enough_rounds open_setting fifo 1 4 false true ("train" ∷ []) noon (tt, waiting)
      (omega arith) (omega arith)

abbrev drained : Event
drained = record {
  time = noon;
  order = 0;
  sequence = 1;
  event_type = fleet node_drain;
  job_id = "right";
  generation = 0;
}

abbrev begun : Simulator
begun = record busy { events = drained ∷ []; preemption_reserved_gpus = [] }

round :
    (r : RunState (Unit {0})) × (run_round open_setting fifo no_view no_usage
        (initial_run open_setting fifo no_view no_usage tt begun)
      ≡ ok (some r))
unfolding program
round = (_, refl)

Reaches-IsBounded_example : IsBounded round.0.areas × IsShort round.0.timelines
Reaches-IsBounded_example =
    Reaches-IsBounded open_setting fifo no_view no_usage tt begun {r = round.0}
      (goes_on {r = initial_run open_setting fifo no_view no_usage tt begun} begins round.1)

abbrev outdated : Simulator
outdated = record busy { events = completion 2 ∷ completion 3 ∷ [] }

abbrev current : Simulator
current = record busy { events = completion 3 ∷ [] }

settled : discard_events 3 outdated ≡ ok current
unfolding program
settled = refl

discard_events_settles_example : discard_round current ≡ ok current
discard_events_settles_example =
    discard_events_settles 3 outdated {s' = current} (omega arith) settled

abbrev reclaiming : ReclaimRequest
reclaiming = record {
  policy = policy;
  accounting = open_setting.accounting;
  incoming = record one_node { spec = record one_node.spec { id = "large" } };
  now = noon;
}

abbrev projection : Projection
projection = record {
  projected = busy.cluster;
  projected_jobs = ("train", held) ∷ [];
  planned_targets = [];
  preempted_ids = [];
  plan_action_keys = [];
  entitlement_queue_ids = [];
}

preempting_enough_rounds_example :
    repeat fifo reclaiming 2 (preempt_round fifo reclaiming busy (held ∷ [])) projection tt
    ≡ repeat fifo reclaiming 5 (preempt_round fifo reclaiming busy (held ∷ [])) projection tt
preempting_enough_rounds_example =
    preempting_enough_rounds fifo reclaiming 5 busy (held ∷ []) projection tt (omega arith)

abbrev old_completion : Event
old_completion = completion 2

outlived : IsOutlived busy old_completion
outlived = record {
  job = held;
  kind = job_complete;
  status = running;
  known = refl;
  of_kind = refl;
  waits = end_of_run;
  left = inr (λ same. absurd (omega (arith, same)));
}

outlived_event_ignored_example :
    (handle_kind open_setting old_completion noon job_complete busy ≡ ok busy)
    × (discard_stale busy.by_id (old_completion ∷ completion 3 ∷ [])
        ≡ discard_stale busy.by_id (completion 3 ∷ []))
outlived_event_ignored_example =
    outlived_event_ignored open_setting old_completion noon busy (completion 3 ∷ []) outlived
