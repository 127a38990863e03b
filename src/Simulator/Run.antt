-- ===== src/Simulator/Run.antt =====
-- The simulator's start and its main loop (gpu_scheduler_lab/simulator/engine.py).
pub mod Reached
pub mod Discarding
pub mod Stale
use gpu_scheduler_lab.Simulator.Capacity.{handle_fleet_event}
use gpu_scheduler_lab.Models.Cluster.Checks.{assert_invariants}
use gpu_scheduler_lab.Simulator.Resizing.{resize_elastic_jobs}
use gpu_scheduler_lab.Simulator.Lifecycle.{complete_restart, complete_checkpoint, complete}
use gpu_scheduler_lab.Simulator.Dispatch.{schedule}
use gpu_scheduler_lab.Simulator.Scheduler.{put_jobs, allocated_ids, Scheduler}
use gpu_scheduler_lab.Models.Events.{
  job_complete, job_checkpoint_complete, job_restart_complete, job_admit, job_reject, job_start,
  job_preempt, job_restart, job_resume, elastic_scale_up, elastic_scale_down, scheduler_tick,
  job_arrival, fleet, EventType, Event,
}
use gpu_scheduler_lab.Models.Cluster.Allocation.{clone_cluster}
use gpu_scheduler_lab.Simulator.Arrivals.{handle_scheduler_tick, arrive, Setting}
use gpu_scheduler_lab.Simulator.Areas.{
  record_phase3_timeline, integrate_state, QueueView, Timelines, Areas,
}
use gpu_scheduler_lab.Simulator.{
  discard_idle_ticks, job_of, discard_obsolete_ticks, push_event, discard_stale_generation_events,
  TopologyCounts, Simulator,
}
use gpu_scheduler_lab.Models.Job.{clone_job, Job}
use gpu_scheduler_lab.Models.Cluster.{Cluster}
use gpu_scheduler_lab.Fleet.{
  capacity_return, capacity_revoke, node_recover, node_fail, fleet_value, node_drain, node_join,
  FleetEventType, FleetEvent,
}
use gpu_scheduler_lab.Prelude.{
  text_eq_instance, value_error, distinct, ◌-◌, not, nat_eq, length, compare_text, traverse, sort,
  raise_if, if◌then◌else◌, compare_ℕ, Option, ◌∷◌, ◌>>◌, ◌>>=◌, map, and_then, whole, Result,
  Ordering, List, suc, zero, ok, false, some, none, [], ℕ,
}

-- Everything that a round changes.
pub record RunState (S : Type 0) : Type 0 where
  pub now : ℕ
  pub scheduler_state : S
  pub simulator : Simulator
  pub areas : Areas
  pub timelines : Timelines

abbrev pub no_areas : Areas
no_areas = record {
  busy_gpu_time = 0;
  gpu_capacity_area = 0;
  memory_capacity_area = 0;
  active_node_area = 0;
  revocable_gpu_time = 0;
  stable_gpu_time = 0;
  memory_area = 0;
  node_area = 0;
  count_fragmentation_area = whole 0;
  memory_fragmentation_area = whole 0;
  peak_gpu_utilization = whole 0;
  queue_gpu_area = [];
  queue_borrowed_area = [];
  queue_peak = [];
  queue_entitled_demand_area = [];
  queue_satisfied_entitlement_area = [];
  elastic_replica_area = [];
  elastic_below_preferred = [];
  elastic_at_preferred = [];
}

abbrev no_topology_counts : TopologyCounts
no_topology_counts = record {
  cross_node_gangs = 0;
  same_node_gangs = 0;
  same_rack_gangs = 0;
  cross_rack_gangs = 0;
  cross_zone_gangs = 0;
  distance_sum = 0;
  distance_samples = 0;
  requirement_violations = 0;
}

-- `{event.value: 0 for event in FleetEventType}`
abbrev fleet_kinds : List FleetEventType
fleet_kinds =
    node_join ∷ node_drain ∷ node_fail ∷ node_recover ∷ capacity_revoke ∷ capacity_return ∷ []

abbrev initial_state : Cluster → List Job → Simulator
initial_state c jobs = record {
  cluster = clone_cluster false none c;
  by_id = map (λ j. (j.id, clone_job j)) jobs;
  pending = [];
  running = [];
  checkpointing = [];
  restarting = [];
  suspended_victims = [];
  preemption_target_by_victim = [];
  preemption_reserved_gpus = [];
  preemption_reservation_reason = [];
  preemption_reclaim_entitlements = [];
  trace = [];
  events = [];
  sequence = 0;
  runnable_demand_by_job = [];
  direct_runnable_demand = [];
  topology_counts = no_topology_counts;
  tally = record {
    rejection_reasons = [];
    fleet_counts = map (λ kind. (fleet_value kind, 0)) fleet_kinds;
    jobs_affected_by_capacity_loss = [];
    last_resize_time = [];
    scheduling_attempts = 0;
    failed_attempts = 0;
  };
}

-- `Simulator.__init__`
unfoldable pub new_simulator : Cluster → List Job → Result Simulator
new_simulator c jobs = do
  raise_if (not (distinct (map (λ j. j.id) jobs))) (value_error "job ids must be unique")
  ok (initial_state c jobs)

abbrev compare_arrivals : Job → Job → Ordering
compare_arrivals a b = and_then (compare_ℕ a.arrival_time b.arrival_time) (compare_text a.id b.id)

abbrev compare_fleet : FleetEvent → FleetEvent → Ordering
compare_fleet a b = and_then (compare_ℕ a.time b.time) (
    and_then (compare_text (fleet_value a.event_type) (fleet_value b.event_type))
      (compare_text a.node_id b.node_id))

abbrev push_arrivals : List Job → Simulator → Result Simulator
push_arrivals [] s = ok s
push_arrivals (j ∷ rest) s = push_event j.arrival_time job_arrival j.id 0 s >>= push_arrivals rest

abbrev push_fleet_events : List FleetEvent → Simulator → Result Simulator
push_fleet_events [] s = ok s
push_fleet_events (e ∷ rest) s =
    push_event e.time (fleet e.event_type) e.node_id 0 s >>= push_fleet_events rest

-- The events that `run` starts with.
unfoldable pub push_initial : List FleetEvent → List Job → Simulator → Result Simulator
push_initial fleet_events jobs s = do
  arriving ← push_arrivals (sort compare_arrivals jobs) s
  push_fleet_events (sort compare_fleet fleet_events) arriving

-- The loop that drops events until none goes, in which each round but the last drops one.
abbrev pub discard_round : Simulator → Result Simulator
discard_round s = do
  current ← discard_stale_generation_events (discard_obsolete_ticks s)
  ok (discard_idle_ticks current)

unfoldable pub discard_events : ℕ → Simulator → Result Simulator
discard_events zero s = ok s
discard_events (suc fuel) s = discard_round s >>= λ kept.
    let again = discard_events fuel kept in
    if nat_eq (length kept.events) (length s.events) then ok kept else again

-- The events of one time at the front of the queue, and those that follow.
abbrev pub take_due : ℕ → List Event → List Event
take_due at [] = []
take_due at (e ∷ rest) = if nat_eq e.time at then e ∷ take_due at rest else []

abbrev pub drop_due : ℕ → List Event → List Event
drop_due at [] = []
drop_due at (e ∷ rest) = if nat_eq e.time at then drop_due at rest else e ∷ rest

-- The dispatch on an event's type; events that are only traced are never in the queue.
abbrev pub handle_kind : Setting → Event → ℕ → EventType → Simulator → Result Simulator
handle_kind setting e now job_complete s = complete e now s
handle_kind setting e now job_checkpoint_complete s = complete_checkpoint setting.policy e now s
handle_kind setting e now job_restart_complete s = complete_restart e now s
handle_kind setting e now job_arrival s = arrive setting e now s
handle_kind setting e now scheduler_tick s = handle_scheduler_tick setting.policy e now s
handle_kind setting e now (fleet kind) s = handle_fleet_event setting.policy kind e.job_id now s
handle_kind setting e now job_admit s = ok s
handle_kind setting e now job_reject s = ok s
handle_kind setting e now job_start s = ok s
handle_kind setting e now job_preempt s = ok s
handle_kind setting e now job_restart s = ok s
handle_kind setting e now job_resume s = ok s
handle_kind setting e now elastic_scale_up s = ok s
handle_kind setting e now elastic_scale_down s = ok s

unfoldable pub handle_all : Setting → List Event → ℕ → Simulator → Result Simulator
handle_all setting [] now s = ok s
handle_all setting (e ∷ rest) now s =
    handle_kind setting e now e.event_type s >>= handle_all setting rest now

module _ {S K : Type 0} (setting : Setting) (scheduler : Scheduler S K)
    (queue_view : S → Result QueueView)
    (refresh_usage : Cluster → List Job → S → Result (S × List Job)) where
  -- The scheduler's usage is refreshed, where it has queues, before the timelines are recorded.
  abbrev pub refresh_view : S → Simulator → Result (S × Simulator)
  refresh_view t s = do
    allocated ← traverse (job_of s) (allocated_ids s)
    refreshed ← refresh_usage s.cluster allocated t
    ok (refreshed.0, put_jobs refreshed.1 s)

  -- The part of a round after its events were handled.
  abbrev pub settle_round : ℕ → Areas → Timelines → S × Simulator → Result (RunState S)
  settle_round now areas timelines handled = do
    scheduled ← schedule setting scheduler now handled
    resized ← resize_elastic_jobs setting scheduler now scheduled
    refreshed ← refresh_view resized.0 resized.1
    view ← queue_view refreshed.0
    recorded ← record_phase3_timeline view setting.elastic_job_ids now refreshed.1 timelines
    assert_invariants refreshed.1.cluster
    ok (record {
      now = now;
      scheduler_state = refreshed.0;
      simulator = refreshed.1;
      areas = areas;
      timelines = recorded;
    })

  -- The events of the next time: the state is integrated up to it, and they are handled in turn.
  abbrev pub round_at : ℕ → RunState S → Simulator → Result (RunState S)
  round_at event_time r s = do
    view ← queue_view r.scheduler_state
    areas ← integrate_state view (event_time - r.now) s r.areas
    handled ←
        handle_all setting (take_due event_time s.events) event_time
          (record s { events = drop_due event_time s.events })
    settle_round event_time areas r.timelines (r.scheduler_state, handled)

  abbrev pub round_on : RunState S → Simulator → List Event → Result (Option (RunState S))
  round_on r s [] = ok none
  round_on r s (e ∷ rest) = round_at e.time r s >>= λ next. ok (some next)

  -- A round of `run`'s loop, and nothing once no event is left.
  unfoldable pub run_round : RunState S → Result (Option (RunState S))
  run_round r = do
    kept ← discard_events (suc (length r.simulator.events)) r.simulator
    round_on r kept kept.events

  -- The state in which the loop begins.
  abbrev pub initial_run : S → Simulator → RunState S
  initial_run t s = record {
    now = 0;
    scheduler_state = t;
    simulator = s;
    areas = no_areas;
    timelines = record { queue_timeline = []; elastic_timeline = []; fleet_timeline = [] };
  }
