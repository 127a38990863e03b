-- ===== src/Examples/Simulation.antt =====
-- What the simulator does with its events.
use gpu_scheduler_lab.Models.Cluster.Ownership.{WasOffered}
use gpu_scheduler_lab.Simulator.Returns.{complete_returns, IsRunning}
use gpu_scheduler_lab.Simulator.Started.{start_owners}
use gpu_scheduler_lab.Simulator.Ownership.{placement_cluster_withholds}
use gpu_scheduler_lab.Models.Events.{job_complete, Event}
use gpu_scheduler_lab.Models.Elastic.{unit}
use gpu_scheduler_lab.Simulator.Fence.{discard_stale-Discarded, Discarded}
use gpu_scheduler_lab.Simulator.Completion.{complete-IsCompleted, IsCompleted}
use gpu_scheduler_lab.Models.Topology.Collision.{topology_distance_collides, labelled}
use gpu_scheduler_lab.Examples.{gpu_b, gpu_a, gpu_c, small_cluster, one_node}
use mathlib.Core.Option
use gpu_scheduler_lab.Simulator.Start.{start, record_topology_placement}
use gpu_scheduler_lab.Models.Topology.{
  topology_requirement_satisfied, topology_domain, topology_distance,
}
use gpu_scheduler_lab.Models.Cluster.{
  gpus, find_gpu, free, Cluster, gpu_by_id, is_compatible, eligible_gpus,
}
use gpu_scheduler_lab.Models.Cluster.Allocation.{
  take_ownership, write_where, map_gpus, clone_cluster, release, release_gpus, allocate, assign,
  check_placement,
}
use gpu_scheduler_lab.Models.Job.{
  running, Job, requested_gpu_count, remaining_duration, effective_priority, total_productive_work,
  productive_rate, preferred_gpu_count,
}
use gpu_scheduler_lab.Simulator.{
  Tally, TopologyCounts, Simulator, Policy, push_event, discard_stale, schedule_aging_tick,
}
use gpu_scheduler_lab.Simulator.Lifecycle.{
  complete, accrue_productive_work, schedule_completion, remove_runnable_demand,
}
use gpu_scheduler_lab.Simulator.Reservations.{
  set_aside_free, set_aside, withhold, placement_cluster, release_preemption_reservation,
}
use gpu_scheduler_lab.Prelude.{
  distinct, text_eq_instance, if◌then◌else◌, ◌∷◌, elem, String, Result, ◌≡◌, ◌*◌, ℕ, length, List,
  ok, false, true, some, [], refl, sort,
}

program : Unit {0}
unfolding push_event discard_stale schedule_aging_tick complete accrue_productive_work
    schedule_completion remove_runnable_demand withhold placement_cluster
    release_preemption_reservation start record_topology_placement gpu_by_id is_compatible
    clone_cluster release release_gpus allocate assign check_placement requested_gpu_count
    remaining_duration effective_priority total_productive_work productive_rate preferred_gpu_count
    topology_requirement_satisfied topology_domain topology_distance sort eligible_gpus
program = tt

abbrev pub pair : List String
pair = "a" ∷ "b" ∷ []

abbrev pub held : Job
held = record one_node {
  status = running;
  allocated_gpu_ids = pair;
  last_start_time = some 0;
  run_generation = 3;
  current_replicas = 2;
}

abbrev pub busy_cluster : Cluster
busy_cluster = map_gpus (write_where (λ g. elem g.id pair) (take_ownership one_node)) small_cluster

abbrev pub no_counts : TopologyCounts
no_counts = record {
  cross_node_gangs = 0;
  same_node_gangs = 0;
  same_rack_gangs = 0;
  cross_rack_gangs = 0;
  cross_zone_gangs = 0;
  distance_sum = 0;
  distance_samples = 0;
  requirement_violations = 0;
}

abbrev pub no_tally : Tally
no_tally = record {
  rejection_reasons = [];
  fleet_counts =
      ("NODE_JOIN", 0)
      ∷ ("NODE_DRAIN", 0)
      ∷ ("NODE_FAIL", 0)
      ∷ ("NODE_RECOVER", 0)
      ∷ ("CAPACITY_REVOKE", 0)
      ∷ ("CAPACITY_RETURN", 0)
      ∷ [];
  jobs_affected_by_capacity_loss = [];
  last_resize_time = [];
  scheduling_attempts = 0;
  failed_attempts = 0;
}

abbrev pub state_of : Cluster → Job → List String → List String → Simulator
state_of c j pending_ids running_ids = record {
  cluster = c;
  by_id = (j.id, j) ∷ [];
  pending = pending_ids;
  running = running_ids;
  checkpointing = [];
  restarting = [];
  suspended_victims = [];
  preemption_target_by_victim = [];
  preemption_reserved_gpus = ("large", "c" ∷ []) ∷ [];
  preemption_reservation_reason = [];
  preemption_reclaim_entitlements = [];
  trace = [];
  events = [];
  sequence = 7;
  runnable_demand_by_job = [];
  direct_runnable_demand = [];
  topology_counts = no_counts;
  tally = no_tally;
}

abbrev pub busy : Simulator
busy = state_of busy_cluster held [] ("train" ∷ [])

abbrev pub completion : ℕ → Event
completion generation = record {
  time = 10 * unit;
  order = 0;
  sequence = 5;
  event_type = job_complete;
  job_id = "train";
  generation = generation;
}

abbrev pub policy : Policy
policy = record { supports_preemption = false; aging_interval = 30 * unit }

abbrev two_events : List Event
two_events = completion 2 ∷ completion 3 ∷ []

discarded : discard_stale busy.by_id two_events ≡ ok (completion 3 ∷ [])
unfolding program
discarded = refl

discard_stale-Discarded_example : Discarded busy.by_id two_events (completion 3 ∷ [])
discard_stale-Discarded_example = discard_stale-Discarded busy.by_id two_events discarded

abbrev pushed : Simulator
pushed = record busy { events = record (completion 3) { sequence = 8 } ∷ []; sequence = 8 }

push_run : push_event (10 * unit) job_complete "train" 3 busy ≡ ok pushed
unfolding program
push_run = refl

release_run :
    release busy_cluster held ≡ (ok tt, small_cluster, record held { allocated_gpu_ids = [] })
unfolding program
release_run = refl

completed_run : (s' : Simulator) × (complete (completion 3) (10 * unit) busy ≡ ok s')
unfolding program
completed_run = (_, refl)

complete-IsCompleted_example : IsCompleted (10 * unit) held busy completed_run.0
complete-IsCompleted_example =
    complete-IsCompleted (completion 3) (10 * unit) busy {j = held} {s' = completed_run.0} refl refl
      completed_run.1

runs : IsRunning busy held
unfolding program
runs = record {
  start = 0;
  started = refl;
  rate = 2 * unit;
  rated = refl;
  listed = refl;
  unique = (refl, (refl, tt));
  owns = (
    (take_ownership one_node gpu_a, refl, refl),
    ((take_ownership one_node gpu_b, refl, refl), tt),
  );
}

complete_returns_example :
    (s' : Simulator) × (complete (completion 3) (10 * unit) busy ≡ ok s')
    × IsCompleted (10 * unit) held busy s'
complete_returns_example =
    complete_returns (completion 3) (10 * unit) busy {j = held} refl refl runs

abbrev pub waiting : Simulator
waiting = state_of small_cluster one_node ("train" ∷ []) []

abbrev withheld : Cluster
withheld = map_gpus (write_where (λ g. elem g.id ("c" ∷ [])) set_aside_free) small_cluster

withheld_run : placement_cluster waiting one_node ≡ ok withheld
unfolding program
withheld_run = refl

placement_cluster_withholds_example : free (set_aside gpu_c) ≡ false
placement_cluster_withholds_example =
    placement_cluster_withholds waiting one_node "c" {c = withheld} {g = set_aside gpu_c}
      withheld_run refl refl

abbrev ignore_start : Job → ℕ → Unit {0} → Result (Unit {0} × Job)
ignore_start j now scheduler = ok (scheduler, j)

start_run : (s' : Simulator) × (start ignore_start policy one_node pair 5 tt waiting ≡ ok (tt, s'))
unfolding program
start_run = (_, refl)

start_owners_example :
    (length pair ≡ requested_gpu_count one_node)
    × (distinct pair ≡ true)
    × ((k : String) → elem k pair ≡ true → WasOffered small_cluster one_node k)
    × (elem one_node.id waiting.pending ≡ true)
    × ((k : String)
        → find_gpu k (gpus start_run.0.cluster) ≡ (
            if elem k pair
            then Option.map (take_ownership one_node) (find_gpu k (gpus small_cluster))
            else find_gpu k (gpus small_cluster)))
start_owners_example =
    start_owners ignore_start policy one_node pair 5 tt waiting {out = (tt, start_run.0)}
      start_run.1

topology_distance_collides_example :
    topology_distance "left" (labelled "east" "a/b") "right" (labelled "east/a" "b") ≡ 1
topology_distance_collides_example =
    topology_distance_collides "left" "right" "east" "a" "b" refl refl refl refl refl
