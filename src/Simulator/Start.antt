-- ===== src/Simulator/Start.antt =====
-- How a job starts (gpu_scheduler_lab/simulator/engine.py). The scheduler's own state, and what its
-- `on_job_started` makes of it and of the job, are parameters.
use gpu_scheduler_lab.Simulator.Reservations.{release_preemption_reservation}
use gpu_scheduler_lab.Simulator.Lifecycle.{trace_of, schedule_completion}
use gpu_scheduler_lab.Models.Cluster.{Cluster, gpu_by_id}
use gpu_scheduler_lab.Models.Events.{
  job_restart, job_start, job_resume, job_restart_complete, EventType,
}
use gpu_scheduler_lab.Models.Cluster.Allocation.{topologies_of, allocate}
use gpu_scheduler_lab.Models.Topology.{
  topology_requirement_satisfied, topology_domain, topology_distance, Labels,
}
use gpu_scheduler_lab.Simulator.{
  node_ids_of, without_id, put_job, record_trace, push_event, Policy, TopologyCounts, Simulator,
}
use gpu_scheduler_lab.Models.Job.{effective_priority, running, restarting, Job}
use gpu_scheduler_lab.Prelude.{
  value_error, text_eq_instance, map, elem, raise_if, key_error, dedup, ◌>>◌, lookup, length, ◌++◌,
  sum_of, or_raise, nat_eq, ◌∷◌, ◌||◌, ◌>>=◌, ◌+◌, ◌&&◌, traverse, not, ltb, if◌then◌else◌, String,
  Result, Option, List, Bool, suc, ok, some, none, [], ℕ,
}

abbrev topology_at : Simulator → String → Result Labels
topology_at s node_id =
    or_raise (lookup node_id (topologies_of s.cluster.nodes)) (key_error node_id)

-- `sum(1 for …)` of one placement, as what is added to a counter
abbrev once : Bool → ℕ
once b = if b then 1 else 0

abbrev pub domain_count : Simulator → String → List String → Result ℕ
domain_count s level node_ids = do
  domains ←
      traverse (λ node_id. topology_at s node_id >>= λ t. ok (topology_domain node_id t level))
        node_ids
  ok (length (dedup domains))

-- The distances of a node to those after it in a list.
abbrev distances_to : Simulator → String → List String → Result (List ℕ)
distances_to s left rest =
    traverse
      (λ right. topology_at s left >>= λ a.
        topology_at s right >>= λ b. ok (topology_distance left a right b))
      rest

abbrev pub pair_distance_list : Simulator → List String → Result (List ℕ)
pair_distance_list s [] = ok []
pair_distance_list s (left ∷ rest) = do
  here ← distances_to s left rest
  later ← pair_distance_list s rest
  ok (here ++ later)

abbrev count_gang : Bool → ℕ → ℕ → ℕ → TopologyCounts → TopologyCounts
count_gang gang nodes racks zones counts = if not gang then counts else record counts {
  cross_node_gangs = counts.cross_node_gangs + once (ltb 1 nodes);
  same_node_gangs = counts.same_node_gangs + once (nat_eq nodes 1);
  same_rack_gangs = counts.same_rack_gangs + once (not (nat_eq nodes 1) && nat_eq racks 1);
  cross_rack_gangs =
      counts.cross_rack_gangs
      + once (not (nat_eq nodes 1) && not (nat_eq racks 1) && nat_eq zones 1);
  cross_zone_gangs =
      counts.cross_zone_gangs
      + once (not (nat_eq nodes 1) && not (nat_eq racks 1) && not (nat_eq zones 1));
}

abbrev count_placement : Bool → List ℕ → TopologyCounts → TopologyCounts
count_placement satisfied distances counts = record counts {
  requirement_violations = counts.requirement_violations + once (not satisfied);
  distance_sum = counts.distance_sum + sum_of (λ d. d) distances;
  distance_samples = counts.distance_samples + length distances;
}

-- `_record_topology_placement`, on node ids that are sorted and distinct
unfoldable pub record_topology_placement :
    Job → List String → List String → Simulator → Result Simulator
record_topology_placement j gpu_ids node_ids s = do
  satisfied ←
      topology_requirement_satisfied j.topology_mode node_ids (topologies_of s.cluster.nodes)
  racks ← domain_count s "rack" node_ids
  zones ← domain_count s "zone" node_ids
  selected ← traverse (gpu_by_id s.cluster) gpu_ids
  distances ← pair_distance_list s (map (λ g. g.node_id) selected)
  ok (record s {
    topology_counts =
        count_placement satisfied distances
          (count_gang j.gang (length node_ids) racks zones s.topology_counts);
  })

abbrev pub was_preempted : Job → Bool
was_preempted j =
    ltb 0 j.preemption_count
    || ltb 0 j.accumulated_runtime
    || ltb 0 j.productive_work_completed
    || ltb 0 j.recovery_count

-- `job.first_start_time if … else now`
abbrev first_start : ℕ → Option ℕ → Option ℕ
first_start now none = some now
first_start now (some start) = some start

abbrev pub dispatched : ℕ → ℕ → ℕ → Job → Job
dispatched now priority replicas j = record j {
  current_replicas = replicas;
  running_priority = some priority;
  first_start_time = first_start now j.first_start_time;
  run_generation = suc j.run_generation;
}

abbrev pub restarting_state : ℕ → List String → Job → Simulator → Simulator
restarting_state now node_ids j s =
    let waiting : Job = record j {
      status = restarting;
      last_start_time = none;
      restart_overhead = j.restart_overhead + j.restart_cost;
    } in
    record_trace (trace_of now job_restart j.id j.allocated_gpu_ids node_ids "")
      (put_job waiting (record s { restarting = without_id j.id s.restarting ++ j.id ∷ [] }))

abbrev pub active_job : ℕ → Job → Job
active_job now j = record j { status = running; last_start_time = some now }

abbrev pub running_state : ℕ → List String → Bool → Job → Simulator → Simulator
running_state now node_ids resumes j s =
    let kind : EventType = if resumes then job_resume else job_start in
    record_trace (trace_of now kind j.id j.allocated_gpu_ids node_ids "")
      (put_job (active_job now j) (record s { running = without_id j.id s.running ++ j.id ∷ [] }))

-- A job that ran before restarts first, if that takes time.
abbrev pub start_again : ℕ → List String → Bool → Job → Simulator → Result Simulator
start_again now node_ids resumes j s =
    if resumes && ltb 0 j.restart_cost
    then push_event (now + j.restart_cost) job_restart_complete j.id j.run_generation
        (restarting_state now node_ids j s)
    else schedule_completion (active_job now j) now (running_state now node_ids resumes j s)

module _ {S : Type 0} (on_job_started : Job → ℕ → S → Result (S × Job)) where
  -- What follows the allocation, with the job as it was.
  abbrev pub begin : Policy → Job → List String → ℕ → S → Job → Simulator → Result (S × Simulator)
  begin policy was placement now scheduler begun placed = do
    node_ids ← node_ids_of placed placement
    counted ← record_topology_placement begun placement node_ids placed
    unreserved ← release_preemption_reservation policy was.id now counted
    told ← on_job_started begun now scheduler
    started ← start_again now node_ids (was_preempted was) told.1 unreserved
    ok (told.0, started)

  abbrev pub placed_state : Policy → Job → List String → ℕ → Simulator → Cluster × Job → Simulator
  placed_state policy j placement now s allocated =
      put_job
        (dispatched now (effective_priority j now policy.aging_interval) (length placement)
          allocated.1)
        (record s { cluster = allocated.0; pending = without_id j.id s.pending })

  abbrev pub begin_allocated :
      Policy → Job → List String → ℕ → S → Simulator → Cluster × Job → Result (S × Simulator)
  begin_allocated policy j placement now scheduler s allocated = do
    raise_if (not (elem j.id s.pending)) (value_error "list.remove(x): x not in list")
    begin policy j placement now scheduler
        (dispatched now (effective_priority j now policy.aging_interval) (length placement)
          allocated.1)
        (placed_state policy j placement now s allocated)

  -- `_start`
  unfoldable pub start : Policy → Job → List String → ℕ → S → Simulator → Result (S × Simulator)
  start policy j placement now scheduler s = do
    allocated ← allocate s.cluster j placement
    begin_allocated policy j placement now scheduler s allocated
