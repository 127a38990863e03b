-- ===== src/Simulator/Capacity.antt =====
-- How nodes join, drain, fail and come back while jobs run
-- (gpu_scheduler_lab/simulator/engine.py).
pub mod Interrupted
pub mod Steps
pub mod Shrunk
pub mod Lost
pub mod Handled
use gpu_scheduler_lab.Simulator.Reservations.{release_preemption_reservation}
use gpu_scheduler_lab.Simulator.Lifecycle.{
  schedule_completion, release_job, accrue_productive_work, trace_of,
}
use gpu_scheduler_lab.Models.Cluster.Allocation.{resize}
use gpu_scheduler_lab.Models.Events.{elastic_scale_down, job_preempt, fleet, TraceRecord}
use gpu_scheduler_lab.Simulator.{node_ids_of, put_job, without_id, record_trace, Simulator, Policy}
use gpu_scheduler_lab.Models.Job.{status_eq, running, pending, Job}
use gpu_scheduler_lab.Models.Cluster.{gpu_by_id, Node, Gpu, Cluster}
use gpu_scheduler_lab.Fleet.{
  node_join, node_drain, node_fail, node_recover, capacity_revoke, capacity_return, fleet_value,
  set_add, FleetEventType,
}
use gpu_scheduler_lab.Prelude.{
  leb, ◌++◌, ◌&&◌, not, insert, any, text_eq_instance, stop_iteration, length, keys, key_error,
  dedup, contains, ◌>>◌, ◌==◌, traverse, lookup, is_empty, find, filter, elem, compare_text, ◌∷◌,
  ◌>>=◌, sort, or_raise, if◌then◌else◌, flat_map, decimal, Bool, ◌<>◌, ◌+◌, map, Result, List,
  String, suc, ok, false, true, some, none, [], ℕ,
}

-- `job` as `_interrupt_for_capacity_loss` leaves it.
abbrev pub interrupted_job : Job → Job
interrupted_job j = record j {
  current_replicas = 0;
  last_start_time = none;
  running_priority = none;
  run_generation = suc j.run_generation;
  recovery_count = suc j.recovery_count;
  recovery_overhead = j.recovery_overhead + j.restart_cost;
  status = pending;
}

abbrev pub accrue_if_running : ℕ → Job → Result Job
accrue_if_running now j = if j.status == running then accrue_productive_work now j else ok j

-- The job is in none of the dicts of jobs that hold GPUs.
abbrev pub without_holder : String → Simulator → Simulator
without_holder job_id s = record s {
  running = without_id job_id s.running;
  checkpointing = without_id job_id s.checkpointing;
  restarting = without_id job_id s.restarting;
}

abbrev pub release_held : Job → Simulator → Result (Simulator × Job)
release_held j s = if is_empty j.allocated_gpu_ids then ok (s, j) else release_job j s

-- A job that is not pending waits for the job that it made room for, or is pending again.
abbrev pub wait_again : String → Simulator → Simulator
wait_again job_id s =
    if elem job_id s.pending
    then s
    else if contains job_id s.preemption_target_by_victim
    then record s { suspended_victims = without_id job_id s.suspended_victims ++ job_id ∷ [] }
    else record s { pending = s.pending ++ job_id ∷ [] }

abbrev pub interrupted_state : ℕ → FleetEventType → Simulator × Job → Simulator
interrupted_state now kind released =
    let waiting : Job = interrupted_job released.1 in
    record_trace
      (trace_of now job_preempt waiting.id [] []
        ("reason=PREEMPT_CAPACITY_REVOKE;event=" <> fleet_value kind))
      (wait_again waiting.id (put_job waiting released.0))

-- `_interrupt_for_capacity_loss`
unfoldable pub interrupt_for_capacity_loss : Job → ℕ → FleetEventType → Simulator → Result Simulator
interrupt_for_capacity_loss j now kind s = do
  accrued ← accrue_if_running now j
  released ← release_held accrued (without_holder j.id s)
  ok (interrupted_state now kind released)

abbrev pub find_node : String → Cluster → Result Node
find_node node_id c = or_raise (find (λ n. n.id == node_id) c.nodes) stop_iteration

-- `sorted({gpu.owner_job_id for gpu in node.gpus if gpu.owner_job_id is not None})`
abbrev pub owner_list : Gpu → List String
owner_list g = elim g.owner_job_id [ none ↦ [] | some owner ↦ owner ∷ [] ]

abbrev pub owners_on : Node → List String
owners_on n = sort compare_text (dedup (flat_map owner_list n.gpus))

-- The GPUs of a job that stand on other nodes.
abbrev pub unaffected_gpus : Cluster → String → List String → Result (List String)
unaffected_gpus c node_id gpu_ids = do
  held ← traverse (gpu_by_id c) gpu_ids
  ok (map (λ g. g.id) (filter (λ g. not (g.node_id == node_id)) held))

abbrev pub can_shrink : Job → List String → Bool
can_shrink j unaffected = elim j.elastic [
  | none ↦ false
  | some e ↦ j.status == running && leb e.min_replicas (length unaffected)
]

-- `self.cluster.resize(job, target)`
abbrev pub resize_job : Job → List String → Simulator → Result (Simulator × Job)
resize_job j target s =
    let out = resize s.cluster j target in out.0 >> ok (record s { cluster = out.1 }, out.2)

-- The job at another number of replicas, before it is resized and after.
abbrev pub rescheduled : ℕ → Job → Job
rescheduled now j = record j { last_start_time = some now; run_generation = suc j.run_generation }

abbrev pub with_replicas : ℕ → Job → Job
with_replicas n j = record j { current_replicas = n; requested_replicas = n }

abbrev pub shrunk_job : ℕ → Job → Job
shrunk_job n j = record (with_replicas n j) {
  elastic_scale_down_count = suc j.elastic_scale_down_count;
  resize_churn_count = suc j.resize_churn_count;
}

abbrev pub scale_detail : ℕ → ℕ → String
scale_detail old new = "replicas=" <> decimal old <> "->" <> decimal new

-- The branch of `_capacity_loss` for a job that goes on with the GPUs it keeps.
abbrev pub shrink_job : Job → ℕ → String → List String → Simulator → Result Simulator
shrink_job j now reason target s = do
  accrued ← accrue_productive_work now j
  resized ← resize_job (rescheduled now accrued) target s
  let shrunk : Job = shrunk_job (length target) resized.1
  node_ids ← node_ids_of resized.0 target
  let detail = "reason=" <> reason <> ";" <> scale_detail j.current_replicas (length target)
  schedule_completion shrunk now (
      record_trace (trace_of now elastic_scale_down j.id target node_ids detail)
        (put_job shrunk resized.0))

abbrev pub count_affected : String → Simulator → Simulator
count_affected job_id s = record s {
  tally = record s.tally {
    jobs_affected_by_capacity_loss = set_add job_id s.tally.jobs_affected_by_capacity_loss;
  };
}

abbrev pub lose_capacity : String → ℕ → FleetEventType → Job → Simulator → Result Simulator
lose_capacity node_id now kind j s = do
  unaffected ← unaffected_gpus s.cluster node_id j.allocated_gpu_ids
  (if can_shrink j unaffected
      then shrink_job j now (fleet_value kind) unaffected (count_affected j.id s)
      else interrupt_for_capacity_loss j now kind (count_affected j.id s))

-- The loop over the owners; one that is no job of the simulator is passed over.
unfoldable pub lose_capacity_of :
    String → ℕ → FleetEventType → List String → Simulator → Result Simulator
unfolding interrupt_for_capacity_loss
lose_capacity_of node_id now kind [] s = ok s
lose_capacity_of node_id now kind (job_id ∷ rest) s =
    let skipped = lose_capacity_of node_id now kind rest s in
    elim (lookup job_id s.by_id) [
      | none ↦ skipped
      | some j ↦ (do
        after ← lose_capacity node_id now kind j s
        lose_capacity_of node_id now kind rest after)
    ]

-- `_capacity_loss`
unfoldable pub capacity_loss : String → ℕ → FleetEventType → Simulator → Result Simulator
unfolding lose_capacity_of
capacity_loss node_id now kind s = do
  node ← find_node node_id s.cluster
  lose_capacity_of node_id now kind (owners_on node) s

-- The ids of the GPUs on a node, and the jobs that GPUs of them are kept for.
abbrev pub gpu_ids_on : String → Cluster → List String
gpu_ids_on node_id c =
    flat_map (λ n. map (λ g. g.id) n.gpus) (filter (λ n. n.id == node_id) c.nodes)

abbrev pub targets_on : String → Simulator → List String
targets_on node_id s = sort compare_text (
    keys (
      filter (λ item. any (λ gpu_id. elem gpu_id (gpu_ids_on node_id s.cluster)) item.1)
        s.preemption_reserved_gpus))

abbrev pub release_reservations : Policy → ℕ → List String → Simulator → Result Simulator
release_reservations policy now [] s = ok s
release_reservations policy now (target_id ∷ rest) s = do
  after ← release_preemption_reservation policy target_id now s
  release_reservations policy now rest after

-- `_invalidate_reservations_for_node`
unfoldable pub invalidate_reservations_for_node : Policy → String → ℕ → Simulator → Result Simulator
invalidate_reservations_for_node policy node_id now s =
    release_reservations policy now (targets_on node_id s) s

abbrev pub update_node : String → (Node → Node) → Cluster → Cluster
update_node node_id f c = record { nodes = map (λ n. if n.id == node_id then f n else n) c.nodes }

abbrev pub set_node : String → (Node → Node) → Simulator → Simulator
set_node node_id f s = record s { cluster = update_node node_id f s.cluster }

abbrev pub available_node : Node → Node
available_node n = record n { available = true; draining = false; schedulable = true }

abbrev pub draining_node : Node → Node
draining_node n = record n { schedulable = false; draining = true }

abbrev pub lost_node : Node → Node
lost_node n = record n { schedulable = false; draining = false; available = false }

abbrev pub lose_node : Policy → FleetEventType → String → ℕ → Simulator → Result Simulator
lose_node policy kind node_id now s = do
  invalidated ← invalidate_reservations_for_node policy node_id now (set_node node_id lost_node s)
  capacity_loss node_id now kind invalidated

-- What the event does to its node and to the jobs on it.
abbrev pub change_node : Policy → FleetEventType → String → ℕ → Simulator → Result Simulator
change_node policy node_join node_id now s = ok (set_node node_id available_node s)
change_node policy node_drain node_id now s =
    invalidate_reservations_for_node policy node_id now (set_node node_id draining_node s)
change_node policy node_fail node_id now s = lose_node policy node_fail node_id now s
change_node policy capacity_revoke node_id now s = lose_node policy capacity_revoke node_id now s
change_node policy node_recover node_id now s = ok (set_node node_id available_node s)
change_node policy capacity_return node_id now s = ok (set_node node_id available_node s)

-- `self._fleet_counts[event.event_type.value] += 1`
abbrev pub count_fleet_event : FleetEventType → Simulator → Result Simulator
count_fleet_event kind s = do
  seen ← or_raise (lookup (fleet_value kind) s.tally.fleet_counts) (key_error (fleet_value kind))
  ok (record s {
    tally = record s.tally {
      fleet_counts = insert (fleet_value kind) (suc seen) s.tally.fleet_counts;
    };
  })

abbrev pub fleet_trace : ℕ → FleetEventType → Node → TraceRecord
fleet_trace now kind n = trace_of now (fleet kind) n.id (map (λ g. g.id) n.gpus) (n.id ∷ []) ""

-- `_handle_fleet_event`
unfoldable pub handle_fleet_event :
    Policy → FleetEventType → String → ℕ → Simulator → Result Simulator
unfolding invalidate_reservations_for_node capacity_loss
handle_fleet_event policy kind node_id now s = do
  node ← find_node node_id s.cluster
  counted ← count_fleet_event kind s
  changed ← change_node policy kind node_id now counted
  ok (record_trace (fleet_trace now kind node) changed)
