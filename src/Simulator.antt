-- ===== src/Simulator.antt =====
-- The simulator's state and its events (gpu_scheduler_lab/simulator/engine.py). A job is held once
-- and elsewhere named by its id, as the source's lists and dicts share the object. The heap of
-- events is the list of them in their order. What a handler raises ends the simulation, so that
-- the state it leaves is not kept.
pub mod Lifecycle
pub mod Preemption
pub mod Queue
pub mod Fence
pub mod Completion
pub mod Returns
pub mod Reservations
pub mod Start
pub mod Ownership
pub mod Started
pub mod Capacity
pub mod Arrivals
pub mod Scheduler
pub mod Preempting
pub mod Reclaiming
pub mod Dispatch
pub mod Resizing
pub mod Areas
pub mod Run
use gpu_scheduler_lab.Queues.Hierarchy.{Usage}
use gpu_scheduler_lab.Models.Job.{
  status_eq, restarting, checkpointing, running, effective_priority, JobStatus, Job,
}
use gpu_scheduler_lab.Models.Events.{
  job_complete, job_checkpoint_complete, job_restart_complete, job_arrival, job_admit, job_reject,
  job_start, job_preempt, job_restart, job_resume, elastic_scale_up, elastic_scale_down, fleet,
  compare_event, scheduler_tick, event_order, fleet, TraceRecord, EventType, Event,
}
use gpu_scheduler_lab.Models.Cluster.{gpu_by_id, Cluster}
use gpu_scheduler_lab.Prelude.{
  map, dedup, compare_text, sort, insert_sorted, ◌+◌, nat_eq, key_error, ◌==◌, ◌&&◌, traverse,
  text_eq_instance, raise_if, lookup, ◌∷◌, ◌>>◌, ◌>>=◌, ◌++◌, or_raise, leb, is_empty, insert,
  filter, elem, Option, not, if◌then◌else◌, String, Result, List, Dict, Bool, suc, ok, false, true,
  some, none, [], ℕ,
}

-- What the handlers here ask of the scheduler.
pub record Policy : Type 0 where
  pub supports_preemption : Bool
  pub aging_interval : ℕ

-- The counters of `_record_topology_placement`.
pub record TopologyCounts : Type 0 where
  pub cross_node_gangs : ℕ
  pub same_node_gangs : ℕ
  pub same_rack_gangs : ℕ
  pub cross_rack_gangs : ℕ
  pub cross_zone_gangs : ℕ
  pub distance_sum : ℕ
  pub distance_samples : ℕ
  pub requirement_violations : ℕ

-- What the simulator counts of rejections, fleet events, resizes and attempts to place a job.
pub record Tally : Type 0 where
  pub rejection_reasons : Dict String ℕ
  pub fleet_counts : Dict String ℕ
  pub jobs_affected_by_capacity_loss : List String
  pub last_resize_time : Dict String ℕ
  pub scheduling_attempts : ℕ
  pub failed_attempts : ℕ

pub record Simulator : Type 0 where
  pub cluster : Cluster
  pub by_id : Dict String Job
  pub pending : List String
  pub running : List String
  pub checkpointing : List String
  pub restarting : List String
  pub suspended_victims : List String
  pub preemption_target_by_victim : Dict String String
  pub preemption_reserved_gpus : Dict String (List String)
  pub preemption_reservation_reason : Dict String String
  pub preemption_reclaim_entitlements : Dict String (List String)
  pub trace : List TraceRecord
  pub events : List Event
  pub sequence : ℕ
  pub runnable_demand_by_job : Usage
  pub direct_runnable_demand : Usage
  pub topology_counts : TopologyCounts
  pub tally : Tally

-- `self.by_id[job_id]`
abbrev pub job_of : Simulator → String → Result Job
job_of s job_id = or_raise (lookup job_id s.by_id) (key_error job_id)

abbrev pub put_job : Job → Simulator → Simulator
put_job j s = record s { by_id = insert j.id j s.by_id }

abbrev pub record_trace : TraceRecord → Simulator → Simulator
record_trace r s = record s { trace = s.trace ++ r ∷ [] }

-- The remaining members, and `d.pop(job_id)`, where a missing key raises.
abbrev pub without_id : String → List String → List String
without_id job_id ids = filter (λ id. not (id == job_id)) ids

abbrev pub pop_id : String → List String → Result (List String)
pop_id job_id ids = do
  raise_if (not (elem job_id ids)) (key_error job_id)
  ok (without_id job_id ids)

-- `_push_event`
unfoldable pub push_event : ℕ → EventType → String → ℕ → Simulator → Result Simulator
push_event at kind job_id generation s = do
  order ← or_raise (event_order kind) (key_error "event order")
  ok (record s {
    sequence = suc s.sequence;
    events =
        insert_sorted compare_event
          (record {
            time = at;
            order = order;
            sequence = suc s.sequence;
            event_type = kind;
            job_id = job_id;
            generation = generation;
          })
          s.events;
  })

-- `_node_ids`
abbrev pub node_ids_of : Simulator → List String → Result (List String)
node_ids_of s gpu_ids = do
  selected ← traverse (gpu_by_id s.cluster) gpu_ids
  ok (sort compare_text (dedup (map (λ g. g.node_id) selected)))

-- `_schedule_aging_tick`
unfoldable pub schedule_aging_tick : Policy → Job → ℕ → Simulator → Result Simulator
schedule_aging_tick policy j now s =
    if not policy.supports_preemption
    then ok s
    else if leb 3 (effective_priority j now policy.aging_interval)
    then ok s
    else push_event (now + policy.aging_interval) scheduler_tick j.id 0 s

-- The status in which a job expects an event, for the events that have a generation.
abbrev pub expected_status : EventType → Option JobStatus
expected_status job_complete = some running
expected_status job_checkpoint_complete = some checkpointing
expected_status job_restart_complete = some restarting
expected_status job_arrival = none
expected_status job_admit = none
expected_status job_reject = none
expected_status job_start = none
expected_status job_preempt = none
expected_status job_restart = none
expected_status job_resume = none
expected_status elastic_scale_up = none
expected_status elastic_scale_down = none
expected_status (fleet kind) = none
expected_status scheduler_tick = none

-- The event's job is in the status that it expects, and of its generation.
abbrev pub is_current : Job → JobStatus → Event → Bool
is_current j status e = j.status == status && nat_eq e.generation j.run_generation

-- The loop of `_discard_stale_generation_events`.
unfoldable pub discard_stale : Dict String Job → List Event → Result (List Event)
discard_stale by_id [] = ok []
discard_stale by_id (e ∷ rest) =
    let later = discard_stale by_id rest in
    elim (expected_status e.event_type) [
      | none ↦ ok (e ∷ rest)
      | some status ↦ or_raise (lookup e.job_id by_id) (key_error e.job_id) >>= λ j.
          if is_current j status e then ok (e ∷ rest) else later
    ]

unfoldable pub discard_stale_generation_events : Simulator → Result Simulator
unfolding discard_stale
discard_stale_generation_events s = do
  kept ← discard_stale s.by_id s.events
  ok (record s { events = kept })

abbrev pub is_tick : EventType → Bool
is_tick scheduler_tick = true
is_tick job_complete = false
is_tick job_checkpoint_complete = false
is_tick job_restart_complete = false
is_tick job_arrival = false
is_tick job_admit = false
is_tick job_reject = false
is_tick job_start = false
is_tick job_preempt = false
is_tick job_restart = false
is_tick job_resume = false
is_tick elastic_scale_up = false
is_tick elastic_scale_down = false
is_tick (fleet kind) = false

-- The loops of `_discard_obsolete_ticks` and `_discard_aging_ticks_without_running_jobs`.
abbrev pub drop_ticks : (Event → Bool) → List Event → List Event
drop_ticks obsolete [] = []
drop_ticks obsolete (e ∷ rest) =
    if is_tick e.event_type && obsolete e then drop_ticks obsolete rest else e ∷ rest

unfoldable pub discard_obsolete_ticks : Simulator → Simulator
discard_obsolete_ticks s = record s {
  events = drop_ticks (λ e. not (elem e.job_id s.pending)) s.events;
}

unfoldable pub discard_idle_ticks : Simulator → Simulator
discard_idle_ticks s =
    if is_empty s.running && is_empty s.checkpointing && is_empty s.restarting
    then record s { events = drop_ticks (λ e. true) s.events }
    else s
