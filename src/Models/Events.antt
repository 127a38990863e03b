-- ===== src/Models/Events.antt =====
-- gpu_scheduler_lab/models/events.py: the simulator's events, their order and its trace.
use gpu_scheduler_lab.Fleet.{is_capacity_gain, FleetEventType}
use gpu_scheduler_lab.Prelude.{
  compare_ℕ, if◌then◌else◌, and_then, List, String, Ordering, Option, some, none, ℕ,
}

pub data EventType : Type 0 where
  job_complete job_checkpoint_complete job_restart_complete job_arrival : EventType
  job_admit job_reject job_start job_preempt job_restart job_resume : EventType
  elastic_scale_up elastic_scale_down : EventType
  fleet : FleetEventType → EventType
  scheduler_tick : EventType

-- `EVENT_ORDER`, where the events that are only traced have no order
abbrev pub event_order : EventType → Option ℕ
event_order job_complete = some 0
event_order job_checkpoint_complete = some 1
event_order job_restart_complete = some 2
event_order job_arrival = some 5
event_order (fleet kind) = some (if is_capacity_gain kind then 3 else 4)
event_order scheduler_tick = some 6
event_order job_admit = none
event_order job_reject = none
event_order job_start = none
event_order job_preempt = none
event_order job_restart = none
event_order job_resume = none
event_order elastic_scale_up = none
event_order elastic_scale_down = none

pub record Event : Type 0 where
  pub time : ℕ
  pub order : ℕ
  pub sequence : ℕ
  pub event_type : EventType
  pub job_id : String
  pub generation : ℕ

-- The generated order. Sequence numbers are unique, so that the other fields never decide.
abbrev pub compare_event : Event → Event → Ordering
compare_event a b =
    and_then (compare_ℕ a.time b.time)
      (and_then (compare_ℕ a.order b.order) (compare_ℕ a.sequence b.sequence))

pub record TraceRecord : Type 0 where
  pub time : ℕ
  pub event : EventType
  pub job_id : String
  pub gpu_ids : List String
  pub node_ids : List String
  pub detail : String
