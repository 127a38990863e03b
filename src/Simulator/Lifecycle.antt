-- ===== src/Simulator/Lifecycle.antt =====
-- How jobs complete, end their checkpoints and restart
-- (gpu_scheduler_lab/simulator/engine.py). Work is counted in replicas by billionths of a second,
-- and a quotient is rounded down to these.
use gpu_scheduler_lab.Models.Elastic.{unit}
use gpu_scheduler_lab.Models.Cluster.Allocation.{release}
use gpu_scheduler_lab.Queues.Hierarchy.{usage_of, Usage}
use gpu_scheduler_lab.Simulator.{
  schedule_aging_tick, without_id, record_trace, is_current, put_job, push_event, pop_id,
  node_ids_of, job_of, Simulator, Policy,
}
use gpu_scheduler_lab.Queues.Resource.{◌⊟◌, ResourceVector}
use gpu_scheduler_lab.Models.Job.{
  status_eq, restarting, running, productive_rate, total_productive_work, remaining_duration,
  checkpointing, pending, completed, Job,
}
use gpu_scheduler_lab.Models.Events.{
  job_restart_complete, job_resume, job_complete, job_checkpoint_complete, TraceRecord, EventType,
  Event,
}
use gpu_scheduler_lab.Prelude.{
  ◌∷◌, ◌<>◌, ◌++◌, ◌/◌, text_eq_instance, runtime_error, insert, ◌*◌, ◌&&◌, remove, raise_if,
  contains, ◌>>◌, ◌>>=◌, ◌-◌, nat_eq, lookup, if◌then◌else◌, ◌+◌, min, Result, List, Bool, String,
  ok, false, true, some, none, [], ℕ,
}

-- `_accrue_productive_work`
unfoldable pub accrue_productive_work : ℕ → Job → Result Job
accrue_productive_work now j = elim j.last_start_time [
  | none ↦ ok j
  | some start ↦ elim j.elastic [
    | none ↦ ok (record j {
      accumulated_runtime = j.accumulated_runtime + (now - start);
      productive_work_completed =
          min (total_productive_work j.spec)
            ((j.accumulated_runtime + (now - start)) * j.gpu_count);
    })
    | some e ↦ (do
      rate ← productive_rate j j.current_replicas
      ok (record j {
        productive_work_completed =
            min (total_productive_work j.spec)
              (j.productive_work_completed + (now - start) * rate / unit);
      }))
  ]
]

-- How long a job still runs.
abbrev pub completion_delay : Job → Result ℕ
completion_delay j = elim j.elastic [
  | none ↦ ok (remaining_duration j)
  | some e ↦ (do
    rate ← productive_rate j j.current_replicas
    ok ((total_productive_work j.spec - j.productive_work_completed) * unit / rate))
]

-- `_schedule_completion`
unfoldable pub schedule_completion : Job → ℕ → Simulator → Result Simulator
schedule_completion j now s = do
  delay ← completion_delay j
  push_event (now + delay) job_complete j.id j.run_generation s

abbrev pub is_nothing : ResourceVector → Bool
is_nothing v = nat_eq v.gpu_units 0 && nat_eq v.gpu_memory_gb 0

abbrev pub put_remaining : String → ResourceVector → Usage → Usage
put_remaining queue_id v usage =
    if is_nothing v then remove queue_id usage else insert queue_id v usage

-- `_remove_runnable_demand`
unfoldable pub remove_runnable_demand : Job → Simulator → Simulator
remove_runnable_demand j s = elim (lookup j.id s.runnable_demand_by_job) [
  | none ↦ s
  | some demand ↦ record s {
    runnable_demand_by_job = remove j.id s.runnable_demand_by_job;
    direct_runnable_demand =
        put_remaining j.queue_id (usage_of s.direct_runnable_demand j.queue_id ⊟ demand)
          s.direct_runnable_demand;
  }
]

-- `self.cluster.release(job)`
abbrev pub release_job : Job → Simulator → Result (Simulator × Job)
release_job j s = let out = release s.cluster j in out.0 >> ok (record s { cluster = out.1 }, out.2)

abbrev pub trace_of : ℕ → EventType → String → List String → List String → String → TraceRecord
trace_of now kind job_id gpu_ids node_ids detail = record {
  time = now;
  event = kind;
  job_id = job_id;
  gpu_ids = gpu_ids;
  node_ids = node_ids;
  detail = detail;
}

-- What a job has done is at most what it asked for.
abbrev pub cap_work : Job → Job
cap_work j = elim j.elastic [
  | none ↦ record j { accumulated_runtime = min j.duration j.accumulated_runtime }
  | some e ↦ record j {
    productive_work_completed = min (total_productive_work j.spec) j.productive_work_completed;
  }
]

abbrev pub completed_job : ℕ → Job → Job
completed_job now j = record j {
  status = completed;
  completion_time = some now;
  last_start_time = none;
  running_priority = none;
  current_replicas = 0;
}

abbrev pub has_not_started : Job → Bool
has_not_started j = elim j.last_start_time [ none ↦ true | some start ↦ false ]

abbrev pub completed_state : ℕ → Job → List String → List String → Simulator × Job → Simulator
completed_state now j node_ids still_running released =
    let done : Job = completed_job now released.1 in
    record_trace (trace_of now job_complete j.id j.allocated_gpu_ids node_ids "")
      (put_job done (remove_runnable_demand done (record released.0 { running = still_running })))

-- What follows the release of the GPUs.
abbrev pub conclude : ℕ → Job → List String → Simulator × Job → Result Simulator
conclude now j node_ids released = do
  still_running ← pop_id j.id released.0.running
  ok (completed_state now j node_ids still_running released)

abbrev pub complete_accrued : ℕ → Job → Simulator → Job → Result Simulator
complete_accrued now j s accrued = do
  node_ids ← node_ids_of s j.allocated_gpu_ids
  released ← release_job (cap_work accrued) s
  conclude now j node_ids released

-- The part of `_complete` after the test of the event's generation.
abbrev pub complete_current : ℕ → Job → Simulator → Result Simulator
complete_current now j s = do
  raise_if (has_not_started j) (runtime_error ("running job " <> j.id <> " has no start time"))
  accrued ← accrue_productive_work now j
  complete_accrued now j s accrued

-- `_complete`
unfoldable pub complete : Event → ℕ → Simulator → Result Simulator
complete e now s = do
  j ← job_of s e.job_id
  (if is_current j running e then complete_current now j s else ok s)

-- A suspended job waits for the job that it made room for; another one is pending again.
abbrev pub requeue : Policy → ℕ → Job → Simulator → Result Simulator
requeue policy now j s =
    if contains j.id s.preemption_target_by_victim
    then ok (record s { suspended_victims = without_id j.id s.suspended_victims ++ j.id ∷ [] })
    else schedule_aging_tick policy j now (record s { pending = s.pending ++ j.id ∷ [] })

abbrev pub suspended_job : Job → Job
suspended_job j = record j { status = pending; current_replicas = 0 }

-- The part of `_complete_checkpoint` after the test of the event's generation.
abbrev pub checkpoint_current : Policy → ℕ → Job → Simulator → Result Simulator
checkpoint_current policy now j s = do
  node_ids ← node_ids_of s j.allocated_gpu_ids
  released ← release_job j s
  still ← pop_id j.id s.checkpointing
  let waiting : Job = suspended_job released.1
  requeued ←
      requeue policy now waiting (put_job waiting (record released.0 { checkpointing = still }))
  ok (
      record_trace (trace_of now job_checkpoint_complete j.id j.allocated_gpu_ids node_ids "")
        requeued)

-- `_complete_checkpoint`
unfoldable pub complete_checkpoint : Policy → Event → ℕ → Simulator → Result Simulator
complete_checkpoint policy e now s = do
  j ← job_of s e.job_id
  (if is_current j checkpointing e then checkpoint_current policy now j s else ok s)

-- The part of `_complete_restart` after the test of the event's generation.
abbrev pub restart_current : ℕ → Job → Simulator → Result Simulator
restart_current now j s = do
  still ← pop_id j.id s.restarting
  let resumed : Job = record j { status = running; last_start_time = some now }
  schedule_completion resumed now (
      record_trace (trace_of now job_resume j.id [] [] "") (
        record_trace (trace_of now job_restart_complete j.id [] [] "") (
          put_job resumed
            (record s { restarting = still; running = without_id j.id s.running ++ j.id ∷ [] }))))

-- `_complete_restart`
unfoldable pub complete_restart : Event → ℕ → Simulator → Result Simulator
complete_restart e now s = do
  j ← job_of s e.job_id
  (if is_current j restarting e then restart_current now j s else ok s)
