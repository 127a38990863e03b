-- ===== src/Simulator/Preemption.antt =====
-- How a running job gives its GPUs up for another one (gpu_scheduler_lab/simulator/engine.py).
use gpu_scheduler_lab.Models.Events.{job_preempt, job_checkpoint_complete}
use gpu_scheduler_lab.Models.Job.{checkpointing, Job}
use gpu_scheduler_lab.Simulator.{
  without_id, pop_id, node_ids_of, put_job, record_trace, push_event, Simulator, Policy,
}
use gpu_scheduler_lab.Prelude.{
  ◌∷◌, ◌++◌, nat_eq, ◌<>◌, runtime_error, text_eq_instance, raise_if, ◌>>◌, ◌>>=◌, ◌==◌,
  if◌then◌else◌, Result, ◌+◌, List, ℕ, String, suc, ok, none, [],
}
use gpu_scheduler_lab.Simulator.Lifecycle.{
  trace_of, accrue_productive_work, requeue, suspended_job, release_job, has_not_started,
}

abbrev preempted_job : String → Job → Job
preempted_job reason j = record j {
  last_start_time = none;
  running_priority = none;
  preemption_count = suc j.preemption_count;
  reclaim_victim_count = j.reclaim_victim_count + (if reason == "PREEMPT_RECLAIM" then 1 else 0);
  checkpoint_overhead = j.checkpoint_overhead + j.checkpoint_cost;
}

-- A job without a checkpoint gives its GPUs up at once.
abbrev suspend_now : Policy → ℕ → String → List String → Job → Simulator → Result Simulator
suspend_now policy now detail node_ids j s = do
  released ← release_job j s
  let waiting : Job = suspended_job released.1
  requeued ← requeue policy now waiting (put_job waiting released.0)
  ok (record_trace (trace_of now job_preempt j.id j.allocated_gpu_ids node_ids detail) requeued)

abbrev start_checkpoint : ℕ → String → Job → Simulator → Result Simulator
start_checkpoint now detail j s =
    let saving : Job = record j { status = checkpointing } in
    push_event (now + j.checkpoint_cost) job_checkpoint_complete j.id j.run_generation (
      record_trace (trace_of now job_preempt j.id [] [] detail) (
        put_job saving (record s { checkpointing = without_id j.id s.checkpointing ++ j.id ∷ [] })))

-- `_begin_preemption`
unfoldable pub begin_preemption : Policy → Job → ℕ → String → String → Simulator → Result Simulator
begin_preemption policy j now incoming_id reason s = do
  raise_if (has_not_started j) (runtime_error ("running job " <> j.id <> " has no start time"))
  accrued ← accrue_productive_work now j
  node_ids ← node_ids_of s j.allocated_gpu_ids
  still_running ← pop_id j.id s.running
  let victim : Job = preempted_job reason accrued
  let detail = "reason=" <> reason <> ";preempted_for=" <> incoming_id
  (if nat_eq j.checkpoint_cost 0
      then suspend_now policy now detail node_ids victim (record s { running = still_running })
      else start_checkpoint now detail victim (record s { running = still_running }))
