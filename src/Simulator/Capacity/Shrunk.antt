-- ===== src/Simulator/Capacity/Shrunk.antt =====
-- What a step of the loop over a lost node's owners does, where the job goes on with the GPUs it
-- keeps and where it does not (gpu_scheduler_lab/simulator/engine.py).
use gpu_scheduler_lab.Simulator.Ownership.{schedule_completion-cluster}
use gpu_scheduler_lab.Models.Cluster.Resized.{resize-writes, resize-owners}
use gpu_scheduler_lab.Simulator.Capacity.Interrupted.{
  interrupt_for_capacity_loss-IsInterrupted, accrue-SameHolding,
}
use gpu_scheduler_lab.Models.Cluster.Allocation.{resize}
use gpu_scheduler_lab.Simulator.Capacity.Steps.{
  map_gpus-fleet_states, fleet_states, freed-IsVacant, interrupted-LosesCapacity, kept_elsewhere,
  LosesCapacity,
}
use gpu_scheduler_lab.Models.Cluster.{gpu_by_id, gpus, find_gpu, Gpu, Cluster}
use gpu_scheduler_lab.Simulator.Capacity.{
  unaffected_gpus, scale_detail, interrupt_for_capacity_loss, rescheduled, count_affected,
  shrink_job, shrunk_job, can_shrink, resize_job, lose_capacity,
}
use gpu_scheduler_lab.Models.Events.{elastic_scale_down, job_complete, event_order, EventType}
use gpu_scheduler_lab.Fleet.{fleet_value, FleetEventType}
use gpu_scheduler_lab.Simulator.Lifecycle.{
  trace_of, accrue_productive_work, completion_delay, schedule_completion,
}
use gpu_scheduler_lab.Simulator.{put_job, record_trace, node_ids_of, Simulator, push_event}
use gpu_scheduler_lab.Models.Job.{Job}
use gpu_scheduler_lab.Prelude.{
  ok-injective, text_eq_instance, insert, ◌∙◌, Bool-cases, not, filter, map, ◌<>◌, traverse, ap,
  ◌==◌, sym, length, ◌+◌, arith, Result-cases, if◌then◌else◌, ◌>>=◌, Option-cases, >>=-eq-ok, ◌≡◌,
  elem, Result, List, String, inr, inl, ok, false, true, some, ℕ,
}

push_event-by_id :
    (at : ℕ) (kind : EventType) (job_id : String) (generation : ℕ) (s : Simulator) {s' : Simulator}
    → push_event at kind job_id generation s ≡ ok s'
    → s'.by_id ≡ s.by_id
unfolding push_event
push_event-by_id at kind job_id generation s h = elim (Option-cases (event_order kind)) [
  | inl never ↦ absurd (ground arith)
  | inr (order, known) ↦ ground arith
]

pub schedule_completion-by_id :
    (j : Job) (now : ℕ) (s : Simulator) {s' : Simulator}
    → schedule_completion j now s ≡ ok s'
    → s'.by_id ≡ s.by_id
unfolding schedule_completion
schedule_completion-by_id j now s h =
    let (delay, timed, pushed) =
      >>=-eq-ok (completion_delay j)
        (λ delay. push_event (now + delay) job_complete j.id j.run_generation s) h in
    push_event-by_id (now + delay) job_complete j.id j.run_generation s pushed

pub resize_job-eq-ok :
    (j : Job) (target : List String) (s : Simulator) {out : Simulator × Job}
    → resize_job j target s ≡ ok out
    → (c : Cluster) × (u : Unit {0}) × (resize s.cluster j target ≡ (ok u, c, out.1))
      × (out.0 ≡ record s { cluster = c })
resize_job-eq-ok j target s {out} h = elim (Result-cases (resize s.cluster j target).0) [
  | inr (error, failed) ↦ absurd (ground arith)
  | inl (u, done) ↦
      let r = resize s.cluster j target in
      let same : (record s { cluster = r.1 }, r.2) ≡ out = ground arith in
      (r.1, u, (λ i. (done i, r.1, (same i).1)), sym (ap (λ x. x.0) same))
]

-- The end of `shrink_job`, after the resize.
abbrev after_resize : Job → ℕ → String → List String → Simulator × Job → Result Simulator
after_resize j now reason target resized = do
  node_ids ← node_ids_of resized.0 target
  schedule_completion (shrunk_job (length target) resized.1) now (
      record_trace
        (trace_of now elastic_scale_down j.id target node_ids
          ("reason=" <> reason <> ";" <> scale_detail j.current_replicas (length target)))
        (put_job (shrunk_job (length target) resized.1) resized.0))

-- The job that goes on owns the target, where the target is among what it held.
module _ (node_id : String) (j : Job) (now : ℕ) (reason : String) (target : List String)
    (s : Simulator) {s' : Simulator}
    (kept : (k : String)
      → elem k target ≡ true
      → (elem k j.allocated_gpu_ids ≡ true)
        × ((g : Gpu) → find_gpu k (gpus s.cluster) ≡ some g → (g.node_id == node_id) ≡ false))
    (shrinks : shrink_job j now reason target s ≡ ok s') where
  shrink_job-LosesCapacity : LosesCapacity node_id j s s'
  shrink_job-LosesCapacity =
      let (accrued, grown, resizing) =
        >>=-eq-ok (accrue_productive_work now j)
          (λ accrued.
            resize_job (rescheduled now accrued) target s >>= after_resize j now reason target)
          shrinks in
      let (resized, out, ending) =
        >>=-eq-ok (resize_job (rescheduled now accrued) target s) (after_resize j now reason target)
          resizing in
      let (node_ids, on, pushing) =
        >>=-eq-ok (node_ids_of resized.0 target)
          (λ node_ids. schedule_completion (shrunk_job (length target) resized.1) now (
            record_trace
              (trace_of now elastic_scale_down j.id target node_ids
                ("reason=" <> reason <> ";" <> scale_detail j.current_replicas (length target)))
              (put_job (shrunk_job (length target) resized.1) resized.0)))
          ending in
      let (c, u, done, at) = resize_job-eq-ok (rescheduled now accrued) target s out in
      let (same_id, same_gpus, same_run) = accrue-SameHolding now j grown in
      let (job, gained, dropped, others) =
        resize-owners s.cluster (rescheduled now accrued) target done in
      let writes = (resize-writes s.cluster (rescheduled now accrued) target done).0 in
      let left : Job = shrunk_job (length target) resized.1 in
      let cluster : s'.cluster ≡ c =
        schedule_completion-cluster left now _ pushing ∙ ap (λ x. x.cluster) at in
      let held_eq : (k : String) → elem k accrued.allocated_gpu_ids ≡ elem k j.allocated_gpu_ids =
        λ k. ap (elem k) same_gpus in
      record {
        left = left;
        named = ap (λ x. x.id) job ∙ same_id;
        table =
            schedule_completion-by_id left now _ pushing ∙ ap (λ x. insert left.id left x.by_id) at;
        only_frees = λ k. elim (Bool-cases (elem k target)) [
          | inl stays ↦ inl (
              ap (λ d. find_gpu k (gpus d)) cluster
              ∙ others k (stays ∙ sym (held_eq k ∙ (kept k stays).0)))
          | inr goes ↦ elim (Bool-cases (elem k j.allocated_gpu_ids)) [
            | inl held ↦
                inr (ap (λ d. find_gpu k (gpus d)) cluster ∙ dropped k goes (held_eq k ∙ held))
            | inr other ↦
                inl (
                  ap (λ d. find_gpu k (gpus d)) cluster ∙ others k (goes ∙ sym (held_eq k ∙ other)))
          ]
        ];
        frees = λ k g held found on_node. elim (Bool-cases (elem k target)) [
          | inl stays ↦ absurd (ground (arith, (kept k stays).1 g found))
          | inr goes ↦
              freed-IsVacant k s.cluster s'.cluster
                (ap (λ d. find_gpu k (gpus d)) cluster ∙ dropped k goes (held_eq k ∙ held))
        ];
        states =
            ap fleet_states (cluster ∙ writes)
            ∙ map_gpus-fleet_states _ _
            ∙ map_gpus-fleet_states _ s.cluster;
      }

-- A step keeps to the job's own GPUs, and frees those on the lost node.
pub lose_capacity-LosesCapacity :
    (node_id : String) (now : ℕ) (kind : FleetEventType) (j : Job) (s : Simulator) {s' : Simulator}
    → lose_capacity node_id now kind j s ≡ ok s'
    → LosesCapacity node_id j s s'
lose_capacity-LosesCapacity node_id now kind j s {s'} h =
    let (target, splitting, more) =
      >>=-eq-ok (unaffected_gpus s.cluster node_id j.allocated_gpu_ids) lose_with h in
    let (held, looked_up, last) =
      >>=-eq-ok (traverse (gpu_by_id s.cluster) j.allocated_gpu_ids)
        (λ held. ok (map (λ g. g.id) (filter (λ g. not (g.node_id == node_id)) held))) splitting in
    let split = ok-injective last in
    elim (Bool-cases (can_shrink j target)) [
      | inl shrinks ↦ widen (
          shrink_job-LosesCapacity node_id j now (fleet_value kind) target (count_affected j.id s)
            {s' = s'}
            (λ k m.
              kept_elsewhere s.cluster node_id j.allocated_gpu_ids held k looked_up
                (ap (elem k) split ∙ m))
            (ground arith))
      | inr stops ↦ widen (
          interrupted-LosesCapacity node_id j (count_affected j.id s) s' (
            interrupt_for_capacity_loss-IsInterrupted j now kind (count_affected j.id s) {s' = s'}
              (ground arith)))
    ]
  where
    lose_with : List String → Result Simulator
    lose_with unaffected =
        if can_shrink j unaffected
        then shrink_job j now (fleet_value kind) unaffected (count_affected j.id s)
        else interrupt_for_capacity_loss j now kind (count_affected j.id s)

    widen : LosesCapacity node_id j (count_affected j.id s) s' → LosesCapacity node_id j s s'
    widen d = record {
      left = d.left;
      named = d.named;
      table = d.table;
      only_frees = d.only_frees;
      frees = d.frees;
      states = d.states;
    }
