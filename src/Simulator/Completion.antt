-- ===== src/Simulator/Completion.antt =====
-- What a job's completion does (gpu_scheduler_lab/simulator/engine.py).
use gpu_scheduler_lab.Models.Events.{Event}
use gpu_scheduler_lab.Models.Cluster.Freed.{release-frees}
use gpu_scheduler_lab.Models.Cluster.Allocation.{give_up, release}
use gpu_scheduler_lab.Models.Cluster.{gpus, Cluster, find_gpu}
use gpu_scheduler_lab.Simulator.{
  node_ids_of, is_current, job_of, put_job, pop_id, without_id, Simulator,
}
use gpu_scheduler_lab.Simulator.Lifecycle.{
  complete_accrued, completed_job, has_not_started, completed_state, remove_runnable_demand,
  complete_current, complete, conclude, release_job, cap_work, accrue_productive_work,
}
use gpu_scheduler_lab.Models.Job.{running, completed, productive_rate, Job}
use mathlib.Core.Option
use gpu_scheduler_lab.Prelude.{
  ◌>>=◌, ◌<>◌, runtime_error, ok-injective, ◌∙◌, raise_if, lookup-insert, >>=-eq-ok, true,
  text_eq_instance, lookup, sym, beq_comm, Result-cases, ◌∷◌, if◌then◌else◌, ap, arith, elem,
  Option-cases, ◌≡◌, List, String, inr, inl, ok, false, some, [], refl, ℕ,
}

-- A completion frees the GPUs that the job held and no other, and ends the job.
pub record IsCompleted (now : ℕ) (j : Job) (s s' : Simulator) : Type 0 where
  pub freed :
      (k : String)
      → find_gpu k (gpus s'.cluster) ≡ (
          if elem k j.allocated_gpu_ids
          then Option.map give_up (find_gpu k (gpus s.cluster))
          else find_gpu k (gpus s.cluster))
  pub done : Job
  pub recorded : lookup j.id s'.by_id ≡ some done
  pub status : done.status ≡ completed
  pub holds_none : done.allocated_gpu_ids ≡ []
  pub ended : done.completion_time ≡ some now
  pub stopped : elem j.id s'.running ≡ false

pub accrue_productive_work-keeps :
    (now : ℕ) (j : Job) {accrued : Job}
    → accrue_productive_work now j ≡ ok accrued
    → (accrued.id ≡ j.id) × (accrued.allocated_gpu_ids ≡ j.allocated_gpu_ids)
unfolding accrue_productive_work
accrue_productive_work-keeps now j {accrued} h = elim (Option-cases j.last_start_time) [
  | inl idle ↦
      let same : j ≡ accrued = ground arith in
      (ap (λ x. x.id) (sym same), ap (λ x. x.allocated_gpu_ids) (sym same))
  | inr (start, started) ↦ elim (Option-cases j.elastic) [
    | inl rigid ↦ (ground arith, ground arith)
    | inr (e, elastic) ↦ elim (Result-cases (productive_rate j j.current_replicas)) [
      | inr (error, failed) ↦ absurd (ground arith)
      | inl (rate, rated) ↦ (ground arith, ground arith)
    ]
  ]
]

pub cap_work-keeps :
    (j : Job) → ((cap_work j).id ≡ j.id) × ((cap_work j).allocated_gpu_ids ≡ j.allocated_gpu_ids)
cap_work-keeps j = elim (Option-cases j.elastic) [
  | inl rigid ↦ (ground arith, ground arith)
  | inr (e, elastic) ↦ (ground arith, ground arith)
]

pub elem-without_id :
    (job_id : String) (ids : List String) → elem job_id (without_id job_id ids) ≡ false
elem-without_id job_id [] = refl
elem-without_id job_id (id ∷ ids) = ground (arith, elem-without_id job_id ids, beq_comm job_id id)

pub release_job-eq-ok :
    (j : Job) (s : Simulator) {out : Simulator × Job}
    → release_job j s ≡ ok out
    → (c : Cluster) × (u : Unit {0}) × (release s.cluster j ≡ (ok u, c, out.1))
      × (out.0 ≡ record s { cluster = c })
release_job-eq-ok j s {out} h = elim (Result-cases (release s.cluster j).0) [
  | inr (error, failed) ↦ absurd (ground arith)
  | inl (u, done) ↦
      let same : (record s { cluster = (release s.cluster j).1 }, (release s.cluster j).2) ≡ out =
        ground arith in
      (
        (release s.cluster j).1,
        u,
        (λ i. (done i, (release s.cluster j).1, (same i).1)),
        sym (ap (λ x. x.0) same),
      )
]

pub remove_runnable_demand-keeps :
    (j : Job) (s : Simulator)
    → ((remove_runnable_demand j s).cluster ≡ s.cluster)
      × ((remove_runnable_demand j s).running ≡ s.running)
unfolding remove_runnable_demand
remove_runnable_demand-keeps j s = elim (Option-cases (lookup j.id s.runnable_demand_by_job)) [
  | inl none_added ↦ (ground arith, ground arith)
  | inr (demand, added) ↦ (ground arith, ground arith)
]

pop_id-eq-ok :
    (job_id : String) (ids : List String) {rest : List String}
    → pop_id job_id ids ≡ ok rest
    → without_id job_id ids ≡ rest
pop_id-eq-ok job_id ids {rest} h = ground arith

pub lookup-put_job :
    (j : Job) (s : Simulator) (k : String) → j.id ≡ k → lookup k (put_job j s).by_id ≡ some j
lookup-put_job j s k named =
    lookup-insert j.id k j s.by_id
    ∙ ap (λ b. if b then some j else lookup k s.by_id) ((text_eq_instance.beq_iff j.id k).1 named)

conclude-IsCompleted :
    (now : ℕ) (j held : Job) (node_ids : List String) (s : Simulator) (released : Simulator × Job)
    {s' : Simulator}
    → held.id ≡ j.id
    → held.allocated_gpu_ids ≡ j.allocated_gpu_ids
    → release_job held s ≡ ok released
    → conclude now j node_ids released ≡ ok s'
    → IsCompleted now j s s'
conclude-IsCompleted now j held node_ids s released {s'} same_id same_gpus out h =
    let (c, u, given_up, at) = release_job-eq-ok held s out in
    let (job, freed) = release-frees s.cluster held given_up in
    let (still, popped, last) =
      >>=-eq-ok (pop_id j.id released.0.running)
        (λ still. ok (completed_state now j node_ids still released)) h in
    let made : completed_state now j node_ids still released ≡ s' = ok-injective last in
    let done : Job = completed_job now released.1 in
    let keeps = remove_runnable_demand-keeps done (record released.0 { running = still }) in
    record {
      freed = λ k.
          ap (λ x. find_gpu k (gpus x.cluster)) (sym made)
          ∙ ap (λ d. find_gpu k (gpus d)) (keeps.0 ∙ ap (λ x. x.cluster) at)
          ∙ freed k
          ∙ ap
              (λ ids.
                if elem k ids
                then Option.map give_up (find_gpu k (gpus s.cluster))
                else find_gpu k (gpus s.cluster))
              same_gpus;
      done = done;
      recorded =
          ap (λ x. lookup j.id x.by_id) (sym made)
          ∙ lookup-put_job done
              (remove_runnable_demand done (record released.0 { running = still })) j.id
              (ap (λ x. x.id) job ∙ same_id);
      status = refl;
      holds_none = ap (λ x. x.allocated_gpu_ids) job;
      ended = refl;
      stopped =
          ap (λ x. elem j.id x.running) (sym made)
          ∙ ap (elem j.id) (keeps.1 ∙ sym (pop_id-eq-ok j.id released.0.running popped))
          ∙ elem-without_id j.id released.0.running;
    }

complete_current-IsCompleted :
    (now : ℕ) (j : Job) (s : Simulator) {s' : Simulator}
    → complete_current now j s ≡ ok s'
    → IsCompleted now j s s'
complete_current-IsCompleted now j s {s'} h =
    let (u, started, accruing) =
      >>=-eq-ok
        (raise_if (has_not_started j)
          (runtime_error ("running job " <> j.id <> " has no start time")))
        (λ u. accrue_productive_work now j >>= complete_accrued now j s) h in
    let (accrued, grown, more) =
      >>=-eq-ok (accrue_productive_work now j) (complete_accrued now j s) accruing in
    let (node_ids, on, releasing) =
      >>=-eq-ok (node_ids_of s j.allocated_gpu_ids)
        (λ node_ids. release_job (cap_work accrued) s >>= conclude now j node_ids) more in
    let (released, out, concluding) =
      >>=-eq-ok (release_job (cap_work accrued) s) (conclude now j node_ids) releasing in
    let kept = accrue_productive_work-keeps now j grown in
    let capped = cap_work-keeps accrued in
    conclude-IsCompleted now j (cap_work accrued) node_ids s released (capped.0 ∙ kept.0)
      (capped.1 ∙ kept.1) out concluding

-- A completion event of a running job's generation that is handled without an error frees the GPUs
-- that the job held and no other, and ends the job: it is completed now, holds no GPU and is no
-- longer running.
pub complete-IsCompleted :
    (e : Event) (now : ℕ) (s : Simulator) {j : Job} {s' : Simulator}
    → job_of s e.job_id ≡ ok j
    → is_current j running e ≡ true
    → complete e now s ≡ ok s'
    → IsCompleted now j s s'
unfolding complete
complete-IsCompleted e now s {j} {s'} known current h =
    complete_current-IsCompleted now j s (ground arith)
