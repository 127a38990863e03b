-- ===== src/Simulator/Capacity/Interrupted.antt =====
-- What a job's interruption leaves (gpu_scheduler_lab/simulator/engine.py).
use gpu_scheduler_lab.Models.Cluster.Roundtrip.{All-refl}
use gpu_scheduler_lab.Models.Cluster.Writes.{map_gpus_id_on}
use gpu_scheduler_lab.Fleet.{FleetEventType}
use gpu_scheduler_lab.Models.Cluster.Freed.{
  release_gpus-writes, finish_release-eq-ok, release-frees,
}
use gpu_scheduler_lab.Simulator.Completion.{elem-without_id, lookup-put_job, release_job-eq-ok}
use gpu_scheduler_lab.Simulator.Fence.{expected_status-cases}
use gpu_scheduler_lab.Models.Cluster.Allocation.{
  write_where, release_gpus, map_gpus, release, give_up,
}
use gpu_scheduler_lab.Models.Cluster.{Gpu, gpus, Cluster, find_gpu}
use gpu_scheduler_lab.Simulator.Capacity.{
  interrupted_state, without_holder, interrupt_for_capacity_loss, interrupted_job, wait_again,
  release_held, accrue_if_running,
}
use gpu_scheduler_lab.Simulator.{put_job, without_id, is_current, expected_status, Simulator}
use gpu_scheduler_lab.Models.Events.{Event}
use gpu_scheduler_lab.Simulator.Lifecycle.{accrue_productive_work}
use gpu_scheduler_lab.Models.Job.{productive_rate, status_eq, running, JobStatus, Job}
use gpu_scheduler_lab.Prelude.{
  insert, ok-injective, ◌>>=◌, >>=-eq-ok, ◌∙◌, ap, sym, text_eq_instance, is_empty, lookup, List,
  ◌∷◌, Result-cases, subst, if◌then◌else◌, elem-append, ◌||◌, ◌==◌, arith, elem, Option-cases,
  Bool-cases, ◌≡◌, String, inr, inl, suc, ok, false, true, some, [], refl, ℕ,
}
use mathlib.Core.Option

-- An interruption frees the GPUs that the job held and no other, puts the job back to wait, and
-- raises its generation, so that no event that was due for it is current.
pub record IsInterrupted (j : Job) (s s' : Simulator) : Type 0 where
  pub freed :
      (k : String)
      → find_gpu k (gpus s'.cluster) ≡ (
          if elem k j.allocated_gpu_ids
          then Option.map give_up (find_gpu k (gpus s.cluster))
          else find_gpu k (gpus s.cluster))
  pub written : (f : Gpu → Gpu) × (s'.cluster ≡ map_gpus f s.cluster)
  pub left : Job
  pub named : left.id ≡ j.id
  pub table : s'.by_id ≡ insert left.id left s.by_id
  pub recorded : lookup j.id s'.by_id ≡ some left
  pub holds_none : left.allocated_gpu_ids ≡ []
  pub generation : left.run_generation ≡ suc j.run_generation
  pub fenced :
      (e : Event) (status : JobStatus)
      → expected_status e.event_type ≡ some status
      → is_current left status e ≡ false
  pub unlisted :
      (elem j.id s'.running ≡ false)
      × (elem j.id s'.checkpointing ≡ false)
      × (elem j.id s'.restarting ≡ false)
  pub waits : (elem j.id s'.pending || elem j.id s'.suspended_victims) ≡ true

-- What the accrual of work leaves of the job.
abbrev pub SameHolding : Job → Job → Type 0
SameHolding j k =
    (k.id ≡ j.id)
    × (k.allocated_gpu_ids ≡ j.allocated_gpu_ids)
    × (k.run_generation ≡ j.run_generation)

pub accrue-SameHolding :
    (now : ℕ) (j : Job) {accrued : Job}
    → accrue_productive_work now j ≡ ok accrued
    → SameHolding j accrued
unfolding accrue_productive_work
accrue-SameHolding now j {accrued} h = elim (Option-cases j.last_start_time) [
  | inl idle ↦
      let same : j ≡ accrued = ground arith in subst (SameHolding j) same (refl, refl, refl)
  | inr (start, started) ↦ elim (Option-cases j.elastic) [
    | inl rigid ↦ (ground arith, ground arith, ground arith)
    | inr (e, elastic) ↦ elim (Result-cases (productive_rate j j.current_replicas)) [
      | inr (error, failed) ↦ absurd (ground arith)
      | inl (rate, rated) ↦ (ground arith, ground arith, ground arith)
    ]
  ]
]

accrue_if_running-SameHolding :
    (now : ℕ) (j : Job) {accrued : Job}
    → accrue_if_running now j ≡ ok accrued
    → SameHolding j accrued
accrue_if_running-SameHolding now j {accrued} h = elim (Bool-cases (j.status == running)) [
  | inl runs ↦ accrue-SameHolding now j {accrued = accrued} (ground arith)
  | inr waits ↦
      let same : j ≡ accrued = ground arith in subst (SameHolding j) same (refl, refl, refl)
]

-- The GPUs that a release frees, where the job may hold none.
pub release_held-frees :
    (j : Job) (s : Simulator) {out : Simulator × Job}
    → release_held j s ≡ ok out
    → (c : Cluster) × (out.0 ≡ record s { cluster = c })
      × (out.1 ≡ record j { allocated_gpu_ids = [] })
      × ((k : String)
          → find_gpu k (gpus c) ≡ (
              if elem k j.allocated_gpu_ids
              then Option.map give_up (find_gpu k (gpus s.cluster))
              else find_gpu k (gpus s.cluster)))
      × ((f : Gpu → Gpu) × (c ≡ map_gpus f s.cluster))
unfolding release
release_held-frees j s {out} h = elim (Bool-cases (is_empty j.allocated_gpu_ids)) [
  | inl holds_none ↦
      let none_held : j.allocated_gpu_ids ≡ [] = empty_eq j.allocated_gpu_ids holds_none in
      let same : (s, j) ≡ out = ground arith in
      (
        s.cluster,
        sym (ap (λ o. o.0) same),
        sym (ap (λ o. o.1) same) ∙ ap (λ ids. record j { allocated_gpu_ids = ids }) none_held,
        λ k. rw none_held refl,
        (λ g. g, sym (map_gpus_id_on (λ g. g) s.cluster (All-refl (gpus s.cluster)))),
      )
  | inr holds ↦
      let (c, u, given_up, at) = release_job-eq-ok j s {out = out} (ground arith) in
      let (job, freed) = release-frees s.cluster j given_up in
      let (done, left, same) =
        finish_release-eq-ok j (release_gpus j.id j.allocated_gpu_ids s.cluster) given_up in
      let written =
        release_gpus-writes j.id j.allocated_gpu_ids s.cluster {u = u} {c' = c}
          (λ i. (done i, left i)) in
      (c, at, job, freed, (write_where (λ g. elem g.id j.allocated_gpu_ids) give_up, written))
]
  where
    empty_eq : (ids : List String) → is_empty ids ≡ true → ids ≡ []
    empty_eq [] e = refl
    empty_eq (i ∷ ids) e = cc

-- Where a job waits after it was put back.
wait_again_waits :
    (job_id : String) (s : Simulator)
    → (elem job_id (wait_again job_id s).pending
        || elem job_id (wait_again job_id s).suspended_victims)
      ≡ true
wait_again_waits job_id s = ground (
  arith,
  elem-append job_id s.pending (job_id ∷ []),
  elem-append job_id (without_id job_id s.suspended_victims) (job_id ∷ []),
  text_eq_instance.beq_iff job_id job_id,
)

wait_again-keeps :
    (job_id : String) (s : Simulator)
    → ((wait_again job_id s).cluster ≡ s.cluster)
      × ((wait_again job_id s).by_id ≡ s.by_id)
      × ((wait_again job_id s).running ≡ s.running)
      × ((wait_again job_id s).checkpointing ≡ s.checkpointing)
      × ((wait_again job_id s).restarting ≡ s.restarting)
wait_again-keeps job_id s = (ground arith, ground arith, ground arith, ground arith, ground arith)

waiting_fenced :
    (j : Job) (e : Event) (status : JobStatus)
    → expected_status e.event_type ≡ some status
    → is_current (interrupted_job j) status e ≡ false
waiting_fenced j e status expects = elim (expected_status-cases e.event_type expects) [
  | inl at_run ↦ ground arith
  | inr (inl at_checkpoint) ↦ ground arith
  | inr (inr at_restart) ↦ ground arith
]

interrupted_state-IsInterrupted :
    (now : ℕ) (kind : FleetEventType) (j accrued : Job) (s : Simulator) (released : Simulator × Job)
    → SameHolding j accrued
    → release_held accrued (without_holder j.id s) ≡ ok released
    → IsInterrupted j s (interrupted_state now kind released)
interrupted_state-IsInterrupted now kind j accrued s released (same_id, same_gpus, same_run) out =
    let (c, at, job, freed, write) = release_held-frees accrued (without_holder j.id s) out in
    let left : Job = interrupted_job released.1 in
    let named : left.id ≡ j.id = ap (λ x. x.id) job ∙ same_id in
    let put : Simulator = put_job left released.0 in
    let keeps = wait_again-keeps left.id put in
    record {
      freed = λ k.
          ap (λ d. find_gpu k (gpus d)) (keeps.0 ∙ ap (λ x. x.cluster) at)
          ∙ freed k
          ∙ ap
              (λ ids.
                if elem k ids
                then Option.map give_up (find_gpu k (gpus s.cluster))
                else find_gpu k (gpus s.cluster))
              same_gpus;
      written = (write.0, keeps.0 ∙ ap (λ x. x.cluster) at ∙ write.1);
      left = left;
      named = named;
      table = keeps.1 ∙ ap (λ x. insert left.id left x.by_id) at;
      recorded = ap (lookup j.id) keeps.1 ∙ lookup-put_job left released.0 j.id named;
      holds_none = ap (λ x. x.allocated_gpu_ids) job;
      generation = ap (λ x. suc x.run_generation) job ∙ ap suc same_run;
      fenced = λ e status expects. waiting_fenced released.1 e status expects;
      unlisted = (
        ap (elem j.id) (keeps.2 ∙ ap (λ x. x.running) at) ∙ elem-without_id j.id s.running,
        ap (elem j.id) (keeps.3 ∙ ap (λ x. x.checkpointing) at)
            ∙ elem-without_id j.id s.checkpointing,
        ap (elem j.id) (keeps.4 ∙ ap (λ x. x.restarting) at) ∙ elem-without_id j.id s.restarting,
      );
      waits =
          ap
            (λ i.
              elem i (wait_again left.id put).pending
              || elem i (wait_again left.id put).suspended_victims)
            (sym named)
          ∙ wait_again_waits left.id put;
    }

-- An interruption for lost capacity that succeeds frees the GPUs that the job held and no other.
-- The job holds none, is in no list of holders, is pending or suspended, and its generation is the
-- next one, so that no event that was due for it is current.
pub interrupt_for_capacity_loss-IsInterrupted :
    (j : Job) (now : ℕ) (kind : FleetEventType) (s : Simulator) {s' : Simulator}
    → interrupt_for_capacity_loss j now kind s ≡ ok s'
    → IsInterrupted j s s'
unfolding interrupt_for_capacity_loss
interrupt_for_capacity_loss-IsInterrupted j now kind s {s'} h =
    let (accrued, grown, more) =
      >>=-eq-ok (accrue_if_running now j)
        (λ accrued. release_held accrued (without_holder j.id s) >>= λ released.
          ok (interrupted_state now kind released))
        h in
    let (released, out, last) =
      >>=-eq-ok (release_held accrued (without_holder j.id s))
        (λ released. ok (interrupted_state now kind released)) more in
    subst (IsInterrupted j s) (ok-injective last) (
      interrupted_state-IsInterrupted now kind j accrued s released
        (accrue_if_running-SameHolding now j grown) out)
