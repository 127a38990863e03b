-- ===== src/Simulator/Run/Stale.antt =====
-- Events that their job has outlived (gpu_scheduler_lab/simulator/engine.py): what `run` does with
-- one that comes due, and what the discarding of events does with one in front.
use gpu_scheduler_lab.Simulator.Lifecycle.{complete_restart, complete_checkpoint, complete}
use gpu_scheduler_lab.Simulator.Arrivals.{Setting}
use gpu_scheduler_lab.Simulator.{is_current, job_of, expected_status, discard_stale, Simulator}
use gpu_scheduler_lab.Prelude.{
  nat_eq_iff, nat_eq, key_error, or_raise-eq-ok, ◌∙◌, ◌==◌, text_eq_instance, ap, ◌∷◌, lookup,
  arith, Bool-cases, ◌⊎◌, List, ◌≡◌, ℕ, String, Dict, inr, inl, ok, false, some, refl,
}
use gpu_scheduler_lab.Simulator.Run.{handle_kind}
use gpu_scheduler_lab.Models.Events.{
  Event, EventType, job_complete, job_checkpoint_complete, job_restart_complete,
}
use gpu_scheduler_lab.Models.Job.{status_eq, JobStatus, Job, running, checkpointing, restarting}

-- The status in which a job waits for the end of a run, of a checkpoint, or of a restart.
pub data WaitsFor : EventType → JobStatus → Type 0 where
  end_of_run : WaitsFor job_complete running
  end_of_checkpoint : WaitsFor job_checkpoint_complete checkpointing
  end_of_restart : WaitsFor job_restart_complete restarting

-- The event's job is known, and has left the status that waits for the event, or the run that the
-- event was pushed in.
pub record IsOutlived (s : Simulator) (e : Event) : Type 0 where
  pub job : Job
  pub kind : EventType
  pub status : JobStatus
  pub known : job_of s e.job_id ≡ ok job
  pub of_kind : e.event_type ≡ kind
  pub waits : WaitsFor kind status
  pub left : ((job.status ≡ status) → ⊥) ⊎ ((e.generation ≡ job.run_generation) → ⊥)

not_current :
    (j : Job) (status : JobStatus) (e : Event)
    → ((j.status ≡ status) → ⊥) ⊎ ((e.generation ≡ j.run_generation) → ⊥)
    → is_current j status e ≡ false
not_current j status e (inl other) = elim (Bool-cases (j.status == status)) [
  | inl same ↦ absurd (other ((status_eq.beq_iff j.status status).0 same))
  | inr apart ↦ ground (arith, apart)
]
not_current j status e (inr other) = elim (Bool-cases (nat_eq e.generation j.run_generation)) [
  | inl same ↦ absurd (other ((nat_eq_iff e.generation j.run_generation).0 same))
  | inr apart ↦ ground (arith, apart)
]

outlived_handled :
    (setting : Setting) (e : Event) (now : ℕ) (s : Simulator) (j : Job) {kind : EventType}
    {status : JobStatus}
    → job_of s e.job_id ≡ ok j
    → is_current j status e ≡ false
    → WaitsFor kind status
    → handle_kind setting e now kind s ≡ ok s
unfolding complete complete_checkpoint complete_restart
outlived_handled setting e now s j known left end_of_run = ground arith
outlived_handled setting e now s j known left end_of_checkpoint = ground arith
outlived_handled setting e now s j known left end_of_restart = ground arith

WaitsFor-expected :
    {kind : EventType} {status : JobStatus}
    → WaitsFor kind status
    → expected_status kind ≡ some status
WaitsFor-expected end_of_run = refl
WaitsFor-expected end_of_checkpoint = refl
WaitsFor-expected end_of_restart = refl

outlived_dropped :
    (by_id : Dict String Job) (e : Event) (rest : List Event) (j : Job) (status : JobStatus)
    → lookup e.job_id by_id ≡ some j
    → is_current j status e ≡ false
    → expected_status e.event_type ≡ some status
    → discard_stale by_id (e ∷ rest) ≡ discard_stale by_id rest
unfolding discard_stale
outlived_dropped by_id e rest j status known left expects = ground arith

-- An event that ends a run, a checkpoint or a restart, whose job has left the status that waits
-- for it or has begun another run, changes nothing when it comes due, and is dropped where it
-- stands in front of the queue.
pub outlived_event_ignored :
    (setting : Setting) (e : Event) (now : ℕ) (s : Simulator) (rest : List Event)
    → IsOutlived s e
    → (handle_kind setting e now e.event_type s ≡ ok s)
      × (discard_stale s.by_id (e ∷ rest) ≡ discard_stale s.by_id rest)
outlived_event_ignored setting e now s rest old =
    let left = not_current old.job old.status e old.left in
    let expects = ap expected_status old.of_kind ∙ WaitsFor-expected old.waits in
    (
      ap (λ kind. handle_kind setting e now kind s) old.of_kind
          ∙ outlived_handled setting e now s old.job old.known left old.waits,
      outlived_dropped s.by_id e rest old.job old.status
          (or_raise-eq-ok (lookup e.job_id s.by_id) (key_error e.job_id) old.known) left expects,
    )
