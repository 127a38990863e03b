-- ===== src/Simulator/Scheduler.antt =====
-- `Scheduler` (gpu_scheduler_lab/schedulers/base.py): what the simulator asks of a scheduler, whose
-- own state and keys are parameters.
use gpu_scheduler_lab.Simulator.Reservations.{placement_cluster}
use gpu_scheduler_lab.Schedulers.Topology.Place.{Placement}
use gpu_scheduler_lab.Models.Cluster.{schedulable_gpus, free, Cluster}
use gpu_scheduler_lab.Simulator.{put_job, job_of, Simulator, Policy}
use gpu_scheduler_lab.Models.Job.{Job}
use gpu_scheduler_lab.Prelude.{
  sort, any, ◌++◌, ◌&&◌, map, if◌then◌else◌, Option, ◌∷◌, ◌>>=◌, traverse, not, String, Result,
  List, Compare, Bool, suc, ok, [], ℕ,
}

-- The methods, each on the scheduler's state; what a method changes comes back.
pub record Scheduler (S K : Type 0) : Type 0 where
  pub supports_reclaim : Bool
  pub supports_elastic : Bool
  pub supports_guarantee_placement : Bool
  pub dynamic_pending_order : Bool
  pub compare_key : Compare K
  pub pending_key : S → Job → ℕ → Result K
  pub scale_up_key : S → Job → ℕ → Result K
  pub prepare : ℕ → Cluster → List Job → List Job → S → Result (S × List Job)
  pub place : Cluster → Job → S → Result (Placement × S)
  pub place_guaranteed : Cluster → Job → S → Result (Placement × S)
  pub on_job_started : Job → ℕ → S → Result (S × Job)
  pub can_reclaim : S → Job → Job → Result Bool
  pub can_reclaim_request : S → Job → Result Bool
  pub can_reclaim_placement : S → Job → List String → List String → Result Bool
  pub reclaim_entitlement_queue : S → Job → Job → Result (Option String)
  pub can_reclaim_allocation : S → Job → Job → List String → Bool → Result Bool
  pub can_scale_up : S → Job → Result Bool
  pub can_resize_placement : S → Job → List String → Result Bool

-- `sorted(xs, key=…)`, where a key may raise
abbrev pub keyed_by : {A K : Type 0} → (A → Result K) → List A → Result (List (K × A))
keyed_by key xs = traverse (λ x. key x >>= λ k. ok (k, x)) xs

abbrev pub sort_by_key : {A K : Type 0} → Compare K → (A → Result K) → List A → Result (List A)
sort_by_key compare key xs = do
  keyed ← keyed_by key xs
  ok (map (λ item. item.1) (sort (λ a b. compare a.0 b.0) keyed))

-- `[*self.running.values(), *self.checkpointing.values(), *self.restarting.values()]`
abbrev pub allocated_ids : Simulator → List String
allocated_ids s = s.running ++ (s.checkpointing ++ s.restarting)

abbrev pub put_jobs : List Job → Simulator → Simulator
put_jobs [] s = s
put_jobs (j ∷ js) s = put_jobs js (put_job j s)

abbrev pub count_attempt : Simulator → Simulator
count_attempt s = record s {
  tally = record s.tally { scheduling_attempts = suc s.tally.scheduling_attempts };
}

abbrev pub count_failure : Simulator → Simulator
count_failure s = record s {
  tally = record s.tally { failed_attempts = suc s.tally.failed_attempts };
}

module _ {S K : Type 0} (scheduler : Scheduler S K) where
  -- `self.scheduler.prepare(now, self.cluster, self.pending, allocated)`. A scheduler may write to
  -- the jobs that hold GPUs.
  unfoldable pub prepare_pass : ℕ → S → Simulator → Result (S × Simulator)
  prepare_pass now t s = do
    waiting ← traverse (job_of s) s.pending
    allocated ← traverse (job_of s) (allocated_ids s)
    prepared ← scheduler.prepare now s.cluster waiting allocated t
    ok (prepared.0, put_jobs prepared.1 s)

  -- `self.scheduler.place(self._placement_cluster(job), job)`
  unfoldable pub place_now : Bool → Job → S → Simulator → Result (Placement × S)
  place_now guaranteed_only j t s = do
    cluster ← placement_cluster s j
    (if guaranteed_only
        then scheduler.place_guaranteed cluster j t
        else scheduler.place cluster j t)

  -- `_placement_cannot_change_without_release`
  unfoldable pub placement_cannot_change_without_release : Policy → Simulator → Bool
  placement_cannot_change_without_release policy s =
      not policy.supports_preemption
      && not scheduler.supports_reclaim
      && not (any free (schedulable_gpus s.cluster))
