-- ===== src/Simulator/Dispatch.antt =====
-- The scheduling pass (gpu_scheduler_lab/simulator/engine.py): which pending jobs are tried, in
-- which order, and how one is placed.
pub mod Untouched
pub mod Passed
pub mod Rounds
use gpu_scheduler_lab.Simulator.Start.{start}
use gpu_scheduler_lab.Schedulers.Packing.{validate_atomic_placement}
use gpu_scheduler_lab.Simulator.Reservations.{release_preemption_reservation}
use gpu_scheduler_lab.Simulator.Reclaiming.Committing.{reclaim_for}
use gpu_scheduler_lab.Simulator.Preempting.Plans.{preempt_for}
use gpu_scheduler_lab.Schedulers.Topology.Place.{Placement}
use gpu_scheduler_lab.Simulator.Scheduler.{
  place_now, count_attempt, prepare_pass, count_failure, sort_by_key,
  placement_cannot_change_without_release, Scheduler,
}
use gpu_scheduler_lab.Simulator.Arrivals.{Setting}
use gpu_scheduler_lab.Simulator.{put_job, without_id, job_of, Simulator, Policy}
use gpu_scheduler_lab.Models.Job.{status_eq, pending, Job}
use gpu_scheduler_lab.Models.Cluster.{free, gpu_by_id, Cluster}
use gpu_scheduler_lab.Prelude.{
  ◌<>◌, runtime_error, raise_if, ◌>>◌, elem, text_eq_instance, get_or, filter, ◌>>=◌, ◌==◌, ◌&&◌,
  not, length, ◌∷◌, lookup, Result, if◌then◌else◌, String, List, Bool, suc, zero, ok, false, true,
  some, none, [], ℕ,
}

-- The state of a pass: the scheduler's and the simulator's.
abbrev pub Pass : Type 0 → Type 0
Pass S = S × Simulator

-- `self._preemption_reservation_reason.get(job.id) == "PREEMPT_RECLAIM"`
abbrev pub is_reclaim_reservation : Simulator → String → Bool
is_reclaim_reservation s job_id = elim (lookup job_id s.preemption_reservation_reason) [
  | none ↦ false
  | some reason ↦ reason == "PREEMPT_RECLAIM"
]

-- The one number of replicas that a job asks for.
abbrev pub requested_for : Bool → Job → ℕ
requested_for supports_elastic j = elim j.elastic [
  | none ↦ j.gpu_count
  | some e ↦ if supports_elastic then e.min_replicas else j.gpu_count
]

abbrev pub asking : ℕ → Job → Job
asking replicas j = record j { requested_replicas = replicas }

-- `all(self.cluster.gpu_by_id(gpu_id).free for gpu_id in reserved)`
unfoldable pub all_free : Cluster → List String → Result Bool
all_free c [] = ok true
all_free c (gpu_id ∷ rest) =
    let later = all_free c rest in gpu_by_id c gpu_id >>= λ g. if free g then later else ok false

-- A reclaim reservation whose GPUs are all free was of no use, and ends.
abbrev pub give_reservation_up : Policy → String → ℕ → Simulator → Result Simulator
give_reservation_up policy job_id now s = do
  unused ← all_free s.cluster (get_or job_id [] s.preemption_reserved_gpus)
  (if unused then release_preemption_reservation policy job_id now s else ok s)

module _ {S K : Type 0} (setting : Setting) (scheduler : Scheduler S K) where
  -- A placement on a reservation that the scheduler does not allow is none.
  abbrev pub check_reservation : Bool → Simulator → Job → Placement × S → Result (Placement × S)
  check_reservation reserved s j (none, t) = ok (none, t)
  check_reservation reserved s j (some ids, t) = if not reserved then ok (some ids, t) else (do
    allowed ←
        scheduler.can_reclaim_placement t j ids (get_or j.id [] s.preemption_reclaim_entitlements)
    ok (if allowed then some ids else none, t))

  -- What makes room for a job that fits nowhere.
  abbrev pub make_room : Bool → Job → ℕ → S → Simulator → Result (Placement × S × Simulator)
  make_room allow_preemption j now t s =
      if allow_preemption && setting.policy.supports_preemption
      then preempt_for scheduler setting.policy j now "PREEMPT_PRIORITY" t s
      else if allow_preemption && scheduler.supports_reclaim
      then reclaim_for scheduler setting.policy setting.accounting j now t s
      else ok (none, t, s)

  -- The job is started on a placement of the right size.
  abbrev pub commit_placement : String → ℕ → Placement × S × Simulator → Result (Pass S)
  commit_placement job_id now (none, t, s) = ok (t, s)
  commit_placement job_id now (some ids, t, s) = do
    j ← job_of s job_id
    raise_if (not (validate_atomic_placement j (some ids)))
        (runtime_error ("scheduler returned partial placement for " <> job_id))
    start scheduler.on_job_started setting.policy j ids now t s

  -- What follows the scheduler's answer.
  abbrev pub after_answer :
      Bool → Bool → Bool → Job → ℕ → Simulator → Placement × S → Result (Pass S)
  after_answer reserved guaranteed_only allow_preemption j now s (some ids, t) =
      commit_placement j.id now (some ids, t, s)
  after_answer reserved guaranteed_only allow_preemption j now s (none, t) =
      if reserved
      then (give_reservation_up setting.policy j.id now s >>= λ s'. ok (t, count_failure s'))
      else if guaranteed_only
      then ok (t, s)
      else (make_room allow_preemption j now t (count_failure s) >>= commit_placement j.id now)

  -- `_attempt_placement`
  unfoldable pub attempt_placement : Bool → Bool → String → ℕ → Pass S → Result (Pass S)
  attempt_placement guaranteed_only allow_preemption job_id now (t, s) = do
    found ← job_of s job_id
    let j : Job = asking (requested_for scheduler.supports_elastic found) found
    let asked : Simulator = put_job j (count_attempt s)
    placed ← place_now scheduler guaranteed_only j t asked
    let reserved = is_reclaim_reservation s job_id
    answer ← check_reservation reserved asked j placed
    after_answer reserved guaranteed_only allow_preemption j now asked answer

  -- A job that is no longer pending is passed over.
  abbrev pub try_job : Bool → Bool → String → ℕ → Pass S → Result (Pass S)
  try_job guaranteed_only allow_preemption job_id now (t, s) = do
    j ← job_of s job_id
    (if j.status == pending
        then attempt_placement guaranteed_only allow_preemption job_id now (t, s)
        else ok (t, s))

  -- The ids of jobs in the order of the scheduler's keys.
  abbrev pub ordered_ids : List String → ℕ → Pass S → Result (List String)
  ordered_ids ids now (t, s) =
      sort_by_key scheduler.compare_key
        (λ job_id. job_of s job_id >>= λ j. scheduler.pending_key t j now) ids

  abbrev pub first_id : String → List String → String
  first_id other [] = other
  first_id other (job_id ∷ rest) = job_id

  -- The next candidate: the first one, or the least one by its key now.
  abbrev pub next_candidate : String → List String → ℕ → Pass S → Result String
  next_candidate first rest now pass =
      if not scheduler.dynamic_pending_order
      then ok first
      else (do ordered ← ordered_ids (first ∷ rest) now pass; ok (first_id first ordered))

  -- `_dispatch_pending`, in at most as many rounds as there are candidates: each takes one away.
  unfoldable pub dispatch : ℕ → Bool → Bool → List String → ℕ → Pass S → Result (Pass S)
  unfolding attempt_placement
  dispatch fuel guaranteed_only allow_preemption [] now pass = ok pass
  dispatch zero guaranteed_only allow_preemption (first ∷ rest) now pass = ok pass
  dispatch (suc fuel) guaranteed_only allow_preemption (first ∷ rest) now pass =
      if placement_cannot_change_without_release scheduler setting.policy pass.1
      then ok pass
      else (do
        job_id ← next_candidate first rest now pass
        tried ← try_job guaranteed_only allow_preemption job_id now pass
        dispatch fuel guaranteed_only allow_preemption (without_id job_id (first ∷ rest)) now tried)

  unfoldable pub dispatch_pending : Bool → Bool → List String → ℕ → Pass S → Result (Pass S)
  unfolding dispatch
  dispatch_pending guaranteed_only allow_preemption candidates now pass =
      dispatch (length candidates) guaranteed_only allow_preemption candidates now pass

  -- `self.pending.sort(…)`
  abbrev pub sort_pending : ℕ → Pass S → Result (Pass S)
  sort_pending now (t, s) = do
    ids ← ordered_ids s.pending now (t, s)
    ok (t, record s { pending = ids })

  -- The first of the two dispatches, for guaranteed capacity only.
  abbrev pub guaranteed_pass : ℕ → Pass S → Result (Pass S)
  guaranteed_pass now (t, s) = if not scheduler.supports_guarantee_placement then ok (t, s) else (do
    dispatched ← dispatch_pending true false s.pending now (t, s)
    prepare_pass scheduler now dispatched.0 dispatched.1)

  -- The loop over the jobs that became pending during the pass.
  unfoldable pub resume_each : List String → ℕ → Pass S → Result (Pass S)
  resume_each [] now pass = ok pass
  resume_each (job_id ∷ rest) now pass =
      if placement_cannot_change_without_release scheduler setting.policy pass.1
      then ok pass
      else (try_job false false job_id now pass >>= resume_each rest now)

  abbrev pub resume_victims : List String → ℕ → Pass S → Result (Pass S)
  resume_victims initial_ids now (t, s) = do
    resumed ← ordered_ids (filter (λ id. not (elem id initial_ids)) s.pending) now (t, s)
    resume_each resumed now (t, s)

  abbrev pub schedule_prepared : ℕ → Pass S → Result (Pass S)
  schedule_prepared now pass =
      if placement_cannot_change_without_release scheduler setting.policy pass.1
      then ok pass
      else (do
        sorted ← sort_pending now pass
        guaranteed ← guaranteed_pass now sorted
        dispatched ← dispatch_pending false true guaranteed.1.pending now guaranteed
        resume_victims sorted.1.pending now dispatched)

  -- `_schedule`
  unfoldable pub schedule : ℕ → Pass S → Result (Pass S)
  unfolding dispatch_pending resume_each
  schedule now (t, s) = do prepared ← prepare_pass scheduler now t s; schedule_prepared now prepared
