-- ===== src/Schedulers/Backfill.antt =====
-- `ReservationBackfillScheduler` (gpu_scheduler_lab/schedulers/backfill.py). A method that writes
-- the scheduler's fields returns the scheduler.
pub mod Promises
use gpu_scheduler_lab.Queues.Resource.{tolerance}
use gpu_scheduler_lab.Schedulers.Packing.{compare_arrival}
use gpu_scheduler_lab.Schedulers.Topology.Place.{place, Placement}
use gpu_scheduler_lab.Models.Job.{remaining_duration, Job}
use gpu_scheduler_lab.Models.Cluster.Allocation.{
  owned_by, write_where, give_up, map_gpus, clone_cluster,
}
use gpu_scheduler_lab.Models.Cluster.{Cluster}
use gpu_scheduler_lab.Prelude.{
  map, filter, compare_text, ◌∷◌, ◌*◌, text_eq_instance, nat_eq, ltb, leb, compare_ℕ, ◌>>=◌, ◌==◌,
  sort, not, elem, and_then, ◌-◌, ◌+◌, if◌then◌else◌, Result, Ordering, List, Bool, String, Option,
  suc, ok, false, true, some, none, [], ℕ,
}

pub record Reservation : Type 0 where
  pub job_id : String
  pub created_at : ℕ
  pub estimated_start_time : ℕ
  pub required_gpu_count : ℕ
  pub gpu_model : Option String
  pub allowed_gpu_models : List String

pub record Backfill : Type 0 where
  pub reservation : Option Reservation
  pub head_job_id : Option String
  pub now : ℕ
  pub allowed_backfills : List String
  pub reservation_count : ℕ
  pub successful_backfills : ℕ
  pub reserved_waiting_time : ℕ
  pub backfill_gpu_time : ℕ
  pub delay_violations : ℕ

abbrev pub new_backfill : Backfill
new_backfill = record {
  reservation = none;
  head_job_id = none;
  now = 0;
  allowed_backfills = [];
  reservation_count = 0;
  successful_backfills = 0;
  reserved_waiting_time = 0;
  backfill_gpu_time = 0;
  delay_violations = 0;
}

abbrev pub active_since : ℕ → Option ℕ → ℕ
active_since now none = 0
active_since now (some start) = now - start

-- `_expected_completion`: what is left of the duration, from now on.
unfoldable pub expected_completion : ℕ → Job → ℕ
expected_completion now j =
    now + (j.duration - j.accumulated_runtime - active_since now j.last_start_time)

abbrev vacate : Cluster → Cluster
vacate = map_gpus give_up

abbrev vacate_job : String → Cluster → Cluster
vacate_job owner = map_gpus (write_where (owned_by owner) give_up)

abbrev compare_completion : ℕ × String → ℕ × String → Ordering
compare_completion a b = and_then (compare_ℕ a.0 b.0) (compare_text a.1 b.1)

-- The loop over the completions, in which each gives its GPUs up.
unfoldable pub project : Job → Cluster → List (ℕ × String) → Result (Option ℕ)
project head projected [] = ok none
project head projected ((completion, owner) ∷ rest) =
    let after = vacate_job owner projected in
    let later = project head after rest in
    place after head >>= λ placement. elim placement [
      | none ↦ later
      | some ids ↦ ok (some completion)
    ]

-- `_estimate_start`
unfoldable pub estimate_start : ℕ → Cluster → Job → List Job → Result (Option ℕ)
unfolding clone_cluster project expected_completion
estimate_start now cluster head running_jobs = do
  possible ← place (vacate (clone_cluster true none cluster)) head
  elim possible [
    | none ↦ ok none
    | some ids ↦
        project head (clone_cluster true none cluster)
          (sort compare_completion (map (λ j. (expected_completion now j, j.id)) running_jobs))
  ]

abbrev pub reserves : Option Reservation → String → Bool
reserves none job_id = false
reserves (some r) job_id = r.job_id == job_id

abbrev pub reserve : Job → ℕ → ℕ → Reservation
reserve head created_at estimate = record {
  job_id = head.id;
  created_at = created_at;
  estimated_start_time = estimate;
  required_gpu_count = head.gpu_count;
  gpu_model = head.gpu_model;
  allowed_gpu_models = head.allowed_gpu_models;
}

-- The reservation of the head of the queue, given the estimate of its start.
unfoldable pub update_reservation : ℕ → Job → Option ℕ → Backfill → Backfill
update_reservation now head none b =
    if reserves b.reservation head.id then record b { reservation = none } else b
update_reservation now head (some estimate) b = elim b.reservation [
  | none ↦ record b {
    reservation = some (reserve head now estimate);
    reservation_count = suc b.reservation_count;
  }
  | some r ↦
      if not (r.job_id == head.id)
      then record b {
        reservation = some (reserve head now estimate);
        reservation_count = suc b.reservation_count;
      }
      else if ltb estimate r.estimated_start_time
      then record b { reservation = some (reserve head r.created_at estimate) }
      else b
]

-- A reservation of another job than the head is dropped.
abbrev pub keep_reservation : String → Option Reservation → Option Reservation
keep_reservation head_id none = none
keep_reservation head_id (some r) = if r.job_id == head_id then some r else none

abbrev pub prepare_head : Job → Cluster → List Job → Backfill → Result Backfill
prepare_head head cluster running_jobs b = do
  placement ← place cluster head
  elim placement [
    | some ids ↦ ok b
    | none ↦ (do
      estimate ← estimate_start b.now cluster head running_jobs
      ok (update_reservation b.now head estimate b))
  ]

-- `prepare`
unfoldable pub prepare : ℕ → Cluster → List Job → List Job → Backfill → Result Backfill
unfolding estimate_start update_reservation
prepare now cluster pending_jobs running_jobs b = elim (sort compare_arrival pending_jobs) [
  | [] ↦ ok (record b { now = now; allowed_backfills = []; head_job_id = none; reservation = none })
  | head ∷ rest ↦ prepare_head head cluster running_jobs (record b {
    now = now;
    allowed_backfills = [];
    head_job_id = some head.id;
    reservation = keep_reservation head.id b.reservation;
  })
]

abbrev is_head : Backfill → Job → Bool
is_head b j = elim b.head_job_id [ none ↦ false | some id ↦ id == j.id ]

-- `pending_key`: the head, then the shortest.
unfoldable pub compare_backfill : Backfill → Job → Job → Ordering
compare_backfill b x y =
    if is_head b x
    then (if is_head b y then compare_arrival x y else Ordering.lt)
    else if is_head b y
    then Ordering.gt
    else and_then (compare_ℕ (remaining_duration x) (remaining_duration y)) (compare_arrival x y)

abbrev pub completion_if_started : Backfill → Job → ℕ
completion_if_started b j =
    b.now + remaining_duration j + (if nat_eq j.preemption_count 0 then 0 else j.restart_cost)

-- A placement may be used by the job that a reservation names and by jobs that end before it.
unfoldable pub admit : Backfill → Job → Placement → Placement × Backfill
admit b j none = (none, b)
admit b j (some ids) = elim b.reservation [
  | none ↦ (some ids, b)
  | some r ↦
      if j.id == r.job_id
      then (some ids, b)
      else if leb (completion_if_started b j) r.estimated_start_time
      then (some ids, record b { allowed_backfills = j.id ∷ b.allowed_backfills })
      else (none, b)
]

-- `place`
unfoldable pub backfill_place : Backfill → Cluster → Job → Result (Placement × Backfill)
unfolding admit
backfill_place b cluster j = do placement ← place cluster j; ok (admit b j placement)

abbrev started_backfill : Job → Backfill → Backfill
started_backfill j b =
    if elem j.id b.allowed_backfills
    then record b {
      successful_backfills = suc b.successful_backfills;
      backfill_gpu_time = b.backfill_gpu_time + remaining_duration j * j.gpu_count;
      allowed_backfills = filter (λ id. not (id == j.id)) b.allowed_backfills;
    }
    else b

-- `on_job_started`. A job starts no earlier than its reservation was made.
unfoldable pub on_job_started : Job → ℕ → Backfill → Backfill
on_job_started j now b = elim b.reservation [
  | none ↦ started_backfill j b
  | some r ↦
      if j.id == r.job_id
      then record b {
        delay_violations =
            b.delay_violations + (if ltb (r.estimated_start_time + tolerance) now then 1 else 0);
        reserved_waiting_time = b.reserved_waiting_time + (now - r.created_at);
        reservation = none;
      }
      else started_backfill j b
]
