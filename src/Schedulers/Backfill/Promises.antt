-- ===== src/Schedulers/Backfill/Promises.antt =====
-- What a reservation of `ReservationBackfillScheduler` (gpu_scheduler_lab/schedulers/backfill.py)
-- promises.
use gpu_scheduler_lab.Models.Cluster.{Cluster}
use gpu_scheduler_lab.Models.Job.{Job}
use gpu_scheduler_lab.Schedulers.Backfill.{
  reserve, completion_if_started, Backfill, admit, Reservation, update_reservation, backfill_place,
}
use gpu_scheduler_lab.Schedulers.Topology.Place.{place}
use gpu_scheduler_lab.Models.Job.{remaining_duration}
use gpu_scheduler_lab.Prelude.{
  ◌>>=◌, ◌<◌, ◌-◌, ◌⊎◌, ◌+◌, nat_eq, if◌then◌else◌, false, ◌∷◌, ◌∙◌, subst, sym, ap, leb, ltb,
  Bool-cases, ◌==◌, text_eq_instance, ◌≢◌, arith, ◌≤◌, List, ◌≡◌, String, Option, inr, inl, ok,
  true, some, none, ℕ,
}

-- When a job ends that starts now: once what is left of its duration has passed, after the cost of
-- its restart if it was preempted before.
pub data EndsAt (now : ℕ) (j : Job) : ℕ → Type 0 where
  never_preempted :
      j.preemption_count ≡ 0 → EndsAt now j (now + (j.duration - j.accumulated_runtime))
  once_preempted :
      0 < j.preemption_count
      → EndsAt now j (now + (j.restart_cost + (j.duration - j.accumulated_runtime)))

EndsAt-completion :
    (b : Backfill) (j : Job) {end : ℕ} → EndsAt b.now j end → completion_if_started b j ≡ end
unfolding remaining_duration
EndsAt-completion b j (never_preempted never) = ground (arith, never)
EndsAt-completion b j (once_preempted once) = elim (Bool-cases (nat_eq j.preemption_count 0)) [
  | inl never ↦ absurd (ground (arith, never, once))
  | inr other ↦ rw other (omega arith)
]

admit-other :
    (b : Backfill) (j : Job) (r : Reservation) (ids : List String)
    → b.reservation ≡ some r
    → (j.id == r.job_id) ≡ false
    → admit b j (some ids) ≡ (
        if leb (completion_if_started b j) r.estimated_start_time
        then (some ids, record b { allowed_backfills = j.id ∷ b.allowed_backfills })
        else (none, b))
unfolding admit
admit-other b j r ids reserved apart = ground (arith, reserved, apart)

-- Beside another job's reservation, a job that fits somewhere is placed there, and noted as a
-- backfill, exactly if it ends by the time reserved: after what is left of its duration, and after
-- the cost of its restart too if it was preempted before. Else it is not placed, and nothing
-- changes.
pub backfill_place-no_delay :
    (b : Backfill) (c : Cluster) (j : Job) (r : Reservation) (ids : List String) {end : ℕ}
    → b.reservation ≡ some r
    → j.id ≢ r.job_id
    → place c j ≡ ok (some ids)
    → EndsAt b.now j end
    → ((end ≤ r.estimated_start_time)
        × (backfill_place b c j
            ≡ ok (some ids, record b { allowed_backfills = j.id ∷ b.allowed_backfills })))
      ⊎ ((r.estimated_start_time < end) × (backfill_place b c j ≡ ok (none, b)))
unfolding backfill_place
backfill_place-no_delay b c j r ids {end} reserved other placed ends =
    let apart : (j.id == r.job_id) ≡ false = elim (Bool-cases (j.id == r.job_id)) [
      | inl own ↦ absurd (other ((text_eq_instance.beq_iff j.id r.job_id).0 own))
      | inr apart ↦ apart
    ] in
    let asked : backfill_place b c j ≡ ok (admit b j (some ids)) =
      ap (λ m. m >>= λ placement. ok (admit b j placement)) placed in
    let answer = admit-other b j r ids reserved apart in
    let at = EndsAt-completion b j ends in
    elim (Bool-cases (leb (completion_if_started b j) r.estimated_start_time)) [
      | inl in_time ↦ inl (
        ground (arith, in_time, at),
        asked
            ∙ ap ok answer
            ∙ ap
                (λ t. ok (
                  if t
                  then (some ids, record b { allowed_backfills = j.id ∷ b.allowed_backfills })
                  else (none, b)))
                in_time,
      )
      | inr late ↦ inr (
        ground (arith, late, at),
        asked
            ∙ ap ok answer
            ∙ ap
                (λ t. ok (
                  if t
                  then (some ids, record b { allowed_backfills = j.id ∷ b.allowed_backfills })
                  else (none, b)))
                late,
      )
    ]

-- Once a job has a reservation, updating it keeps the job and the time of its making, and its
-- estimated start never grows.
pub update_reservation-improves :
    (now : ℕ) (head : Job) (estimate : Option ℕ) (b : Backfill) (r r' : Reservation)
    → b.reservation ≡ some r
    → r.job_id ≡ head.id
    → (update_reservation now head estimate b).reservation ≡ some r'
    → (r'.job_id ≡ head.id)
      × (r'.estimated_start_time ≤ r.estimated_start_time)
      × (r'.created_at ≡ r.created_at)
unfolding update_reservation
update_reservation-improves now head none b r r' reserved own e =
    absurd (ground (arith, text_eq_instance.beq_iff r.job_id head.id))
update_reservation-improves now head (some estimate) b r r' reserved own e =
    let known : (r.job_id == head.id) ≡ true = (text_eq_instance.beq_iff r.job_id head.id).1 own in
    elim (Bool-cases (ltb estimate r.estimated_start_time)) [
      | inl earlier ↦
          let same : reserve head r.created_at estimate ≡ r' = ground arith in
          (
            ap (λ x. x.job_id) (sym same),
            subst (λ x. x.estimated_start_time ≤ r.estimated_start_time) same (ground arith),
            ap (λ x. x.created_at) (sym same),
          )
      | inr no_earlier ↦
          let same : r ≡ r' = ground arith in
          (
            ap (λ x. x.job_id) (sym same) ∙ own,
            subst (λ x. x.estimated_start_time ≤ r.estimated_start_time) same (ground arith),
            ap (λ x. x.created_at) (sym same),
          )
    ]

ForHead : Option Reservation → String → Type 0
ForHead o head_id = (r : Reservation) → o ≡ some r → r.job_id ≡ head_id
