-- ===== src/Simulator/Fence.antt =====
-- Stale events (gpu_scheduler_lab/simulator/engine.py): an event of an earlier generation, or of a
-- status that its job has left, is dropped.
use gpu_scheduler_lab.Models.Job.{restarting, checkpointing, running, Job, JobStatus}
use gpu_scheduler_lab.Simulator.{discard_stale, is_current, expected_status}
use gpu_scheduler_lab.Models.Events.{
  job_complete, job_checkpoint_complete, job_restart_complete, job_arrival, job_admit, job_reject,
  job_start, job_preempt, job_restart, job_resume, elastic_scale_up, elastic_scale_down, fleet,
  scheduler_tick, fleet, Event, EventType,
}
use gpu_scheduler_lab.Prelude.{
  Bool-cases, Option-cases, ok-injective, ap, All, ◌∷◌, ◌∙◌, ◌++◌, text_eq_instance, subst, lookup,
  List, String, Dict, true, [], refl, sym, some_eq, ◌⊎◌, arith, ◌≡◌, inr, inl, ok, false, some,
}

pub expected_status-cases :
    (kind : EventType) {status : JobStatus}
    → expected_status kind ≡ some status
    → (status ≡ running) ⊎ ((status ≡ checkpointing) ⊎ (status ≡ restarting))
expected_status-cases job_complete h = inl (some_eq (sym h))
expected_status-cases job_checkpoint_complete h = inr (inl (some_eq (sym h)))
expected_status-cases job_restart_complete h = inr (inr (some_eq (sym h)))
expected_status-cases job_arrival h = cc
expected_status-cases job_admit h = cc
expected_status-cases job_reject h = cc
expected_status-cases job_start h = cc
expected_status-cases job_preempt h = cc
expected_status-cases job_restart h = cc
expected_status-cases job_resume h = cc
expected_status-cases elastic_scale_up h = cc
expected_status-cases elastic_scale_down h = cc
expected_status-cases (fleet kind) h = cc
expected_status-cases scheduler_tick h = cc

-- An event of a job of this table that is not in the status or of the generation that it expects.
abbrev pub StaleIn : Dict String Job → Event → Type 0
StaleIn by_id e =
    (j : Job) × (status : JobStatus) × (lookup e.job_id by_id ≡ some j)
    × (expected_status e.event_type ≡ some status)
    × (is_current j status e ≡ false)

-- The first event of a list is not stale.
abbrev pub HeadIsLive : Dict String Job → List Event → Type 0
HeadIsLive by_id [] = Unit
HeadIsLive by_id (e ∷ rest) = StaleIn by_id e → ⊥

abbrev pub Discarded : Dict String Job → List Event → List Event → Type 0
Discarded by_id events kept =
    (dropped : List Event) × (events ≡ dropped ++ kept)
    × All (StaleIn by_id) dropped
    × HeadIsLive by_id kept

live_of_current :
    (by_id : Dict String Job) (e : Event) (j : Job) (status : JobStatus)
    → lookup e.job_id by_id ≡ some j
    → expected_status e.event_type ≡ some status
    → is_current j status e ≡ true
    → StaleIn by_id e
    → ⊥
live_of_current by_id e j status found expects current (j', status', found', expects', left) =
    let same_job : j ≡ j' = some_eq (sym found ∙ found') in
    let same_status : status ≡ status' = some_eq (sym expects ∙ expects') in
    let still : is_current j' status' e ≡ true =
      (λ i. is_current (sym same_job i) (sym same_status i) e) ∙ current in
    ground arith

drop_one :
    (by_id : Dict String Job) (e : Event) (rest kept : List Event)
    → StaleIn by_id e
    → Discarded by_id rest kept
    → Discarded by_id (e ∷ rest) kept
drop_one by_id e rest kept stale (dropped, split, all_stale, live) =
    (e ∷ dropped, ap (λ l. e ∷ l) split, (stale, all_stale), live)

keep_all :
    (by_id : Dict String Job) (e : Event) (rest : List Event)
    → (StaleIn by_id e → ⊥)
    → Discarded by_id (e ∷ rest) (e ∷ rest)
keep_all by_id e rest live = ([], refl, tt, live)

-- Discarding stale events, where no job is unknown, drops only stale events from the front of the
-- queue and stops at one that is not stale.
pub discard_stale-Discarded :
    (by_id : Dict String Job) (events : List Event) {kept : List Event}
    → discard_stale by_id events ≡ ok kept
    → Discarded by_id events kept
unfolding discard_stale
discard_stale-Discarded by_id [] {kept} h =
    subst (Discarded by_id []) (ok-injective h) ([], refl, tt, tt)
discard_stale-Discarded by_id (e ∷ rest) {kept} h =
    elim (Option-cases (expected_status e.event_type)) [
      | inl timeless ↦
          let same : e ∷ rest ≡ kept = ground arith in
          subst (Discarded by_id (e ∷ rest)) same
            (keep_all by_id e rest (λ stale. absurd (ground arith)))
      | inr (status, expects) ↦ elim (Option-cases (lookup e.job_id by_id)) [
        | inl unknown_job ↦ absurd (ground arith)
        | inr (j, found) ↦ elim (Bool-cases (is_current j status e)) [
          | inl current ↦
              let same : e ∷ rest ≡ kept = ground arith in
              subst (Discarded by_id (e ∷ rest)) same (
                keep_all by_id e rest
                  (λ stale. live_of_current by_id e j status found expects current stale))
          | inr left ↦
              drop_one by_id e rest kept (j, status, found, expects, left)
                (discard_stale-Discarded by_id rest (ground arith))
        ]
      ]
    ]
