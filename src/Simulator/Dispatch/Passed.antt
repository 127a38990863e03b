-- ===== src/Simulator/Dispatch/Passed.antt =====
-- What a whole scheduling pass leaves alone (gpu_scheduler_lab/simulator/engine.py).
use gpu_scheduler_lab.Models.Job.{status_eq, pending}
use gpu_scheduler_lab.Simulator.Dispatch.Untouched.{
  attempt_placement-KeepsOwned, prepare_pass-cluster, KeepsOwned-trans, KeepsOwned-of_eq,
  KeepsOwned, MakesNoRoom,
}
use gpu_scheduler_lab.Simulator.{without_id, job_of, Simulator}
use gpu_scheduler_lab.Simulator.Dispatch.{
  attempt_placement, ordered_ids, sort_pending, resume_victims, next_candidate, try_job,
  schedule_prepared, guaranteed_pass, schedule, resume_each, dispatch_pending, dispatch, Pass,
}
use gpu_scheduler_lab.Simulator.Scheduler.{
  prepare_pass, placement_cannot_change_without_release, Scheduler,
}
use gpu_scheduler_lab.Simulator.Arrivals.{Setting}
use gpu_scheduler_lab.Prelude.{
  text_eq_instance, elem, not, filter, ◌==◌, ok-injective, length, sym, if◌then◌else◌, ◌>>=◌, arith,
  ap, ◌∷◌, Result, Bool-cases, >>=-eq-ok, ◌≡◌, String, List, Bool, inr, inl, suc, zero, ok, false,
  true, [], refl, ℕ,
}

module _ {S K : Type 0} (setting : Setting) (scheduler : Scheduler S K) where
  try_job-KeepsOwned :
      (guaranteed_only allow_preemption : Bool) (job_id : String) (now : ℕ) (pass : Pass S)
      {out : Pass S}
      → MakesNoRoom setting scheduler allow_preemption
      → try_job setting scheduler guaranteed_only allow_preemption job_id now pass ≡ ok out
      → KeepsOwned pass.1.cluster out.1.cluster
  try_job-KeepsOwned guaranteed_only allow_preemption job_id now (t, s) {out} no_room h =
      let (j, known, more) =
        >>=-eq-ok (job_of s job_id)
          (λ j.
            if j.status == pending
            then attempt_placement setting scheduler guaranteed_only allow_preemption job_id now
                (t, s)
            else ok (t, s))
          h in
      elim (Bool-cases (j.status == pending)) [
        | inl waits ↦
            attempt_placement-KeepsOwned setting scheduler guaranteed_only allow_preemption job_id
              now t s {out = out} no_room (ground arith)
        | inr left ↦
            let same : (t, s) ≡ out = ground arith in
            KeepsOwned-of_eq s.cluster out.1.cluster (ap (λ o. o.1.cluster) (sym same))
      ]

  unchanged_pass : (pass out : Pass S) → ok pass ≡ ok out → KeepsOwned pass.1.cluster out.1.cluster
  unchanged_pass pass out h =
      KeepsOwned-of_eq pass.1.cluster out.1.cluster (ap (λ o. o.1.cluster) (sym (ok-injective h)))

  dispatch-KeepsOwned :
      (fuel : ℕ) (guaranteed_only allow_preemption : Bool) (ids : List String) (now : ℕ)
      (pass : Pass S) {out : Pass S}
      → MakesNoRoom setting scheduler allow_preemption
      → dispatch setting scheduler fuel guaranteed_only allow_preemption ids now pass ≡ ok out
      → KeepsOwned pass.1.cluster out.1.cluster
  unfolding dispatch
  dispatch-KeepsOwned fuel guaranteed_only allow_preemption [] now pass {out} no_room h =
      unchanged_pass pass out h
  dispatch-KeepsOwned zero guaranteed_only allow_preemption (first ∷ rest) now pass {out} no_room
        h =
      unchanged_pass pass out h
  dispatch-KeepsOwned (suc fuel) guaranteed_only allow_preemption (first ∷ rest) now pass {out}
        no_room h =
      elim (Bool-cases (placement_cannot_change_without_release scheduler setting.policy pass.1)) [
        | inl stuck ↦ unchanged_pass pass out (ground arith)
        | inr goes_on ↦
            let (job_id, next, more) =
              >>=-eq-ok (next_candidate setting scheduler first rest now pass)
                (λ job_id.
                  try_job setting scheduler guaranteed_only allow_preemption job_id now pass
                  >>= dispatch setting scheduler fuel guaranteed_only allow_preemption
                      (without_id job_id (first ∷ rest)) now)
                {b = out} (ground arith) in
            let (tried, made, last) =
              >>=-eq-ok (try_job setting scheduler guaranteed_only allow_preemption job_id now pass)
                (dispatch setting scheduler fuel guaranteed_only allow_preemption
                  (without_id job_id (first ∷ rest)) now)
                more in
            KeepsOwned-trans pass.1.cluster tried.1.cluster out.1.cluster
              (try_job-KeepsOwned guaranteed_only allow_preemption job_id now pass no_room made)
              (dispatch-KeepsOwned fuel guaranteed_only allow_preemption
                (without_id job_id (first ∷ rest)) now tried no_room last)
      ]

  resume_each-KeepsOwned :
      (ids : List String) (now : ℕ) (pass : Pass S) {out : Pass S}
      → resume_each setting scheduler ids now pass ≡ ok out
      → KeepsOwned pass.1.cluster out.1.cluster
  unfolding resume_each
  resume_each-KeepsOwned [] now pass {out} h = unchanged_pass pass out h
  resume_each-KeepsOwned (job_id ∷ rest) now pass {out} h =
      elim (Bool-cases (placement_cannot_change_without_release scheduler setting.policy pass.1)) [
        | inl stuck ↦ unchanged_pass pass out (ground arith)
        | inr goes_on ↦
            let (tried, made, last) =
              >>=-eq-ok (try_job setting scheduler false false job_id now pass)
                (resume_each setting scheduler rest now) {b = out} (ground arith) in
            KeepsOwned-trans pass.1.cluster tried.1.cluster out.1.cluster
              (try_job-KeepsOwned false false job_id now pass (refl, refl) made)
              (resume_each-KeepsOwned rest now tried last)
      ]

  guaranteed_pass-KeepsOwned :
      (now : ℕ) (pass : Pass S) {out : Pass S}
      → guaranteed_pass setting scheduler now pass ≡ ok out
      → KeepsOwned pass.1.cluster out.1.cluster
  unfolding dispatch_pending
  guaranteed_pass-KeepsOwned now (t, s) {out} h =
      elim (Bool-cases scheduler.supports_guarantee_placement) [
        | inr plain ↦ unchanged_pass (t, s) out (ground arith)
        | inl guarantees ↦
            let (dispatched, done, last) =
              >>=-eq-ok (dispatch_pending setting scheduler true false s.pending now (t, s))
                (λ dispatched. prepare_pass scheduler now dispatched.0 dispatched.1) {b = out}
                (ground arith) in
            KeepsOwned-trans s.cluster dispatched.1.cluster out.1.cluster
              (dispatch-KeepsOwned (length s.pending) true false s.pending now (t, s) (refl, refl)
                done)
              (KeepsOwned-of_eq dispatched.1.cluster out.1.cluster
                (prepare_pass-cluster setting scheduler now dispatched.0 dispatched.1 last))
      ]

  schedule_prepared-KeepsOwned :
      (now : ℕ) (pass : Pass S) {out : Pass S}
      → MakesNoRoom setting scheduler true
      → schedule_prepared setting scheduler now pass ≡ ok out
      → KeepsOwned pass.1.cluster out.1.cluster
  unfolding dispatch_pending
  schedule_prepared-KeepsOwned now pass {out} no_room h =
      elim (Bool-cases (placement_cannot_change_without_release scheduler setting.policy pass.1)) [
        | inl stuck ↦ unchanged_pass pass out (ground arith)
        | inr goes_on ↦
            let (sorted, ordered, h1) =
              >>=-eq-ok (sort_pending setting scheduler now pass) guarantee_then {b = out}
                (ground arith) in
            let (guaranteed, first, h2) =
              >>=-eq-ok (guaranteed_pass setting scheduler now sorted) (dispatch_then sorted) h1 in
            let (dispatched, second, h3) =
              >>=-eq-ok
                (dispatch_pending setting scheduler false true guaranteed.1.pending now guaranteed)
                (resume_victims setting scheduler sorted.1.pending now) h2 in
            let (resumed, chosen, last) =
              >>=-eq-ok
                (ordered_ids setting scheduler
                  (filter (λ id. not (elem id sorted.1.pending)) dispatched.1.pending) now
                  dispatched)
                (λ resumed. resume_each setting scheduler resumed now dispatched) h3 in
            let (ids, keyed, done) =
              >>=-eq-ok (ordered_ids setting scheduler pass.1.pending now pass)
                (λ ids. ok (pass.0, record pass.1 { pending = ids })) ordered in
            KeepsOwned-trans pass.1.cluster sorted.1.cluster out.1.cluster
              (KeepsOwned-of_eq pass.1.cluster sorted.1.cluster
                (ap (λ o. o.1.cluster) (sym (ok-injective done))))
              (KeepsOwned-trans sorted.1.cluster guaranteed.1.cluster out.1.cluster
                (guaranteed_pass-KeepsOwned now sorted first)
                (KeepsOwned-trans guaranteed.1.cluster dispatched.1.cluster out.1.cluster
                  (dispatch-KeepsOwned (length guaranteed.1.pending) false true guaranteed.1.pending
                    now guaranteed no_room second)
                  (resume_each-KeepsOwned resumed now dispatched last)))
      ]
    where
      dispatch_then : Pass S → Pass S → Result (Pass S)
      dispatch_then sorted guaranteed =
          dispatch_pending setting scheduler false true guaranteed.1.pending now guaranteed
          >>= resume_victims setting scheduler sorted.1.pending now

      guarantee_then : Pass S → Result (Pass S)
      guarantee_then sorted = guaranteed_pass setting scheduler now sorted >>= dispatch_then sorted

  -- A scheduling pass of a scheduler that neither preempts nor reclaims takes no GPU from a job:
  -- each GPU that is owned is afterwards as it was, whatever the scheduler proposes.
  pub schedule-KeepsOwned :
      (now : ℕ) (t : S) (s : Simulator) {out : Pass S}
      → setting.policy.supports_preemption ≡ false
      → scheduler.supports_reclaim ≡ false
      → schedule setting scheduler now (t, s) ≡ ok out
      → KeepsOwned s.cluster out.1.cluster
  unfolding schedule
  schedule-KeepsOwned now t s {out} no_preemption no_reclaim h =
      let (prepared, observed, last) =
        >>=-eq-ok (prepare_pass scheduler now t s) (schedule_prepared setting scheduler now) h in
      KeepsOwned-trans s.cluster prepared.1.cluster out.1.cluster
        (KeepsOwned-of_eq s.cluster prepared.1.cluster
          (prepare_pass-cluster setting scheduler now t s observed))
        (schedule_prepared-KeepsOwned now prepared (no_preemption, no_reclaim) last)
