-- ===== src/Simulator/Reclaiming/Rounds.antt =====
-- The rounds of the loop that preempts jobs in a reclaim plan
-- (gpu_scheduler_lab/simulator/engine.py, `_plan_reclaim_for_vendor`).
use gpu_scheduler_lab.Simulator.Reclaiming.Taken.{unpreempted, preempt_round-less}
use gpu_scheduler_lab.Schedulers.Topology.Place.{Placement}
use gpu_scheduler_lab.Simulator.{Simulator}
use gpu_scheduler_lab.Simulator.Scheduler.{Scheduler}
use gpu_scheduler_lab.Models.Job.{Job}
use gpu_scheduler_lab.Prelude.{
  Result-cases, length-map, count_of-le, length, suc, zero, ◌∙◌, ap, map, Option, some, none, sym,
  ◌>>=◌, text_eq_instance, arith, ◌<◌, not, ◌≡◌, ℕ, elem, String, Result, List, inr, inl, ok, refl,
}
use gpu_scheduler_lab.Simulator.Reclaiming.Planning.{repeat, preempt_round, ReclaimRequest}
use gpu_scheduler_lab.Simulator.Reclaiming.{Projection}

module _ {S K : Type 0} (scheduler : Scheduler S K) (request : ReclaimRequest) where
  repeat-enough :
      (m n : ℕ) (s : Simulator) (running_jobs : List Job) (p : Projection) (t : S)
      → unpreempted (map (λ j. j.id) running_jobs) p.preempted_ids < m
      → unpreempted (map (λ j. j.id) running_jobs) p.preempted_ids < n
      → repeat scheduler request m (preempt_round scheduler request s running_jobs) p t
        ≡ repeat scheduler request n (preempt_round scheduler request s running_jobs) p t
  unfolding repeat
  repeat-enough zero n s running_jobs p t hm hn = absurd (omega arith)
  repeat-enough (suc m) zero s running_jobs p t hm hn = absurd (omega arith)
  repeat-enough (suc m) (suc n) s running_jobs p t hm hn =
      let again =
        λ (q : Projection) (u : S)
            (made : preempt_round scheduler request s running_jobs p t ≡ ok (some (none, q, u))).
          let less =
            preempt_round-less scheduler request s running_jobs p t {next = (none, q, u)} made in
          repeat-enough m n s running_jobs q u (omega (arith, less, hm))
            (omega (arith, less, hn)) in
      elim (Result-cases (preempt_round scheduler request s running_jobs p t)) [
        | inr (e, failed) ↦ ap (from m) failed ∙ sym (ap (from n) failed)
        | inl (stepped, made) ↦
            ap (from m) made ∙ on_step again stepped made ∙ sym (ap (from n) made)
      ]
    where
      from : ℕ → Result (Option (Placement × Projection × S)) → Result (Placement × Projection × S)
      from fuel r = r >>= λ stepped. elim stepped [
        | none ↦ ok (none, p, t)
        | some next ↦ elim next.0 [
          | some ids ↦ ok (some ids, next.1, next.2)
          | none ↦
              repeat scheduler request fuel (preempt_round scheduler request s running_jobs) next.1
                next.2
        ]
      ]

      on_step :
          ((q : Projection) (u : S)
            → preempt_round scheduler request s running_jobs p t ≡ ok (some (none, q, u))
            → repeat scheduler request m (preempt_round scheduler request s running_jobs) q u
              ≡ repeat scheduler request n (preempt_round scheduler request s running_jobs) q u)
          → (stepped : Option (Placement × Projection × S))
          → preempt_round scheduler request s running_jobs p t ≡ ok stepped
          → from m (ok stepped) ≡ from n (ok stepped)
      on_step again none made = refl
      on_step again (some (some ids, q, u)) made = refl
      on_step again (some (none, q, u)) made = again q u made

  -- The rounds that the loop over victims is given are enough, one more than there are running
  -- jobs: with any number of rounds from there on the outcome is the same, whatever the scheduler
  -- answers.
  pub preempting_enough_rounds :
      (n : ℕ) (s : Simulator) (running_jobs : List Job) (p : Projection) (t : S)
      → length running_jobs < n
      → repeat scheduler request
          (suc (length running_jobs))
          (preempt_round scheduler request s running_jobs)
          p
          t
        ≡ repeat scheduler request n (preempt_round scheduler request s running_jobs) p t
  preempting_enough_rounds n s running_jobs p t enough =
      let ids : List String = map (λ (j : Job). j.id) running_jobs in
      let few = count_of-le (λ i. not (elem i p.preempted_ids)) ids in
      let same : length ids ≡ length running_jobs = length-map (λ (j : Job). j.id) running_jobs in
      repeat-enough (suc (length running_jobs)) n s running_jobs p t (omega (arith, few, same))
        (omega (arith, few, same, enough))
