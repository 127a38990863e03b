-- ===== src/Simulator/Started.antt =====
-- What a started job owns (gpu_scheduler_lab/simulator/engine.py).
use gpu_scheduler_lab.Simulator.Ownership.{
  record_topology_placement-cluster, release_preemption_reservation-cluster, start_again-cluster,
}
use gpu_scheduler_lab.Models.Cluster.Ownership.{allocate-WasOffered, WasOffered, allocate-owners}
use gpu_scheduler_lab.Models.Cluster.Allocation.{allocate, take_ownership}
use gpu_scheduler_lab.Simulator.Reservations.{release_preemption_reservation}
use gpu_scheduler_lab.Models.Cluster.{gpus, find_gpu}
use gpu_scheduler_lab.Simulator.Start.{
  placed_state, dispatched, begin_allocated, was_preempted, start_again, record_topology_placement,
  begin, start,
}
use gpu_scheduler_lab.Simulator.{node_ids_of, Simulator, Policy}
use gpu_scheduler_lab.Models.Job.{effective_priority, requested_gpu_count, Job}
use mathlib.Core.Option
use gpu_scheduler_lab.Prelude.{
  distinct, text_eq_instance, arith, ◌∙◌, Bool-cases, ok-injective, sym, ap, if◌then◌else◌, ◌>>=◌,
  elem, length, >>=-eq-ok, ◌≡◌, String, List, Result, inr, inl, ok, true, ℕ,
}

module _ {S : Type 0} (on_job_started : Job → ℕ → S → Result (S × Job)) where
  pub begin-cluster :
      (policy : Policy) (was : Job) (placement : List String) (now : ℕ) (scheduler : S)
      (begun : Job) (placed : Simulator) {out : S × Simulator}
      → begin on_job_started policy was placement now scheduler begun placed ≡ ok out
      → out.1.cluster ≡ placed.cluster
  begin-cluster policy was placement now scheduler begun placed {out} h =
      let (node_ids, on, recording) =
        >>=-eq-ok (node_ids_of placed placement)
          (λ node_ids. record_topology_placement begun placement node_ids placed >>= λ counted.
            release_preemption_reservation policy was.id now counted >>= λ unreserved.
            on_job_started begun now scheduler >>= λ told.
            start_again now node_ids (was_preempted was) told.1 unreserved >>= λ started.
            ok (told.0, started))
          h in
      let (counted, recorded, releasing) =
        >>=-eq-ok (record_topology_placement begun placement node_ids placed)
          (λ counted. release_preemption_reservation policy was.id now counted >>= λ unreserved.
            on_job_started begun now scheduler >>= λ told.
            start_again now node_ids (was_preempted was) told.1 unreserved >>= λ started.
            ok (told.0, started))
          recording in
      let (unreserved, released, telling) =
        >>=-eq-ok (release_preemption_reservation policy was.id now counted)
          (λ unreserved. on_job_started begun now scheduler >>= λ told.
            start_again now node_ids (was_preempted was) told.1 unreserved >>= λ started.
            ok (told.0, started))
          releasing in
      let (told, heard, starting) =
        >>=-eq-ok (on_job_started begun now scheduler)
          (λ told. start_again now node_ids (was_preempted was) told.1 unreserved >>= λ started.
            ok (told.0, started))
          telling in
      let (started, again, last) =
        >>=-eq-ok (start_again now node_ids (was_preempted was) told.1 unreserved)
          (λ started. ok (told.0, started)) starting in
      ap (λ o. o.1.cluster) (sym (ok-injective last))
      ∙ start_again-cluster now node_ids (was_preempted was) told.1 unreserved again
      ∙ release_preemption_reservation-cluster policy was.id now counted released
      ∙ record_topology_placement-cluster begun placement node_ids placed recorded

  -- A job whose start succeeds was pending, and its placement names the requested number of
  -- distinct GPUs, which nobody owned and the job could take. It owns exactly those afterwards,
  -- whatever the scheduler's hook does, and every other GPU is as it was.
  pub start_owners :
      (policy : Policy) (j : Job) (placement : List String) (now : ℕ) (scheduler : S)
      (s : Simulator) {out : S × Simulator}
      → start on_job_started policy j placement now scheduler s ≡ ok out
      → (length placement ≡ requested_gpu_count j)
        × (distinct placement ≡ true)
        × ((k : String) → elem k placement ≡ true → WasOffered s.cluster j k)
        × (elem j.id s.pending ≡ true)
        × ((k : String)
            → find_gpu k (gpus out.1.cluster) ≡ (
                if elem k placement
                then Option.map (take_ownership j) (find_gpu k (gpus s.cluster))
                else find_gpu k (gpus s.cluster)))
  unfolding start
  start_owners policy j placement now scheduler s {out} h =
      let (allocated, made, more) =
        >>=-eq-ok (allocate s.cluster j placement)
          (begin_allocated on_job_started policy j placement now scheduler s) h in
      let owners = allocate-owners s.cluster j placement made in
      elim (Bool-cases (elem j.id s.pending)) [
        | inr absent ↦ absurd (ground arith)
        | inl waiting ↦
            let kept : out.1.cluster ≡ allocated.0 =
              begin-cluster policy j placement now scheduler
                (dispatched now (effective_priority j now policy.aging_interval) (length placement)
                  allocated.1)
                (placed_state on_job_started policy j placement now s allocated) {out = out}
                (ground arith) in
            (
              owners.1,
              owners.2,
              λ k m. allocate-WasOffered s.cluster j placement k made m,
              waiting,
              λ k. ap (λ c. find_gpu k (gpus c)) kept ∙ owners.3 k,
            )
      ]
