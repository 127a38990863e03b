-- ===== src/Simulator/Dispatch/Untouched.antt =====
-- Which GPUs a scheduling pass leaves alone (gpu_scheduler_lab/simulator/engine.py).
use gpu_scheduler_lab.Schedulers.Packing.{validate_atomic_placement}
use gpu_scheduler_lab.Models.Cluster.Ownership.{found_once, allocate-WasOffered}
use gpu_scheduler_lab.Simulator.Ownership.{release_preemption_reservation-cluster}
use gpu_scheduler_lab.Simulator.Reservations.{release_preemption_reservation}
use gpu_scheduler_lab.Simulator.Started.{start_owners}
use gpu_scheduler_lab.Models.Cluster.Allocation.{take_ownership, allocate}
use gpu_scheduler_lab.Simulator.Start.{begin_allocated, start}
use gpu_scheduler_lab.Simulator.Dispatch.{
  is_reclaim_reservation, check_reservation, requested_for, asking, commit_placement, all_free,
  after_answer, give_reservation_up, Pass, attempt_placement,
}
use gpu_scheduler_lab.Simulator.{put_job, job_of, Simulator}
use gpu_scheduler_lab.Schedulers.Topology.Place.{Placement}
use gpu_scheduler_lab.Simulator.Scheduler.{
  place_now, count_attempt, allocated_ids, count_failure, put_jobs, prepare_pass, Scheduler,
}
use gpu_scheduler_lab.Models.Job.{Job}
use gpu_scheduler_lab.Simulator.Arrivals.{Setting}
use gpu_scheduler_lab.Models.Cluster.{free, gpus, find_gpu, Gpu, Cluster}
use gpu_scheduler_lab.Prelude.{
  ◌&&◌, ◌>>◌, subst, not, text_eq_instance, raise_if, ◌<>◌, arith, runtime_error, elem, ◌>>=◌,
  Error, Bool-cases, ok-injective, if◌then◌else◌, ◌∙◌, sym, get_or, ◌∷◌, traverse, Result,
  >>=-eq-ok, ap, Bool, ◌≡◌, String, List, inr, inl, ok, false, some, none, [], refl, ℕ,
}
use mathlib.Core.Option

-- Every GPU that is owned is as it was, and so still owned by the same job.
abbrev pub KeepsOwned : Cluster → Cluster → Type 0
KeepsOwned c c' =
    (k : String) (g : Gpu)
    → find_gpu k (gpus c) ≡ some g
    → free g ≡ false
    → find_gpu k (gpus c') ≡ some g

pub KeepsOwned-of_eq : (c c' : Cluster) → c' ≡ c → KeepsOwned c c'
KeepsOwned-of_eq c c' e k g at owned = ap (λ d. find_gpu k (gpus d)) e ∙ at

pub KeepsOwned-trans : (a b c : Cluster) → KeepsOwned a b → KeepsOwned b c → KeepsOwned a c
KeepsOwned-trans a b c h h' k g at owned = h' k g (h k g at owned) owned

put_jobs-cluster : (js : List Job) (s : Simulator) → (put_jobs js s).cluster ≡ s.cluster
put_jobs-cluster [] s = refl
put_jobs-cluster (j ∷ js) s = put_jobs-cluster js (put_job j s)

module _ {S K : Type 0} (setting : Setting) (scheduler : Scheduler S K) where
  pub prepare_pass-cluster :
      (now : ℕ) (t : S) (s : Simulator) {out : S × Simulator}
      → prepare_pass scheduler now t s ≡ ok out
      → out.1.cluster ≡ s.cluster
  unfolding prepare_pass
  prepare_pass-cluster now t s {out} h =
      let (waiting, w, h1) =
        >>=-eq-ok (traverse (job_of s) s.pending)
          (λ waiting. traverse (job_of s) (allocated_ids s) >>= λ allocated.
            scheduler.prepare now s.cluster waiting allocated t >>= λ prepared.
            ok (prepared.0, put_jobs prepared.1 s))
          h in
      let (allocated, a, h2) =
        >>=-eq-ok (traverse (job_of s) (allocated_ids s))
          (λ allocated. scheduler.prepare now s.cluster waiting allocated t >>= λ prepared.
            ok (prepared.0, put_jobs prepared.1 s))
          h1 in
      let (prepared, p, last) =
        >>=-eq-ok (scheduler.prepare now s.cluster waiting allocated t)
          (λ prepared. ok (prepared.0, put_jobs prepared.1 s)) h2 in
      ap (λ o. o.1.cluster) (sym (ok-injective last)) ∙ put_jobs-cluster prepared.1 s

  start-KeepsOwned :
      (j : Job) (placement : List String) (now : ℕ) (t : S) (s : Simulator) {out : S × Simulator}
      → start scheduler.on_job_started setting.policy j placement now t s ≡ ok out
      → KeepsOwned s.cluster out.1.cluster
  unfolding start
  start-KeepsOwned j placement now t s {out} h k g at owned =
      let (allocated, made, more) =
        >>=-eq-ok (allocate s.cluster j placement)
          (begin_allocated scheduler.on_job_started setting.policy j placement now t s) h in
      let owners = start_owners scheduler.on_job_started setting.policy j placement now t s h in
      elim (Bool-cases (elem k placement)) [
        | inl taken ↦
            let was = allocate-WasOffered s.cluster j placement k made taken in
            let same : was.gpu ≡ g = found_once was.found at in
            let unowned : g.owner_job_id ≡ none =
              subst (λ (x : Gpu). x.owner_job_id ≡ none) same was.unowned in
            absurd (ground (arith, unowned))
        | inr other ↦
            owners.4 k
            ∙ ap
                (λ b.
                  if b
                  then Option.map (take_ownership j) (find_gpu k (gpus s.cluster))
                  else find_gpu k (gpus s.cluster))
                other
            ∙ at
      ]

  commit_placement-KeepsOwned :
      (job_id : String) (now : ℕ) (found : Placement) (t : S) (s : Simulator) {out : Pass S}
      → commit_placement setting scheduler job_id now (found, t, s) ≡ ok out
      → KeepsOwned s.cluster out.1.cluster
  commit_placement-KeepsOwned job_id now none t s {out} h =
      KeepsOwned-of_eq s.cluster out.1.cluster (ap (λ o. o.1.cluster) (sym (ok-injective h)))
  commit_placement-KeepsOwned job_id now (some ids) t s {out} h =
      let partial_error : Error =
        runtime_error ("scheduler returned partial placement for " <> job_id) in
      let (j, known, h1) =
        >>=-eq-ok (job_of s job_id)
          (λ j.
            raise_if (not (validate_atomic_placement j (some ids))) partial_error
            >> start scheduler.on_job_started setting.policy j ids now t s)
          h in
      let (u, whole_gang, h2) =
        >>=-eq-ok (raise_if (not (validate_atomic_placement j (some ids))) partial_error)
          (λ u. start scheduler.on_job_started setting.policy j ids now t s) h1 in
      start-KeepsOwned j ids now t s h2

  give_reservation_up-cluster :
      (job_id : String) (now : ℕ) (s : Simulator) {s' : Simulator}
      → give_reservation_up setting.policy job_id now s ≡ ok s'
      → s'.cluster ≡ s.cluster
  give_reservation_up-cluster job_id now s {s'} h =
      let (unused, tested, more) =
        >>=-eq-ok (all_free s.cluster (get_or job_id [] s.preemption_reserved_gpus))
          (λ unused.
            if unused then release_preemption_reservation setting.policy job_id now s else ok s)
          h in
      elim (Bool-cases unused) [
        | inl gives_up ↦
            release_preemption_reservation-cluster setting.policy job_id now s {s' = s'}
              (ground arith)
        | inr keeps ↦ let same : s ≡ s' = ground arith in ap (λ x. x.cluster) (sym same)
      ]

  -- No room is made for a job that fits nowhere.
  abbrev pub MakesNoRoom : Bool → Type 0
  MakesNoRoom allow_preemption =
      ((allow_preemption && setting.policy.supports_preemption) ≡ false)
      × ((allow_preemption && scheduler.supports_reclaim) ≡ false)

  after_none-KeepsOwned :
      (reserved guaranteed_only allow_preemption : Bool) (j : Job) (now : ℕ) (s : Simulator) (t : S)
      {out : Pass S}
      → MakesNoRoom allow_preemption
      → after_answer setting scheduler reserved guaranteed_only allow_preemption j now s (none, t)
        ≡ ok out
      → KeepsOwned s.cluster out.1.cluster
  after_none-KeepsOwned reserved guaranteed_only allow_preemption j now s t {out} no_room h =
      elim (Bool-cases reserved) [
        | inl holds ↦
            let (s', given_up, last) =
              >>=-eq-ok (give_reservation_up setting.policy j.id now s)
                (λ s'. ok (t, count_failure s')) {b = out} (ground arith) in
            KeepsOwned-of_eq s.cluster out.1.cluster (
              ap (λ o. o.1.cluster) (sym (ok-injective last))
              ∙ give_reservation_up-cluster j.id now s given_up)
        | inr open_to ↦ elim (Bool-cases guaranteed_only) [
          | inl only ↦
              let same : (t, s) ≡ out = ground arith in
              KeepsOwned-of_eq s.cluster out.1.cluster (ap (λ o. o.1.cluster) (sym same))
          | inr any_capacity ↦
              let same : (t, count_failure s) ≡ out = ground arith in
              KeepsOwned-of_eq s.cluster out.1.cluster (ap (λ o. o.1.cluster) (sym same))
        ]
      ]

  pub attempt_placement-KeepsOwned :
      (guaranteed_only allow_preemption : Bool) (job_id : String) (now : ℕ) (t : S) (s : Simulator)
      {out : Pass S}
      → MakesNoRoom allow_preemption
      → attempt_placement setting scheduler guaranteed_only allow_preemption job_id now (t, s)
        ≡ ok out
      → KeepsOwned s.cluster out.1.cluster
  unfolding attempt_placement
  attempt_placement-KeepsOwned guaranteed_only allow_preemption job_id now t s {out} no_room h =
      let reserved = is_reclaim_reservation s job_id in
      let (found, known, h1) = >>=-eq-ok (job_of s job_id) place_then h in
      let j : Job = asking (requested_for scheduler.supports_elastic found) found in
      let asked : Simulator = put_job j (count_attempt s) in
      let (placed, answered, h2) =
        >>=-eq-ok (place_now scheduler guaranteed_only j t asked)
          (λ placed.
            check_reservation setting scheduler reserved asked j placed
            >>= after_answer setting scheduler reserved guaranteed_only allow_preemption j now
                asked)
          h1 in
      let (answer, checked, last) =
        >>=-eq-ok (check_reservation setting scheduler reserved asked j placed)
          (after_answer setting scheduler reserved guaranteed_only allow_preemption j now asked)
          h2 in
      answer_kept j asked answer.0 answer.1 last
    where
      place_then : Job → Result (Pass S)
      place_then found =
          let j : Job = asking (requested_for scheduler.supports_elastic found) found in
          let asked : Simulator = put_job j (count_attempt s) in
          place_now scheduler guaranteed_only j t asked >>= λ placed.
          check_reservation setting scheduler (is_reclaim_reservation s job_id) asked j placed
          >>= after_answer setting scheduler (is_reclaim_reservation s job_id) guaranteed_only
              allow_preemption j now asked

      answer_kept :
          (j : Job) (asked : Simulator) (found : Placement) (t : S)
          → after_answer setting scheduler
              (is_reclaim_reservation s job_id)
              guaranteed_only
              allow_preemption
              j
              now
              asked
              (found, t)
            ≡ ok out
          → KeepsOwned asked.cluster out.1.cluster
      answer_kept j asked none t e =
          after_none-KeepsOwned (is_reclaim_reservation s job_id) guaranteed_only allow_preemption j
            now asked t no_room e
      answer_kept j asked (some ids) t e = commit_placement-KeepsOwned j.id now (some ids) t asked e
