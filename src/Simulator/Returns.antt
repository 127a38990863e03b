-- ===== src/Simulator/Returns.antt =====
-- When a completion is handled without an error (gpu_scheduler_lab/simulator/engine.py).
use gpu_scheduler_lab.Models.Elastic.{unit}
use gpu_scheduler_lab.Simulator.Completion.{
  complete-IsCompleted, IsCompleted, cap_work-keeps, accrue_productive_work-keeps,
}
use gpu_scheduler_lab.Models.Cluster.Roundtrip.{release_gpus-eq, Owns}
use gpu_scheduler_lab.Models.Events.{Event}
use gpu_scheduler_lab.Simulator.Lifecycle.{
  conclude, complete_accrued, completed_state, has_not_started, release_job, cap_work,
  complete_current, complete, accrue_productive_work,
}
use gpu_scheduler_lab.Simulator.{without_id, pop_id, node_ids_of, is_current, job_of, Simulator}
use gpu_scheduler_lab.Models.Job.{total_productive_work, running, productive_rate, Job}
use gpu_scheduler_lab.Models.Cluster.Allocation.{
  finish_release, give_up, write_where, map_gpus, release,
}
use gpu_scheduler_lab.Models.Cluster.{Gpu, Cluster, gpu_by_id}
use gpu_scheduler_lab.Prelude.{
  ◌<>◌, runtime_error, key_error, not, raise_if, sym, subst, ◌>>◌, map, ◌/◌, if◌then◌else◌, dedup,
  ◌>>=◌, ◌*◌, compare_text, arith, ◌∷◌, sort, ap, ◌∙◌, traverse, min, ◌-◌, text_eq_instance, ◌+◌,
  elem, Option-cases, List, ◌≡◌, Unique, String, inr, inl, ok, false, true, some, [], refl, ℕ,
}

-- A job that runs: it has started, its rate is defined, it is among the running jobs, and it owns
-- the GPUs that it holds.
pub record IsRunning (s : Simulator) (j : Job) : Type 0 where
  pub start : ℕ
  pub started : j.last_start_time ≡ some start
  pub rate : ℕ
  pub rated : productive_rate j j.current_replicas ≡ ok rate
  pub listed : elem j.id s.running ≡ true
  pub unique : Unique j.allocated_gpu_ids
  pub owns : Owns j.id j.allocated_gpu_ids s.cluster

accrue_returns :
    (now : ℕ) (j : Job) (s : Simulator)
    → IsRunning s j
    → (accrued : Job) × (accrue_productive_work now j ≡ ok accrued)
unfolding accrue_productive_work
accrue_returns now j s runs =
    let started = runs.started in
    let rated = runs.rated in
    elim (Option-cases j.elastic) [
      | inl rigid ↦ (
        record j {
          accumulated_runtime = j.accumulated_runtime + (now - runs.start);
          productive_work_completed =
              min (total_productive_work j.spec)
                ((j.accumulated_runtime + (now - runs.start)) * j.gpu_count);
        },
        ground arith,
      )
      | inr (e, elastic) ↦ (
        record j {
          productive_work_completed =
              min (total_productive_work j.spec)
                (j.productive_work_completed + (now - runs.start) * runs.rate / unit);
        },
        ground arith,
      )
    ]

selected_returns :
    (job_id : String) (ids : List String) (c : Cluster)
    → Owns job_id ids c
    → (gs : List Gpu) × (traverse (gpu_by_id c) ids ≡ ok gs)
unfolding gpu_by_id
selected_returns job_id [] c o = ([], refl)
selected_returns job_id (i ∷ ids) c ((g, found, owned), o) =
    let (gs, rest) = selected_returns job_id ids c o in (g ∷ gs, ground arith)

release_returns :
    (j : Job) (s : Simulator)
    → Unique j.allocated_gpu_ids
    → Owns j.id j.allocated_gpu_ids s.cluster
    → (c : Cluster) × (release_job j s
        ≡ ok (record s { cluster = c }, record j { allocated_gpu_ids = [] }))
unfolding release
release_returns j s unique owns =
    let freed = release_gpus-eq j.id j.allocated_gpu_ids s.cluster unique owns in
    (
      map_gpus (write_where (λ g. elem g.id j.allocated_gpu_ids) give_up) s.cluster,
      ap
          (λ out.
            (finish_release j out).0
            >> ok (record s { cluster = (finish_release j out).1 }, (finish_release j out).2))
          freed,
    )

complete_current_returns :
    (now : ℕ) (j : Job) (s : Simulator)
    → IsRunning s j
    → (s' : Simulator) × (complete_current now j s ≡ ok s')
complete_current_returns now j s runs =
    let (accrued, grown) = accrue_returns now j s runs in
    let kept = accrue_productive_work-keeps now j grown in
    let capped = cap_work-keeps accrued in
    let held : Job = cap_work accrued in
    let same_id : held.id ≡ j.id = capped.0 ∙ kept.0 in
    let same_gpus : held.allocated_gpu_ids ≡ j.allocated_gpu_ids = capped.1 ∙ kept.1 in
    let (gs, selected) = selected_returns j.id j.allocated_gpu_ids s.cluster runs.owns in
    let node_ids : List String = sort compare_text (dedup (map (λ (g : Gpu). g.node_id) gs)) in
    let on : node_ids_of s j.allocated_gpu_ids ≡ ok node_ids =
      ap
        (λ m.
          m >>= λ selected. ok (sort compare_text (dedup (map (λ (g : Gpu). g.node_id) selected))))
        selected in
    let (c, released) = release_returns held s (subst Unique (sym same_gpus) runs.unique) (
      subst (λ i. Owns i held.allocated_gpu_ids s.cluster) (sym same_id)
        (subst (λ ids. Owns j.id ids s.cluster) (sym same_gpus) runs.owns)) in
    let started : has_not_started j ≡ false =
      ap (λ o. has_not_started (record j { last_start_time = o })) runs.started in
    let popped : pop_id j.id s.running ≡ ok (without_id j.id s.running) =
      ap (λ b. raise_if (not b) (key_error j.id) >> ok (without_id j.id s.running)) runs.listed in
    (
      completed_state now j node_ids (without_id j.id s.running)
          (record s { cluster = c }, record held { allocated_gpu_ids = [] }),
      ap
            (λ b.
              raise_if b (runtime_error ("running job " <> j.id <> " has no start time"))
              >> (accrue_productive_work now j >>= complete_accrued now j s))
            started
          ∙ ap (λ m. m >>= complete_accrued now j s) grown
          ∙ ap (λ m. m >>= λ ns. release_job held s >>= conclude now j ns) on
          ∙ ap (λ m. m >>= conclude now j node_ids) released
          ∙ ap
              (λ m. m >>= λ still. ok (
                completed_state now j node_ids still
                  (record s { cluster = c }, record held { allocated_gpu_ids = [] })))
              popped,
    )

-- A completion event of a running job's generation is handled without an error, with the effects
-- of a completion, where the job has started at a defined rate, is among the running jobs and owns
-- the distinct GPUs that it holds.
pub complete_returns :
    (e : Event) (now : ℕ) (s : Simulator) {j : Job}
    → job_of s e.job_id ≡ ok j
    → is_current j running e ≡ true
    → IsRunning s j
    → (s' : Simulator) × (complete e now s ≡ ok s') × IsCompleted now j s s'
unfolding complete
complete_returns e now s {j} known current runs =
    let (s', made) = complete_current_returns now j s runs in
    let whole : complete e now s ≡ ok s' =
      ap (λ m. m >>= λ k. if is_current k running e then complete_current now k s else ok s) known
      ∙ ap (λ b. if b then complete_current now j s else ok s) current
      ∙ made in
    (s', whole, complete-IsCompleted e now s known current whole)
