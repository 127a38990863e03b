-- ===== src/Models/Cluster/Freed.antt =====
-- What a successful `Cluster.release` (gpu_scheduler_lab/models/cluster.py) leaves behind.
use gpu_scheduler_lab.Models.Job.{Job}
use mathlib.Core.Option
use gpu_scheduler_lab.Models.Cluster.Roundtrip.{All-refl, give_up_twice}
use gpu_scheduler_lab.Models.Cluster.Writes.{
  find_gpu-write, gpus-map_gpus, map_gpus_id_on, map_gpus_congr, map_gpus-map_gpus,
}
use gpu_scheduler_lab.Models.Cluster.{gpus, find_gpu, gpu_by_id, Cluster}
use gpu_scheduler_lab.Models.Cluster.Allocation.{
  finish_release, release, update_gpu, owned_by, give_up, write_where, map_gpus, release_gpus,
}
use gpu_scheduler_lab.Prelude.{
  if◌then◌else◌, sym, Result, ap, raise, refl, text_eq_instance, ◌∙◌, Bool-cases, arith,
  Result-cases, ◌∷◌, elem, ◌≡◌, List, String, inr, inl, ok, [],
}

pub release_gpus-writes :
    (job_id : String) (ids : List String) (c : Cluster) {u : Unit {0}} {c' : Cluster}
    → release_gpus job_id ids c ≡ (ok u, c')
    → c' ≡ map_gpus (write_where (λ g. elem g.id ids) give_up) c
unfolding release_gpus
release_gpus-writes job_id [] c h =
    ap (λ out. out.1) (sym h) ∙ sym (map_gpus_id_on _ c (All-refl (gpus c)))
release_gpus-writes job_id (i ∷ ids) c {u} {c'} h = elim (Result-cases (gpu_by_id c i)) [
  | inr (e, failed) ↦ absurd (ground arith)
  | inl (g, found) ↦ elim (Bool-cases (owned_by job_id g)) [
    | inr other ↦ absurd (ground arith)
    | inl owned ↦
        let rest : release_gpus job_id ids (update_gpu i give_up c) ≡ (ok u, c') = ground arith in
        release_gpus-writes job_id ids (update_gpu i give_up c) rest
        ∙ map_gpus-map_gpus _ _ c
        ∙ map_gpus_congr _ _ c (give_up_twice i ids)
  ]
]

pub finish_release-eq-ok :
    (j : Job) (out : Result (Unit {0}) × Cluster) {u : Unit {0}} {c' : Cluster} {j' : Job}
    → finish_release j out ≡ (ok u, c', j')
    → (out.0 ≡ ok u) × (out.1 ≡ c') × (j' ≡ record j { allocated_gpu_ids = [] })
finish_release-eq-ok j (ok done, d) h = (refl, ap (λ out. out.1) h, sym (ap (λ out. out.2) h))
finish_release-eq-ok j (raise e, d) h = cc

-- A release that succeeds frees exactly the GPUs that the job held and leaves every other GPU as
-- it was; the job holds none.
pub release-frees :
    (c : Cluster) (j : Job) {u : Unit {0}} {c' : Cluster} {j' : Job}
    → release c j ≡ (ok u, c', j')
    → (j' ≡ record j { allocated_gpu_ids = [] })
      × ((k : String)
          → find_gpu k (gpus c') ≡ (
              if elem k j.allocated_gpu_ids
              then Option.map give_up (find_gpu k (gpus c))
              else find_gpu k (gpus c)))
unfolding release
release-frees c j {u} {c'} h =
    let (done, left, job) = finish_release-eq-ok j (release_gpus j.id j.allocated_gpu_ids c) h in
    let written =
      release_gpus-writes j.id j.allocated_gpu_ids c {u = u} {c' = c'} (λ i. (done i, left i)) in
    (
      job,
      λ k.
          ap (λ d. find_gpu k (gpus d)) written
          ∙ ap (find_gpu k) (gpus-map_gpus _ c)
          ∙ find_gpu-write (λ i. elem i j.allocated_gpu_ids) k give_up (gpus c) (λ g. refl),
    )
