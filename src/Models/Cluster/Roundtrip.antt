-- ===== src/Models/Cluster/Roundtrip.antt =====
-- `Cluster.release` (gpu_scheduler_lab/models/cluster.py) undoes `Cluster.allocate`.
use gpu_scheduler_lab.Models.Job.{Job}
use gpu_scheduler_lab.Prelude.{
  distinct→Unique, subst, Bool-cases, All-of_elem, All-zip, beq_refl, inr, inl, ◌∙◌, sym, beq_comm,
  ap, refl, arith, ◌∷◌, text_eq_instance, elem, All, ◌==◌, map, List, ◌≡◌, Unique, String, ok,
  false, true, some, none, [],
}
use gpu_scheduler_lab.Models.Cluster.{Gpu, Cluster, gpus, find_gpu, gpu_by_id}
use gpu_scheduler_lab.Models.Cluster.Allocation.{
  finish_release, allocate, take_ownership, give_up, release, release_gpus, write_where, map_gpus,
  owned_by, update_gpu,
}
use gpu_scheduler_lab.Models.Cluster.Writes.{
  assign-eq, gpus-map_gpus, find_gpu-write, map_gpus-map_gpus, map_gpus_congr, map_gpus_id_on,
}
use gpu_scheduler_lab.Models.Cluster.Ownership.{
  found_once, WasOffered, allocate-WasOffered, allocate-owners, allocate-parts,
}

-- A GPU that no job owns has no memory allocated.
abbrev pub IsIdle : Gpu → Type 0
IsIdle g = g.owner_job_id ≡ none → g.allocated_memory_gb ≡ 0

-- The ids of a cluster's GPUs are distinct, and its free GPUs are idle.
pub record IsConsistent (c : Cluster) : Type 0 where
  pub unique : Unique (map (λ g. g.id) (gpus c))
  pub idle : All IsIdle (gpus c)

-- The job of this id owns every GPU of a list.
abbrev pub Owns : String → List String → Cluster → Type 0
Owns job_id ids c =
    All (λ k. (g : Gpu) × (find_gpu k (gpus c) ≡ some g) × (owned_by job_id g ≡ true)) ids

pub give_up_twice :
    (i : String) (ids : List String) (g : Gpu)
    → write_where (λ x. elem x.id ids) give_up (write_where (λ x. x.id == i) give_up g)
      ≡ write_where (λ x. elem x.id (i ∷ ids)) give_up g
give_up_twice i ids g = ground arith

give_up_other :
    (i k : String) (c : Cluster)
    → (k == i) ≡ false
    → find_gpu k (gpus (update_gpu i give_up c)) ≡ find_gpu k (gpus c)
give_up_other i k c other =
    ap (find_gpu k) (gpus-map_gpus _ c)
    ∙ find_gpu-write (λ x. x == i) k give_up (gpus c) (λ g. refl)
    ∙ rw other refl

Owns-give_up :
    (job_id i : String) (ids : List String) (c : Cluster)
    → elem i ids ≡ false
    → Owns job_id ids c
    → Owns job_id ids (update_gpu i give_up c)
Owns-give_up job_id i [] c h o = tt
Owns-give_up job_id i (k ∷ ids) c h ((g, found, owned), o) = (
  (g, give_up_other i k c (ground (arith, beq_comm i k)) ∙ found, owned),
  Owns-give_up job_id i ids c (ground arith) o,
)

pub All-refl : (gs : List Gpu) → All (λ g. g ≡ g) gs
All-refl [] = tt
All-refl (g ∷ gs) = (refl, All-refl gs)

release_gpus-step :
    (job_id i : String) (ids : List String) (c : Cluster) (g : Gpu)
    → find_gpu i (gpus c) ≡ some g
    → owned_by job_id g ≡ true
    → release_gpus job_id (i ∷ ids) c ≡ release_gpus job_id ids (update_gpu i give_up c)
unfolding release_gpus gpu_by_id
release_gpus-step job_id i ids c g found owned = ground arith

-- Giving up GPUs that the job owns succeeds, and is one write.
pub release_gpus-eq :
    (job_id : String) (ids : List String) (c : Cluster)
    → Unique ids
    → Owns job_id ids c
    → release_gpus job_id ids c ≡ (ok tt, map_gpus (write_where (λ g. elem g.id ids) give_up) c)
unfolding release_gpus
release_gpus-eq job_id [] c u o = λ i. (ok tt, sym (map_gpus_id_on _ c (All-refl (gpus c))) i)
release_gpus-eq job_id (i ∷ ids) c u ((g, found, owned), o) =
    let rest =
      release_gpus-eq job_id ids (update_gpu i give_up c) u.1 (Owns-give_up job_id i ids c u.0 o) in
    let one =
      map_gpus-map_gpus (write_where (λ x. elem x.id ids) give_up)
        (write_where (λ x. x.id == i) give_up) c
      ∙ map_gpus_congr _ _ c (give_up_twice i ids) in
    release_gpus-step job_id i ids c g found owned ∙ rest ∙ (λ n. (ok tt, one n))

found_at : (gs : List Gpu) → Unique (map (λ g. g.id) gs) → All (λ g. find_gpu g.id gs ≡ some g) gs
found_at [] u = tt
found_at (g ∷ gs) u = (
  ground (arith, beq_refl g.id),
  All-zip gs (λ x at m. ground (arith, beq_comm g.id x.id, m)) (found_at gs u.1) (apart gs u.0),
)
  where
    apart :
        (xs : List Gpu)
        → elem g.id (map (λ x. x.id) xs) ≡ false
        → All (λ x. (g.id == x.id) ≡ false) xs
    apart [] h = tt
    apart (x ∷ xs) h = (ground arith, apart xs (ground arith))

-- A GPU of an allocated placement was idle, so giving it up restores it.
restores :
    (j : Job) (ids : List String) (c : Cluster) (g : Gpu)
    → ((k : String) → elem k ids ≡ true → WasOffered c j k)
    → find_gpu g.id (gpus c) ≡ some g
    → IsIdle g
    → write_where
        (λ x. elem x.id ids)
        give_up
        (write_where (λ x. elem x.id ids) (take_ownership j) g)
      ≡ g
restores j ids c g offered at idle = elim (Bool-cases (elem g.id ids)) [
  | inr other ↦ ground arith
  | inl member ↦
      let was = offered g.id member in
      let same : was.gpu ≡ g = found_once was.found at in
      let unowned : g.owner_job_id ≡ none = subst (λ x. x.owner_job_id ≡ none) same was.unowned in
      let empty = idle unowned in ground arith
]

module _ (c : Cluster) (j : Job) (ids : List String) {c' : Cluster} {j' : Job}
    (made : allocate c j ids ≡ ok (c', j')) where
  owns : Owns j.id ids c'
  owns = All-of_elem _ ids (λ k m.
      let was = allocate-WasOffered c j ids k made m in
      (
        take_ownership j was.gpu,
        (allocate-owners c j ids made).3 k ∙ rw (m, was.found) refl,
        beq_refl j.id,
      ))

  released : IsConsistent c → release_gpus j.id ids c' ≡ (ok tt, c)
  released consistent =
      let (facts, written, job) = allocate-parts c j ids made in
      let back =
        ap (map_gpus (write_where (λ g. elem g.id ids) give_up)) (written ∙ assign-eq j ids c)
        ∙ map_gpus-map_gpus _ _ c
        ∙ map_gpus_id_on _ c (
            All-zip (gpus c)
              (λ g at idle.
                restores j ids c g (λ k m. allocate-WasOffered c j ids k made m) at idle)
              (found_at (gpus c) consistent.unique) consistent.idle) in
      release_gpus-eq j.id ids c' (distinct→Unique ids facts.unique) owns ∙ (λ n. (ok tt, back n))

  released_job :
      release_gpus j.id ids c' ≡ (ok tt, c)
      → j.allocated_gpu_ids ≡ []
      → release c' (record j { allocated_gpu_ids = ids }) ≡ (ok tt, c, j)
  unfolding release
  released_job done empty =
      ap (finish_release (record j { allocated_gpu_ids = ids })) done
      ∙ (λ i. (ok tt, c, record j { allocated_gpu_ids = sym empty i }))

  -- Releasing what was just allocated succeeds and gives back the cluster and the job as they
  -- were, for a cluster with distinct ids and idle free GPUs and a job that held no GPU.
  pub release-allocate : IsConsistent c → j.allocated_gpu_ids ≡ [] → release c' j' ≡ (ok tt, c, j)
  release-allocate consistent empty =
      subst (λ x. release c' x ≡ (ok tt, c, j)) (sym (allocate-parts c j ids made).2)
        (released_job (released consistent) empty)
