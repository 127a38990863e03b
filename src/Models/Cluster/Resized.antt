-- ===== src/Models/Cluster/Resized.antt =====
-- What a successful `Cluster.resize` (gpu_scheduler_lab/models/cluster.py) leaves behind.
use gpu_scheduler_lab.Models.Cluster.Writes.{find_gpu-write, assign-eq, gpus-map_gpus}
use gpu_scheduler_lab.Models.Cluster.Freed.{release_gpus-writes}
use gpu_scheduler_lab.Models.Topology.{topology_requirement_satisfied}
use gpu_scheduler_lab.Models.Cluster.Ownership.{available→WasOffered, gpu_by_id-found, WasOffered}
use gpu_scheduler_lab.Models.Job.{Job}
use gpu_scheduler_lab.Models.Cluster.Allocation.{
  topologies_of, is_available, release_gpus, resize_checked, give_up, take_ownership, write_where,
  assign, sorted_difference, map_gpus, finish_resize, check_resize, resize, check_growth,
}
use gpu_scheduler_lab.Models.Cluster.{gpus, gpu_by_id, find_gpu, Cluster}
use gpu_scheduler_lab.Prelude.{
  subst, elem-dedup, ◌==◌, text_eq_instance, elem-filter, dedup, Bool-cases, map, filter, ◌∙◌,
  if◌then◌else◌, compare_text, elem-sort, arith, traverse, sym, not, ap, ◌∷◌, ◌&&◌, Result-cases,
  Error, ◌≡◌, elem, Result, List, String, inr, inl, raise, ok, false, true, [], refl,
}
use mathlib.Core.Option

pub elem-sorted_difference :
    (k : String) (a b : List String) → elem k (sorted_difference a b) ≡ (elem k a && not (elem k b))
elem-sorted_difference k a b =
    elem-sort compare_text k (filter (λ x. not (elem x b)) (dedup a))
    ∙ elem-filter (λ x. not (elem x b)) k (dedup a)
    ∙ ap (λ m. m && not (elem k b)) (elem-dedup k a)

pub check_growth-WasOffered :
    (c : Cluster) (j : Job) (k : String) (ids : List String) {u : Unit {0}}
    → check_growth c j ids ≡ ok u
    → elem k ids ≡ true
    → WasOffered c j k
unfolding check_growth
check_growth-WasOffered c j k [] h m = cc
check_growth-WasOffered c j k (i ∷ ids) {u} h m = elim (Result-cases (gpu_by_id c i)) [
  | inr (e, failed) ↦ absurd (ground arith)
  | inl (g, found) ↦
      let named : g.id ≡ i = (gpu_by_id-found c i found).1 in
      let rest : check_growth c j ids ≡ ok u = ground arith in
      let offered : is_available c j g ≡ true = ground arith in
      elim (Bool-cases (k == i)) [
        | inl here ↦
            let same : k ≡ i = (text_eq_instance.beq_iff k i).0 here in
            subst (WasOffered c j) (sym same) (available→WasOffered c j i g found offered)
        | inr later ↦ check_growth-WasOffered c j k ids {u = u} rest (ground arith)
      ]
]

finish_resize-eq-ok :
    (j : Job) (target : List String) (out : Result (Unit {0}) × Cluster) {u : Unit {0}}
    {c' : Cluster} {j' : Job}
    → finish_resize j target out ≡ (ok u, c', j')
    → (out.0 ≡ ok u)
      × (c' ≡ assign j (sorted_difference target j.allocated_gpu_ids) out.1)
      × (j' ≡ record j { allocated_gpu_ids = target })
finish_resize-eq-ok j target (ok done, d) h =
    (refl, sym (ap (λ out. out.1) h), sym (ap (λ out. out.2) h))
finish_resize-eq-ok j target (raise e, d) h = cc

module _ (c : Cluster) (j : Job) (target : List String) {u : Unit {0}} {c' : Cluster} {j' : Job}
    (resized : resize c j target ≡ (ok u, c', j')) where
  pub resize-checked : (v : Unit {0}) × (check_resize c j target ≡ ok v)
  unfolding resize
  resize-checked = elim (Result-cases (check_resize c j target)) [
    | inl checked ↦ checked
    | inr (e, failed) ↦
        absurd
          (raised (ap (λ r. (resize_checked c j target r).0) (sym failed) ∙ ap (λ o. o.0) resized))
  ]
    where
      raised : {e : Error} {v : Unit {0}} → raise e ≡ ok v → ⊥
      raised h = cc

  -- The two writes of a resize, the GPUs given up first.
  pub resize-writes :
      (c'
        ≡ map_gpus
            (write_where
              (λ g. elem g.id (sorted_difference target j.allocated_gpu_ids))
              (take_ownership j))
            (map_gpus
              (write_where (λ g. elem g.id (sorted_difference j.allocated_gpu_ids target)) give_up)
              c))
      × (j' ≡ record j { allocated_gpu_ids = target })
  unfolding resize
  resize-writes =
      let (v, checked) = resize-checked in
      let dropped : List String = sorted_difference j.allocated_gpu_ids target in
      let (done, assigned, job) =
        finish_resize-eq-ok j target (release_gpus j.id dropped c)
          (ap (resize_checked c j target) (sym checked) ∙ resized) in
      let freed =
        release_gpus-writes j.id dropped c {u = u} {c' = (release_gpus j.id dropped c).1}
          (λ i. (done i, (release_gpus j.id dropped c).1)) in
      (
        assigned
            ∙ ap (assign j (sorted_difference target j.allocated_gpu_ids)) freed
            ∙ assign-eq j (sorted_difference target j.allocated_gpu_ids) _,
        job,
      )

  pub resize-released :
      release_gpus j.id (sorted_difference j.allocated_gpu_ids target) c
      ≡ (ok u, (release_gpus j.id (sorted_difference j.allocated_gpu_ids target) c).1)
  unfolding resize
  resize-released =
      let (v, checked) = resize-checked in
      let dropped : List String = sorted_difference j.allocated_gpu_ids target in
      let (done, assigned, job) =
        finish_resize-eq-ok j target (release_gpus j.id dropped c)
          (ap (resize_checked c j target) (sym checked) ∙ resized) in
      λ i. (done i, (release_gpus j.id dropped c).1)

  growth-checked :
      (v : Unit {0}) × (check_growth c j (sorted_difference target j.allocated_gpu_ids) ≡ ok v)
  unfolding check_resize
  growth-checked =
      let (v, checked) = resize-checked in
      elim (Result-cases (traverse (gpu_by_id c) target)) [
        | inr (e, failed) ↦ absurd (ground arith)
        | inl (selected, found) ↦
            elim (Result-cases (
              topology_requirement_satisfied j.topology_mode (map (λ g. g.node_id) selected)
                (topologies_of c.nodes))) [
                  | inr (e, failed) ↦ absurd (ground arith)
                  | inl (satisfied, tested) ↦ (v, ground arith)
                ]
      ]

  -- A resize that succeeds makes the job own each GPU of the target that it lacked, each of which
  -- was free, compatible with the job and on a schedulable node; it frees each GPU that the job
  -- held outside the target, and leaves every other GPU as it was.
  pub resize-owners :
      (j' ≡ record j { allocated_gpu_ids = target })
      × ((k : String)
          → elem k target ≡ true
          → elem k j.allocated_gpu_ids ≡ false
          → WasOffered c j k
            × (find_gpu k (gpus c') ≡ Option.map (take_ownership j) (find_gpu k (gpus c))))
      × ((k : String)
          → elem k target ≡ false
          → elem k j.allocated_gpu_ids ≡ true
          → find_gpu k (gpus c') ≡ Option.map give_up (find_gpu k (gpus c)))
      × ((k : String)
          → elem k target ≡ elem k j.allocated_gpu_ids
          → find_gpu k (gpus c') ≡ find_gpu k (gpus c))
  resize-owners = (
    resize-writes.1,
    λ k m n. (
      check_growth-WasOffered c j k added growth-checked.1
          (elem-sorted_difference k target held ∙ ground arith),
      at k
          ∙ ground
              (arith, elem-sorted_difference k target held, elem-sorted_difference k held target),
    ),
    λ k m n.
        at k
        ∙ ground
            (arith, elem-sorted_difference k target held, elem-sorted_difference k held target),
    λ k m.
        at k
        ∙ ground
            (arith, elem-sorted_difference k target held, elem-sorted_difference k held target),
  )
    where
      held : List String
      held = j.allocated_gpu_ids

      added : List String
      added = sorted_difference target held

      dropped : List String
      dropped = sorted_difference held target

      at :
          (k : String)
          → find_gpu k (gpus c') ≡ (
              if elem k added
              then Option.map (take_ownership j) (
                  if elem k dropped
                  then Option.map give_up (find_gpu k (gpus c))
                  else find_gpu k (gpus c))
              else if elem k dropped
              then Option.map give_up (find_gpu k (gpus c))
              else find_gpu k (gpus c))
      at k =
          let d = map_gpus (write_where (λ g. elem g.id dropped) give_up) c in
          ap (λ x. find_gpu k (gpus x)) resize-writes.0
          ∙ ap (find_gpu k) (gpus-map_gpus _ d)
          ∙ find_gpu-write (λ i. elem i added) k (take_ownership j) (gpus d) (λ g. refl)
          ∙ ap (λ o. if elem k added then Option.map (take_ownership j) o else o)
              (ap (find_gpu k) (gpus-map_gpus _ c)
                ∙ find_gpu-write (λ i. elem i dropped) k give_up (gpus c) (λ g. refl))
