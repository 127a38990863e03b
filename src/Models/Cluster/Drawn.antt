-- ===== src/Models/Cluster/Drawn.antt =====
-- What `Cluster.eligible_gpus` and `Cluster.clone` (gpu_scheduler_lab/models/cluster.py) draw from
-- a cluster's schedulable GPUs, each counted as often as it stands there.
use gpu_scheduler_lab.Models.Accelerator.{vendor_eq, Vendor}
use gpu_scheduler_lab.Models.Job.{requested_gpu_count, Job}
use gpu_scheduler_lab.Models.Cluster.Allocation.{with_gpus, clone_gpus, clone_cluster}
use gpu_scheduler_lab.Models.Cluster.{
  first_feasible, vendors_of, gpu_by_id, is_schedulable, can_host, first_group, schedulable_gpus,
  of_vendor, Node, eligible_gpus, Gpu, Cluster,
}
use gpu_scheduler_lab.Prelude.{
  count_of-group_by, All-sort, length, All-filter_keep, leb, traverse, >>=-eq-ok, is_empty,
  count_of-append, Bool-cases, ◌==◌, map, group_by, ◌∷◌, ok-injective, subst, filter,
  count_of-filter, arith, ◌≤◌, flat_map, All, ◌≡◌, ℕ, count_of, Within, List, Dict, Option, Bool,
  inr, inl, ok, true, [],
}
use native.Mathlib.Nat
use gpu_scheduler_lab.Models.Cluster.Eligible.{is_empty-clone_gpus}

module _ (p : Gpu → Bool) where
  count_of-first_group :
      (items : Dict Vendor (List Gpu)) (n : ℕ)
      → All (λ item. count_of p item.1 ≤ n) items
      → count_of p (first_group items) ≤ n
  count_of-first_group [] n h = omega arith
  count_of-first_group (item ∷ rest) n h = h.0

  count_of-of_vendor :
      (vendors : List Vendor) (candidates : List Gpu) {gs : List Gpu}
      → of_vendor vendors candidates ≡ ok gs
      → count_of p gs ≤ count_of p candidates
  count_of-of_vendor [] candidates e =
      subst (λ gs. count_of p gs ≤ count_of p candidates) (ok-injective e) (omega arith)
  count_of-of_vendor (vendor ∷ []) candidates e =
      subst (λ gs. count_of p gs ≤ count_of p candidates) (ok-injective e)
        (count_of-filter p (λ g. g.vendor == vendor) candidates)
  count_of-of_vendor (vendor ∷ other ∷ rest) candidates e =
      subst (λ gs. count_of p gs ≤ count_of p candidates) (ok-injective e) (omega arith)

  count_of-candidates :
      (c : Cluster) (j : Job) {gs : List Gpu}
      → eligible_gpus c j ≡ ok gs
      → count_of p gs ≤ count_of p (filter (λ g. can_host g j) (schedulable_gpus c))
  unfolding eligible_gpus
  count_of-candidates c j {gs} e =
      let candidates : List Gpu = filter (λ g. can_host g j) (schedulable_gpus c) in
      let by_vendor = group_by (λ (g : Gpu). g.vendor) candidates in
      elim (Bool-cases (is_empty j.allocated_gpu_ids)) [
        | inr growing ↦
            let (allocated, at, more) =
              >>=-eq-ok (traverse (gpu_by_id c) j.allocated_gpu_ids)
                (λ allocated. of_vendor (vendors_of allocated) candidates) (ground arith) in
            count_of-of_vendor (vendors_of allocated) candidates more
        | inl starting ↦ elim (Bool-cases (leb (requested_gpu_count j) 1)) [
          | inl one ↦
              let same : candidates ≡ gs = ground arith in
              subst (λ gs. count_of p gs ≤ count_of p candidates) same (omega arith)
          | inr several ↦
              let same : first_feasible (requested_gpu_count j) by_vendor ≡ gs = ground arith in
              subst (λ gs. count_of p gs ≤ count_of p candidates) same
                (count_of-first_group _ (count_of p candidates) (
                  All-filter_keep (λ item. count_of p item.1 ≤ count_of p candidates)
                    (λ item. leb (requested_gpu_count j) (length item.1)) _
                    (All-sort _ (λ item. count_of p item.1 ≤ count_of p candidates) by_vendor
                      (count_of-group_by p (λ (g : Gpu). g.vendor) candidates))))
        ]
      ]

  count_of-clone_gpus :
      (vendor : Option Vendor) (gs : List Gpu)
      → count_of p (clone_gpus true vendor gs) ≤ count_of p gs
  count_of-clone_gpus vendor [] = omega arith
  count_of-clone_gpus vendor (g ∷ gs) = ground (arith, count_of-clone_gpus vendor gs)

  count_of-clone_nodes :
      (vendor : Option Vendor) (ns : List Node)
      → count_of p (
          flat_map
            (λ (n : Node). n.gpus)
            (filter is_schedulable (map (with_gpus (clone_gpus true vendor)) ns)))
        ≤ count_of p (flat_map (λ (n : Node). n.gpus) (filter is_schedulable ns))
  count_of-clone_nodes vendor [] = omega arith
  count_of-clone_nodes vendor (n ∷ ns) = ground (
    arith,
    is_empty-clone_gpus vendor n.gpus,
    count_of-clone_gpus vendor n.gpus,
    count_of-clone_nodes vendor ns,
    count_of-append p n.gpus (flat_map (λ (m : Node). m.gpus) (filter is_schedulable ns)),
    count_of-append p (clone_gpus true vendor n.gpus) (
        flat_map (λ (m : Node). m.gpus)
          (filter is_schedulable (map (with_gpus (clone_gpus true vendor)) ns))),
  )

-- A job is offered GPUs of the cluster.
pub eligible_gpus-Within :
    (c : Cluster) (j : Job) {gs : List Gpu}
    → eligible_gpus c j ≡ ok gs
    → Within gs (schedulable_gpus c)
eligible_gpus-Within c j e p =
    Nat.le_trans (count_of-candidates p c j e)
      (count_of-filter p (λ g. can_host g j) (schedulable_gpus c))

-- A clone for one vendor has GPUs of the cluster.
pub clone_cluster-Within :
    (vendor : Option Vendor) (c : Cluster)
    → Within (schedulable_gpus (clone_cluster true vendor c)) (schedulable_gpus c)
unfolding clone_cluster
clone_cluster-Within vendor c p = count_of-clone_nodes p vendor c.nodes
