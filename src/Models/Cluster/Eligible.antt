-- ===== src/Models/Cluster/Eligible.antt =====
-- What `Cluster.eligible_gpus` (gpu_scheduler_lab/models/cluster.py) offers a job.
use gpu_scheduler_lab.Models.Cluster.Allocation.{clone_cluster, with_gpus, keeps_vendor, clone_gpus}
use gpu_scheduler_lab.Models.Accelerator.{compare_vendor, vendor_eq, Vendor}
use gpu_scheduler_lab.Models.Job.{requested_gpu_count, Job}
use gpu_scheduler_lab.Models.Cluster.{
  vendors_of, gpu_by_id, is_schedulable, first_group, schedulable_gpus, first_feasible, can_host,
  of_vendor, Node, eligible_gpus, Gpu, Cluster,
}
use gpu_scheduler_lab.Prelude.{
  if◌then◌else◌, All-append, Bool, All-group_by, group_by, All-sort, sort, ◌==◌, traverse, length,
  arith, leb, All-filter_keep, >>=-eq-ok, ◌∷◌, text_eq_instance, ok-injective, Bool-cases,
  All-self_elem, ◌++◌, subst, flat_map, filter, ◌≡◌, map, is_empty, All, elem, List, Dict, Option,
  inr, inl, ok, true, [], refl, ℕ,
}

-- A GPU that stands on a schedulable node, that no job owns and that is compatible with the job.
abbrev pub Offered : Cluster → Job → Gpu → Type 0
Offered c j g = (elem g.id (map (λ h. h.id) (schedulable_gpus c)) ≡ true) × (can_host g j ≡ true)

module _ {ℓ} (P : Gpu → Type ℓ) where
  All-first_feasible :
      (required : ℕ) (by_vendor : Dict Vendor (List Gpu))
      → All (λ item. All P item.1) by_vendor
      → All P (first_feasible required by_vendor)
  All-first_feasible required by_vendor h =
      All-head
        (filter (λ item. leb required (length item.1))
          (sort (λ a b. compare_vendor a.0 b.0) by_vendor))
        (All-filter_keep _ (λ item. leb required (length item.1)) _
          (All-sort _ (λ item. All P item.1) by_vendor h))
    where
      All-head :
          (items : Dict Vendor (List Gpu))
          → All (λ item. All P item.1) items
          → All P (first_group items)
      All-head [] k = tt
      All-head (item ∷ rest) k = k.0

  All-single_vendor :
      (vendors : List Vendor) (candidates : List Gpu) {gs : List Gpu}
      → of_vendor vendors candidates ≡ ok gs
      → All P candidates
      → All P gs
  All-single_vendor [] candidates e h = subst (All P) (ok-injective e) tt
  All-single_vendor (vendor ∷ []) candidates e h =
      subst (All P) (ok-injective e) (All-filter_keep P (λ g. g.vendor == vendor) candidates h)
  All-single_vendor (vendor ∷ other ∷ rest) candidates e h = subst (All P) (ok-injective e) tt

  -- What holds of every GPU that can host the job holds of the eligible ones.
  pub eligible_gpus-All :
      (c : Cluster) (j : Job) {gs : List Gpu}
      → eligible_gpus c j ≡ ok gs
      → All P (filter (λ g. can_host g j) (schedulable_gpus c))
      → All P gs
  unfolding eligible_gpus
  eligible_gpus-All c j {gs} e h =
      let candidates : List Gpu = filter (λ g. can_host g j) (schedulable_gpus c) in
      elim (Bool-cases (is_empty j.allocated_gpu_ids)) [
        | inr growing ↦
            let (allocated, at, more) =
              >>=-eq-ok (traverse (gpu_by_id c) j.allocated_gpu_ids)
                (λ allocated. of_vendor (vendors_of allocated) candidates) (ground arith) in
            All-single_vendor (vendors_of allocated) candidates more h
        | inl starting ↦ elim (Bool-cases (leb (requested_gpu_count j) 1)) [
          | inl one ↦ let same : candidates ≡ gs = ground arith in subst (All P) same h
          | inr several ↦
              let same : first_feasible (requested_gpu_count j)
                    (group_by (λ g. g.vendor) candidates)
                  ≡ gs =
                ground arith in
              subst (All P) same (
                All-first_feasible (requested_gpu_count j) (group_by (λ g. g.vendor) candidates)
                  (All-group_by P (λ g. g.vendor) candidates h))
        ]
      ]

All-offered :
    (j : Job) (gs : List Gpu) (P : Gpu → Type 0)
    → All P gs
    → All (λ g. P g × (can_host g j ≡ true)) (filter (λ g. can_host g j) gs)
All-offered j [] P h = tt
All-offered j (g ∷ gs) P h = elim (Bool-cases (can_host g j)) [
  | inl e ↦ rw e ((h.0, e), All-offered j gs P h.1)
  | inr e ↦ rw e (All-offered j gs P h.1)
]

-- Every eligible GPU stands on a schedulable node, is free and is compatible with the job, for new
-- jobs and for growing ones.
pub eligible_gpus-Offered :
    (c : Cluster) (j : Job) {gs : List Gpu} → eligible_gpus c j ≡ ok gs → All (Offered c j) gs
eligible_gpus-Offered c j e =
    eligible_gpus-All (Offered c j) c j e (
      All-offered j (schedulable_gpus c) _ (All-self_elem (λ (g : Gpu). g.id) (schedulable_gpus c)))

-- A clone for one vendor offers only GPUs of the cluster.
All-clone_gpus :
    (P : Gpu → Type 0) (vendor : Option Vendor) (gs : List Gpu)
    → All P gs
    → All P (clone_gpus true vendor gs)
All-clone_gpus P vendor [] h = tt
All-clone_gpus P vendor (g ∷ gs) h = elim (Bool-cases (keeps_vendor vendor g)) [
  | inl e ↦ rw e (h.0, All-clone_gpus P vendor gs h.1)
  | inr e ↦ rw e (All-clone_gpus P vendor gs h.1)
]

pub is_empty-clone_gpus :
    (vendor : Option Vendor) (gs : List Gpu)
    → is_empty gs ≡ true
    → is_empty (clone_gpus true vendor gs) ≡ true
is_empty-clone_gpus vendor [] h = refl
is_empty-clone_gpus vendor (g ∷ gs) h = cc

module _ (P : Gpu → Type 0) where
  All-of_append : (xs ys : List Gpu) → All P (xs ++ ys) → All P xs × All P ys
  All-of_append [] ys h = (tt, h)
  All-of_append (x ∷ xs) ys h = let rest = All-of_append xs ys h.1 in ((h.0, rest.0), rest.1)

  -- The GPUs of the nodes that pass a test, node by node.
  to_nodes :
      (s : Node → Bool) (ns : List Node)
      → All P (flat_map (λ (n : Node). n.gpus) (filter s ns))
      → All (λ n. s n ≡ true → All P n.gpus) ns
  to_nodes s [] h = tt
  to_nodes s (n ∷ ns) h = elim (Bool-cases (s n)) [
    | inl e ↦
        let listed : All P (n.gpus ++ flat_map (λ (m : Node). m.gpus) (filter s ns)) =
          subst
            (λ b.
              All P (flat_map (λ (m : Node). m.gpus) (if b then n ∷ filter s ns else filter s ns)))
            e h in
        let parts = All-of_append n.gpus (flat_map (λ (m : Node). m.gpus) (filter s ns)) listed in
        (λ same. parts.0, to_nodes s ns parts.1)
    | inr e ↦
        let listed : All P (flat_map (λ (m : Node). m.gpus) (filter s ns)) =
          subst
            (λ b.
              All P (flat_map (λ (m : Node). m.gpus) (if b then n ∷ filter s ns else filter s ns)))
            e h in
        (λ same. absurd (ground arith), to_nodes s ns listed)
  ]

  of_nodes :
      (s : Node → Bool) (ns : List Node)
      → All (λ n. s n ≡ true → All P n.gpus) ns
      → All P (flat_map (λ (n : Node). n.gpus) (filter s ns))
  of_nodes s [] h = tt
  of_nodes s (n ∷ ns) h = elim (Bool-cases (s n)) [
    | inl e ↦ rw e (All-append P n.gpus _ (h.0 e) (of_nodes s ns h.1))
    | inr e ↦ rw e (of_nodes s ns h.1)
  ]

  clone_nodes :
      (vendor : Option Vendor) (ns : List Node)
      → All (λ n. is_schedulable n ≡ true → All P n.gpus) ns
      → All
          (λ n. is_schedulable n ≡ true → All P n.gpus)
          (map (with_gpus (clone_gpus true vendor)) ns)
  clone_nodes vendor [] h = tt
  clone_nodes vendor (n ∷ ns) h = (
    λ e. All-clone_gpus P vendor n.gpus (h.0 (ground (arith, is_empty-clone_gpus vendor n.gpus))),
    clone_nodes vendor ns h.1,
  )

  -- What holds of a cluster's schedulable GPUs holds of those of its clone for one vendor.
  pub clone_cluster-All :
      (vendor : Option Vendor) (c : Cluster)
      → All P (schedulable_gpus c)
      → All P (schedulable_gpus (clone_cluster true vendor c))
  unfolding clone_cluster
  clone_cluster-All vendor c h =
      of_nodes is_schedulable (map (with_gpus (clone_gpus true vendor)) c.nodes)
        (clone_nodes vendor c.nodes (to_nodes is_schedulable c.nodes h))

-- What a clone for one vendor offers, the cluster offers.
pub clone_cluster-Offered :
    (vendor : Option Vendor) (c : Cluster) (j : Job) {gs : List Gpu}
    → eligible_gpus (clone_cluster true vendor c) j ≡ ok gs
    → All (Offered c j) gs
clone_cluster-Offered vendor c j e =
    eligible_gpus-All (Offered c j) (clone_cluster true vendor c) j e (
      All-offered j (schedulable_gpus (clone_cluster true vendor c)) _
        (clone_cluster-All _ vendor c (All-self_elem (λ (g : Gpu). g.id) (schedulable_gpus c))))
