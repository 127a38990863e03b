-- ===== src/Models/Cluster/Ownership.antt =====
-- What a successful `Cluster.allocate` (gpu_scheduler_lab/models/cluster.py) guarantees: the GPUs
-- were free, offered and compatible, of one vendor and as local as the job requires; they are the
-- job's now, and no other GPU changed.
use gpu_scheduler_lab.Models.Accelerator.{vendor_eq}
use gpu_scheduler_lab.Models.Cluster.Writes.{find_gpu-write, gpus-map_gpus, assign-eq}
use mathlib.Core.Option
use gpu_scheduler_lab.Models.Topology.{topology_requirement_satisfied}
use gpu_scheduler_lab.Models.Job.{requested_gpu_count, Job}
use gpu_scheduler_lab.Models.Cluster.{
  is_compatible, gpus, schedulable_gpus, find_gpu, Gpu, Cluster, gpu_by_id, vendors_of,
}
use gpu_scheduler_lab.Models.Cluster.Allocation.{
  take_ownership, assign, allocate, check_placement, is_available, topologies_of,
}
use gpu_scheduler_lab.Prelude.{
  eq_of_single_set, All-self_elem, ◌∙◌, ap, Option, if◌then◌else◌, traverse_at, ◌∷◌, elem, subst,
  some, none, [], refl, any, Result-cases, inr, inl, text_eq_instance, map, All, ◌≤◌, All-map_pred,
  distinct, length, traverse, arith, ◌≡◌, String, not, List, Bool, ok, false, true, any-false→All,
}

-- What the checks of a placement establish.
pub record PlacementFacts (c : Cluster) (j : Job) (ids : List String) : Type 0 where
  pub selected : List Gpu
  pub looked_up : traverse (gpu_by_id c) ids ≡ ok selected
  pub exact : length ids ≡ requested_gpu_count j
  pub unique : distinct ids ≡ true
  pub vendors : length (vendors_of selected) ≤ 1
  pub available : All (λ g. is_available c j g ≡ true) selected
  pub local :
      topology_requirement_satisfied j.topology_mode
        (map (λ g. g.node_id) selected)
        (topologies_of c.nodes)
      ≡ ok true

not-false→true : (b : Bool) → not b ≡ false → b ≡ true
not-false→true b h = ground arith

pub check_placement-facts :
    (c : Cluster) (j : Job) (ids : List String) {u : Unit {0}}
    → check_placement c j ids ≡ ok u
    → PlacementFacts c j ids
unfolding check_placement
check_placement-facts c j ids h = elim (Result-cases (traverse (gpu_by_id c) ids)) [
  | inr (e, failed) ↦ absurd (ground arith)
  | inl (selected, looked_up) ↦
      let offered : any (λ g. not (is_available c j g)) selected ≡ false = ground arith in
      record {
        selected = selected;
        looked_up = looked_up;
        exact = ground arith;
        unique = ground arith;
        vendors = ground arith;
        available =
            All-map_pred _ selected (λ g e. not-false→true (is_available c j g) e)
              (any-false→All _ selected offered);
        local = ground arith;
      }
]

find_gpu-id : (k : String) (gs : List Gpu) {g : Gpu} → find_gpu k gs ≡ some g → g.id ≡ k
find_gpu-id k [] {g} h = cc
find_gpu-id k (x ∷ gs) {g} h =
    ground (arith, find_gpu-id k gs {g = g}, text_eq_instance.beq_iff x.id k)

pub gpu_by_id-found :
    (c : Cluster) (k : String) {g : Gpu}
    → gpu_by_id c k ≡ ok g
    → (find_gpu k (gpus c) ≡ some g) × (g.id ≡ k)
unfolding gpu_by_id
gpu_by_id-found c k {g} h =
    let found : find_gpu k (gpus c) ≡ some g = ground arith in (found, find_gpu-id k (gpus c) found)

pub found_once : {o : Option Gpu} {x y : Gpu} → o ≡ some x → o ≡ some y → x ≡ y
found_once h k = cc

-- How a GPU of a placement stood before it was allocated.
pub record WasOffered (c : Cluster) (j : Job) (k : String) : Type 0 where
  pub gpu : Gpu
  pub found : find_gpu k (gpus c) ≡ some gpu
  pub unowned : gpu.owner_job_id ≡ none
  pub compatible : is_compatible gpu j ≡ true
  pub offered : elem k (map (λ g. g.id) (schedulable_gpus c)) ≡ true

pub available→WasOffered :
    (c : Cluster) (j : Job) (k : String) (g : Gpu)
    → gpu_by_id c k ≡ ok g
    → is_available c j g ≡ true
    → WasOffered c j k
available→WasOffered c j k g h a =
    let (found, named) = gpu_by_id-found c k h in
    record {
      gpu = g;
      found = found;
      unowned = ground arith;
      compatible = ground arith;
      offered =
          subst (λ i. elem i (map (λ (g : Gpu). g.id) (schedulable_gpus c)) ≡ true) named
            (ground arith);
    }

module _ (c : Cluster) (j : Job) (ids : List String) where
  pub allocate-parts :
      {c' : Cluster} {j' : Job}
      → allocate c j ids ≡ ok (c', j')
      → PlacementFacts c j ids × (c' ≡ assign j ids c) × (j' ≡ record j { allocated_gpu_ids = ids })
  unfolding allocate
  allocate-parts h = elim (Result-cases (check_placement c j ids)) [
    | inr (e, failed) ↦ absurd (ground arith)
    | inl (u, checked) ↦ (check_placement-facts c j ids checked, ground arith, ground arith)
  ]

  -- Allocation takes only GPUs that no job owned, that stand on schedulable nodes and that are
  -- compatible with the job.
  pub allocate-WasOffered :
      (k : String) {c' : Cluster} {j' : Job}
      → allocate c j ids ≡ ok (c', j')
      → elem k ids ≡ true
      → WasOffered c j k
  allocate-WasOffered k h m =
      let facts = (allocate-parts h).0 in
      let (g, at, available) =
        traverse_at (gpu_by_id c) (λ g. is_available c j g ≡ true) ids k facts.looked_up
          facts.available m in
      available→WasOffered c j k g at available

  -- After a successful allocation the job owns, with its memory, each GPU of the placement, which
  -- has the requested number of distinct ids; every other GPU is as it was.
  pub allocate-owners :
      {c' : Cluster} {j' : Job}
      → allocate c j ids ≡ ok (c', j')
      → (j' ≡ record j { allocated_gpu_ids = ids })
        × (length ids ≡ requested_gpu_count j)
        × (distinct ids ≡ true)
        × ((k : String)
            → find_gpu k (gpus c') ≡ (
                if elem k ids
                then Option.map (take_ownership j) (find_gpu k (gpus c))
                else find_gpu k (gpus c)))
  allocate-owners {c' = c'} h =
      let (facts, written, job) = allocate-parts h in
      (
        job,
        facts.exact,
        facts.unique,
        λ k.
            ap (λ d. find_gpu k (gpus d)) (written ∙ assign-eq j ids c)
            ∙ ap (find_gpu k) (gpus-map_gpus _ c)
            ∙ find_gpu-write (λ i. elem i ids) k (take_ownership j) (gpus c) (λ g. refl),
      )

  selected_vendor :
      (facts : PlacementFacts c j ids) (k : String) (g : Gpu)
      → elem k ids ≡ true
      → find_gpu k (gpus c) ≡ some g
      → elem g.vendor (map (λ (x : Gpu). x.vendor) facts.selected) ≡ true
  selected_vendor facts k g m at_k =
      let (b, read, there) =
        traverse_at (gpu_by_id c)
          (λ x. elem x.vendor (map (λ (x : Gpu). x.vendor) facts.selected) ≡ true) ids k
          facts.looked_up (All-self_elem (λ x. x.vendor) facts.selected) m in
      let same : b ≡ g = found_once (gpu_by_id-found c k read).0 at_k in
      subst (λ x. elem x.vendor (map (λ (x : Gpu). x.vendor) facts.selected) ≡ true) same there

  -- All GPUs of an allocation are of one vendor.
  pub allocate-one_vendor :
      (k l : String) {c' : Cluster} {j' : Job} {g h : Gpu}
      → allocate c j ids ≡ ok (c', j')
      → elem k ids ≡ true
      → elem l ids ≡ true
      → find_gpu k (gpus c) ≡ some g
      → find_gpu l (gpus c) ≡ some h
      → g.vendor ≡ h.vendor
  allocate-one_vendor k l {g = g} {h = h} made mk ml at_k at_l =
      let facts = (allocate-parts made).0 in
      eq_of_single_set (map (λ (x : Gpu). x.vendor) facts.selected) g.vendor h.vendor facts.vendors
        (selected_vendor facts k g mk at_k) (selected_vendor facts l h ml at_l)
