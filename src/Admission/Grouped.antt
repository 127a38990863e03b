-- ===== src/Admission/Grouped.antt =====
-- What `AdmissionController._feasible_gpu_sets` (gpu_scheduler_lab/admission/controller.py) draws
-- its sets from.
use gpu_scheduler_lab.Models.Accelerator.{vendor_value}
use gpu_scheduler_lab.Models.Cluster.{Cluster, Gpu}
use gpu_scheduler_lab.Models.Job.{Job}
use gpu_scheduler_lab.Admission.{locality, grouped_sets, group_key, feasible_gpu_sets}
use gpu_scheduler_lab.Prelude.{
  count_of-map, count_of-group_by, ◌+◌, count_of-map, sym, if◌then◌else◌, count_of-group_by,
  count_of, Bool, refl, list_eq, All-filter_keep, leb, All-zip, ap, All-group_by, group_by, ℕ, map,
  length, All-filter, ◌≤◌, traverse, Dict, All, subst, ok-injective, ◌>>=◌, text_eq_instance,
  >>=-eq-ok, ◌∷◌, arith, ◌≡◌, String, List, ok, [],
}

module _ (P : Gpu → Type 0) (c : Cluster) (j : Job) where
  All-keyed :
      (gs : List Gpu) {keyed : List (List String × Gpu)}
      → traverse (group_key c j) gs ≡ ok keyed
      → All P gs
      → All (λ item. P item.1) keyed
  All-keyed [] e h = subst (All (λ item. P item.1)) (ok-injective e) tt
  All-keyed (g ∷ gs) {keyed} e h =
      let (item, made, more) =
        >>=-eq-ok (group_key c j g) (λ y. traverse (group_key c j) gs >>= λ ys. ok (y ∷ ys)) e in
      let (rest, traversed, last) =
        >>=-eq-ok (traverse (group_key c j) gs) (λ ys. ok (item ∷ ys)) more in
      let (place, located, packed) =
        >>=-eq-ok (locality c j.topology_mode g)
          (λ place. ok (place ∷ vendor_value g.vendor ∷ [], g)) made in
      let same : g ≡ item.1 = ap (λ x. x.1) (ok-injective packed) in
      subst (All (λ item. P item.1)) (ok-injective last)
        (subst P same h.0, All-keyed gs traversed h.1)

  All-map_group :
      (groups : Dict (List String) (List (List String × Gpu)))
      → All (λ group. All (λ item. P item.1) group.1) groups
      → All (All P) (map (λ group. map (λ item. item.1) group.1) groups)
  All-map_group [] h = tt
  All-map_group ((k, items) ∷ groups) h = (All-items items h.0, All-map_group groups h.1)
    where
      All-items :
          (items : List (List String × Gpu))
          → All (λ item. P item.1) items
          → All P (map (λ item. item.1) items)
      All-items [] k = tt
      All-items (item ∷ rest) k = (k.0, All-items rest k.1)

  -- Every feasible set has enough GPUs, all from those that it was given.
  pub feasible_gpu_sets-All :
      (compatible : List Gpu) (least : ℕ) {groups : List (List Gpu)}
      → feasible_gpu_sets c j compatible least ≡ ok groups
      → All P compatible
      → All (λ group. (least ≤ length group) × All P group) groups
  unfolding feasible_gpu_sets
  feasible_gpu_sets-All compatible least {groups} e h =
      let (keyed, traversed, last) =
        >>=-eq-ok (traverse (group_key c j) compatible) (λ keyed. ok (grouped_sets least keyed))
          e in
      let sets : List (List Gpu) =
        map
          (λ (group : List String × List (List String × Gpu)).
            map (λ (item : List String × Gpu). item.1) group.1)
          (group_by (λ (item : List String × Gpu). item.0) keyed) in
      let all_sets : All (All P) sets =
        All-map_group (group_by (λ (item : List String × Gpu). item.0) keyed) (
          All-group_by (λ (item : List String × Gpu). P item.1)
            (λ (item : List String × Gpu). item.0) keyed (All-keyed compatible traversed h)) in
      subst (All (λ group. (least ≤ length group) × All P group)) (ok-injective last) (
        All-zip _ (λ x big drawn. (big, drawn))
          (All-filter (λ group. least ≤ length group) (λ group. leb least (length group)) sets
            (λ x big. ground arith))
          (All-filter_keep (All P) (λ group. leb least (length group)) sets all_sets))

-- Grouping draws each set from the compatible GPUs, one test of GPUs at a time.
module _ (p : Gpu → Bool) (c : Cluster) (j : Job) where
  count_of-keyed :
      (gs : List Gpu) {keyed : List (List String × Gpu)}
      → traverse (group_key c j) gs ≡ ok keyed
      → count_of (λ item. p item.1) keyed ≡ count_of p gs
  count_of-keyed [] e =
      subst (λ (keyed : List (List String × Gpu)). count_of (λ item. p item.1) keyed ≡ 0)
        (ok-injective e) refl
  count_of-keyed (g ∷ gs) {keyed} e =
      let (item, made, more) =
        >>=-eq-ok (group_key c j g) (λ y. traverse (group_key c j) gs >>= λ ys. ok (y ∷ ys)) e in
      let (rest, traversed, last) =
        >>=-eq-ok (traverse (group_key c j) gs) (λ ys. ok (item ∷ ys)) more in
      let (place, located, packed) =
        >>=-eq-ok (locality c j.topology_mode g)
          (λ place. ok (place ∷ vendor_value g.vendor ∷ [], g)) made in
      let same : g ≡ item.1 = ap (λ x. x.1) (ok-injective packed) in
      let tail : count_of (λ (x : List String × Gpu). p x.1) rest ≡ count_of p gs =
        count_of-keyed gs traversed in
      subst
        (λ (keyed : List (List String × Gpu)).
          count_of (λ item. p item.1) keyed ≡ (if p g then 1 else 0) + count_of p gs)
        (ok-injective last)
        (subst
          (λ h.
            (if p h then 1 else 0) + count_of (λ (x : List String × Gpu). p x.1) rest
            ≡ (if p g then 1 else 0) + count_of p gs)
          same (ap (λ (n : ℕ). (if p g then 1 else 0) + n) tail))

  All-members :
      (groups : Dict (List String) (List (List String × Gpu))) (n : ℕ)
      → All (λ group. count_of (λ item. p item.1) group.1 ≤ n) groups
      → All (λ gs. count_of p gs ≤ n) (map (λ group. map (λ item. item.1) group.1) groups)
  All-members [] n h = tt
  All-members ((k, items) ∷ groups) n h = (
    subst (λ m. m ≤ n) (sym (count_of-map p (λ (x : List String × Gpu). x.1) items)) h.0,
    All-members groups n h.1,
  )

  pub count_of-feasible_gpu_sets :
      (compatible : List Gpu) (least : ℕ) {groups : List (List Gpu)}
      → feasible_gpu_sets c j compatible least ≡ ok groups
      → All (λ gs. count_of p gs ≤ count_of p compatible) groups
  unfolding feasible_gpu_sets
  count_of-feasible_gpu_sets compatible least {groups} e =
      let (keyed, traversed, last) =
        >>=-eq-ok (traverse (group_key c j) compatible) (λ keyed. ok (grouped_sets least keyed))
          e in
      let grouped = group_by (λ (item : List String × Gpu). item.0) keyed in
      let few =
        count_of-group_by (λ (item : List String × Gpu). p item.1)
          (λ (item : List String × Gpu). item.0) keyed in
      subst (All (λ gs. count_of p gs ≤ count_of p compatible)) (ok-injective last) (
        All-filter_keep (λ gs. count_of p gs ≤ count_of p compatible)
          (λ group. leb least (length group)) _
          (All-members grouped (count_of p compatible) (
            subst (λ n. All (λ group. count_of (λ item. p item.1) group.1 ≤ n) grouped)
              (count_of-keyed compatible traversed) few)))
