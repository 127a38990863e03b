-- ===== src/Schedulers/Packing.antt =====
-- The schedulers that place by queue order or by load (gpu_scheduler_lab/schedulers/base.py,
-- fifo.py, binpack.py, spread.py, preemptive.py, vendor.py and gang.py).
pub mod Complete
pub mod Atomic
pub mod Packers
use gpu_scheduler_lab.Models.Topology.{is_required}
use gpu_scheduler_lab.Schedulers.Topology.Place.{place, first_placement, Placement}
use gpu_scheduler_lab.Models.Job.{requested_gpu_count, effective_priority, Job}
use gpu_scheduler_lab.Models.Cluster.Allocation.{clone_cluster}
use gpu_scheduler_lab.Models.Cluster.{
  schedulable_gpus, is_compatible, schedulable_nodes, eligible_gpus, occupied_gpu_count, vendors_of,
  Node, Gpu, Cluster,
}
use gpu_scheduler_lab.Models.Accelerator.{vendor_eq, unknown, compare_vendor, Vendor}
use gpu_scheduler_lab.Prelude.{
  Option, ◌&&◌, value_error, take, ◌>>=◌, ◌==◌, text_eq_instance, map, length, compare_text, ◌++◌,
  raise_if, not, nat_eq, ltb, leb, get_elem?, flip_order, elem, compare_ℕ, compare_bool, ◌∷◌, ◌>>◌,
  ◌-◌, sort, if◌then◌else◌, filter, and_then, Bool, sum_of, String, Result, Ordering, List, suc,
  zero, ok, true, some, none, [], ℕ,
}

-- `Scheduler.pending_key`
abbrev pub compare_arrival : Job → Job → Ordering
compare_arrival a b = and_then (compare_ℕ a.arrival_time b.arrival_time) (compare_text a.id b.id)

-- `validate_atomic_placement`
unfoldable pub validate_atomic_placement : Job → Placement → Bool
validate_atomic_placement j none = true
validate_atomic_placement j (some ids) = nat_eq (length ids) (requested_gpu_count j)

abbrev pub fifo_ids : Job → List Gpu → Placement
fifo_ids j eligible =
    if ltb (length eligible) (requested_gpu_count j)
    then none
    else some (map (λ g. g.id) (take (requested_gpu_count j) eligible))

-- `FIFOScheduler.place`
unfoldable pub fifo_place : Cluster → Job → Result Placement
fifo_place cluster j =
    if is_required j.topology_mode
    then place cluster j
    else (do eligible ← eligible_gpus cluster j; ok (fifo_ids j eligible))

abbrev compare_tight : ℕ → Gpu → Gpu → Ordering
compare_tight request a b =
    and_then (compare_ℕ (a.memory_capacity_gb - request) (b.memory_capacity_gb - request))
      (compare_text a.id b.id)

-- `_eligible` of a node
abbrev pub eligible_on : Job → List String → Node → List Gpu
eligible_on j eligible_ids n =
    sort (compare_tight j.gpu_memory_gb) (filter (λ g. elem g.id eligible_ids) n.gpus)

abbrev spare_memory : Job → List Gpu → ℕ
spare_memory j gs = sum_of (λ g. g.memory_capacity_gb - j.gpu_memory_gb) gs

-- Occupied nodes first, the fullest of them; then the smaller free block.
abbrev pub compare_packing : Job → Node × List Gpu → Node × List Gpu → Ordering
compare_packing j a b =
    and_then (compare_bool (nat_eq (occupied_gpu_count a.0) 0) (nat_eq (occupied_gpu_count b.0) 0))
      (and_then (flip_order (compare_ℕ (occupied_gpu_count a.0) (occupied_gpu_count b.0))) (
        and_then (compare_ℕ (length a.1) (length b.1)) (
          and_then (compare_ℕ (spare_memory j a.1) (spare_memory j b.1))
            (compare_text a.0.id b.0.id))))

-- The loop over the candidates, with the ids taken so far.
unfoldable pub fill : ℕ → List String → List (List Gpu) → Placement
fill required placement [] = none
fill required placement (gs ∷ rest) =
    let taken = placement ++ map (λ g. g.id) (take (required - length placement) gs) in
    let later = fill required taken rest in
    if nat_eq (length taken) required then some taken else later

abbrev pub candidates_of : Cluster → Job → List Gpu → List (Node × List Gpu)
candidates_of cluster j offered =
    map (λ n. (n, eligible_on j (map (λ g. g.id) offered) n)) (schedulable_nodes cluster)

abbrev pub binpack_ids : Cluster → Job → List Gpu → Placement
binpack_ids cluster j offered =
    let candidates = candidates_of cluster j offered in
    if ltb (sum_of (λ item. length item.1) candidates) (requested_gpu_count j)
    then none
    else fill (requested_gpu_count j) []
        (map (λ item. item.1) (sort (compare_packing j) candidates))

-- `BinPackScheduler.place`
unfoldable pub binpack_place : Cluster → Job → Result Placement
unfolding fill
binpack_place cluster j =
    if is_required j.topology_mode
    then place cluster j
    else (do offered ← eligible_gpus cluster j; ok (binpack_ids cluster j offered))

-- `PreemptiveScheduler.pending_key`
unfoldable pub compare_preemptive : ℕ → ℕ → Job → Job → Ordering
compare_preemptive now aging_interval a b =
    and_then
      (flip_order (
        compare_ℕ (effective_priority a now aging_interval)
          (effective_priority b now aging_interval)))
      (compare_arrival a b)

abbrev pub compare_load : Node → Node → Ordering
compare_load a b =
    and_then (compare_ℕ (occupied_gpu_count a) (occupied_gpu_count b)) (compare_text a.id b.id)

abbrev pub append_found : Option Gpu → List String → List String
append_found none placement = placement
append_found (some g) placement = placement ++ g.id ∷ []

abbrev pub add_at : ℕ → List Gpu → List String → List String
add_at index gs placement = append_found (get_elem? gs index) placement

-- One pass over the nodes: the ids taken so far, which stop at the number required.
unfoldable pub spread_pass : ℕ → ℕ → List String → List (List Gpu) → List String
spread_pass required index placement [] = placement
spread_pass required index placement (gs ∷ rest) =
    let here = add_at index gs placement in
    let later = spread_pass required index here rest in
    if nat_eq (length here) required then here else later

-- The while loop. A pass without progress ends it, so that the number required is fuel enough.
unfoldable pub spread_rounds : ℕ → ℕ → ℕ → List String → List (List Gpu) → Placement
unfolding spread_pass
spread_rounds zero required index placement available = none
spread_rounds (suc fuel) required index placement available =
    let after = spread_pass required index placement available in
    let later = spread_rounds fuel required (suc index) after available in
    if leb required (length placement)
    then none
    else if nat_eq (length after) required
    then some after
    else if nat_eq (length after) (length placement)
    then none
    else later

abbrev pub available_on : Cluster → Job → List Gpu → List (List Gpu)
available_on cluster j offered =
    map (eligible_on j (map (λ g. g.id) offered)) (sort compare_load (schedulable_nodes cluster))

abbrev pub spread_ids : Cluster → Job → List Gpu → Placement
spread_ids cluster j offered =
    let available = available_on cluster j offered in
    if ltb (sum_of length available) (requested_gpu_count j)
    then none
    else spread_rounds (requested_gpu_count j) (requested_gpu_count j) 0 [] available

-- `SpreadScheduler.place`
unfoldable pub spread_place : Cluster → Job → Result Placement
unfolding spread_rounds
spread_place cluster j =
    if is_required j.topology_mode
    then place cluster j
    else (do offered ← eligible_gpus cluster j; ok (spread_ids cluster j offered))

-- `VendorPreferenceScheduler.__init__`
unfoldable pub new_preference : Vendor → Result Vendor
new_preference preferred_vendor = do
  raise_if (preferred_vendor == unknown) (value_error "preferred vendor must be explicit")
  ok preferred_vendor

abbrev pub available_vendors : Cluster → Job → List Vendor
available_vendors cluster j =
    vendors_of
      (filter (λ g. not (g.vendor == unknown) && is_compatible g j) (schedulable_gpus cluster))

-- `VendorPreferenceScheduler.place`
unfoldable pub vendor_place : Vendor → Cluster → Job → Result Placement
unfolding clone_cluster
vendor_place preferred_vendor cluster j =
    let available = available_vendors cluster j in
    first_placement (λ vendor. place (clone_cluster true (some vendor) cluster) j)
      (filter (λ vendor. elem vendor available)
        (preferred_vendor
          ∷ sort compare_vendor (filter (λ vendor. not (vendor == preferred_vendor)) available)))
