-- ===== src/Schedulers/Topology.antt =====
-- `TopologyAwareScheduler` (gpu_scheduler_lab/schedulers/topology.py). Averages and fragmentation
-- are exact quotients, and the fragmentation delta is kept as its two sums.
pub mod Place
pub mod Sound
pub mod Counted
pub mod Sought
pub mod Placed
use gpu_scheduler_lab.Models.Accelerator.{vendor_eq}
use gpu_scheduler_lab.Models.Topology.{TopologyMode, Labels, topology_domain, topology_distance}
use gpu_scheduler_lab.Models.Job.{Job}
use gpu_scheduler_lab.Models.Cluster.{
  Gpu, Node, Cluster, schedulable_nodes, total_gpu_count, occupied_gpu_count,
}
use gpu_scheduler_lab.Prelude.{
  ◌+◌, insert, ◌-◌, sum_of, length, group_by, dedup, compare_fraction, add_fraction, ◌==◌, ◌++◌,
  ◌*◌, whole, text_eq_instance, nat_eq, max, filter, compare_ℕ, compare_text, ◌∷◌, values, take,
  sort, map, lookup, flat_map, count_of, and_then, Fraction, ℕ, String, Ordering, List, Dict, Bool,
  false, true, some, none, [], list_eq, if◌then◌else◌,
}

abbrev pub Nodes : Type 0
Nodes = Dict String Node

abbrev pub nodes_by_id : List Node → Nodes
nodes_by_id ns = map (λ n. (n.id, n)) ns

abbrev pub topology_of : Nodes → String → Labels
topology_of nodes node_id = elim (lookup node_id nodes) [ none ↦ [] | some n ↦ n.topology ]

abbrev pub domain_at : Nodes → String → String → String
domain_at nodes level node_id = topology_domain node_id (topology_of nodes node_id) level

-- `tuple(sorted(gpu.id for gpu in placement))`
abbrev pub sorted_ids : List Gpu → List String
sorted_ids placement = sort compare_text (map (λ g. g.id) placement)

abbrev pub Candidates : Type 0
Candidates = Dict (List String) (List Gpu)

-- `add`: the first GPUs of a list, if they are enough
abbrev pub add_candidate : ℕ → List Gpu → Candidates → Candidates
add_candidate required items candidates =
    let placement = take required items in
    if nat_eq (length placement) required
    then insert (sorted_ids placement) placement candidates
    else candidates

abbrev pub add_candidates : ℕ → List (List Gpu) → Candidates → Candidates
add_candidates required [] candidates = candidates
add_candidates required (items ∷ rest) candidates =
    add_candidates required rest (add_candidate required items candidates)

-- The GPUs of each domain of a level, by the domains' names.
abbrev pub by_domain : Nodes → String → List Gpu → List (List Gpu)
by_domain nodes level eligible =
    map (λ item. item.1)
      (sort (λ a b. compare_text a.0 b.0)
        (group_by (λ g. domain_at nodes level g.node_id) eligible))

abbrev pub compare_from : Node → Node → Node → Ordering
compare_from seed a b =
    and_then
      (compare_ℕ (topology_distance seed.id seed.topology a.id a.topology)
        (topology_distance seed.id seed.topology b.id b.topology))
      (compare_text a.id b.id)

-- The GPUs in the order of their nodes' distances from a seed node.
abbrev pub around : List Node → List Gpu → Node → List Gpu
around ns eligible seed =
    flat_map (λ n. filter (λ g. g.node_id == n.id) eligible) (sort (compare_from seed) ns)

abbrev pub seeds : Nodes → List Gpu → List Node
seeds nodes eligible =
    flat_map (λ node_id. elim (lookup node_id nodes) [ none ↦ [] | some n ↦ n ∷ [] ])
      (sort compare_text (dedup (map (λ g. g.node_id) eligible)))

-- The lists that `add` is given: all GPUs, those of each node, rack and zone, and those around
-- each node.
abbrev pub proposals : List Gpu → List Node → List (List Gpu)
proposals eligible ns =
    let nodes = nodes_by_id ns in
    let around_seeds = map (around ns eligible) (seeds nodes eligible) in
    let zones = by_domain nodes "zone" eligible in
    let racks = by_domain nodes "rack" eligible in
    eligible ∷ (by_domain nodes "node" eligible ++ (racks ++ (zones ++ around_seeds)))

unfoldable pub candidate_placements : List Gpu → List Node → ℕ → List (List Gpu)
candidate_placements eligible ns required =
    values (add_candidates required (proposals eligible ns) [])

-- The distances of the pairs of a list, each pair once.
abbrev distances_from : Nodes → String → List String → List ℕ
distances_from nodes left rest =
    map (λ right. topology_distance left (topology_of nodes left) right (topology_of nodes right))
      rest

unfoldable pub pair_distances : Nodes → List String → List ℕ
pair_distances nodes [] = []
pair_distances nodes (left ∷ rest) = distances_from nodes left rest ++ pair_distances nodes rest

-- `capacity * 4.0 * free_fraction * (1.0 - free_fraction)`
abbrev partiality : ℕ → ℕ → Fraction
partiality capacity occupied = record { num = 4 * (capacity - occupied) * occupied; den = capacity }

abbrev additions : List Gpu → String → ℕ
additions placement node_id = count_of (λ g. g.node_id == node_id) placement

abbrev partiality_sum : (Node → ℕ) → List Node → Fraction
partiality_sum occupied [] = whole 0
partiality_sum occupied (n ∷ ns) =
    add_fraction (partiality (length n.gpus) (occupied n)) (partiality_sum occupied ns)

-- The delta is `after - before`, over the total number of GPUs.
pub record Score : Type 0 where
  pub primary_domains : ℕ
  pub max_distance : ℕ
  pub average_distance : Fraction
  pub before : Fraction
  pub after : Fraction
  pub memory_waste : ℕ
  pub ids : List String

abbrev compare_ids : List String → List String → Ordering
compare_ids [] [] = Ordering.eq
compare_ids [] (y ∷ ys) = Ordering.lt
compare_ids (x ∷ xs) [] = Ordering.gt
compare_ids (x ∷ xs) (y ∷ ys) = and_then (compare_text x y) (compare_ids xs ys)

abbrev pub compare_score : Score → Score → Ordering
compare_score a b = and_then (compare_ℕ a.primary_domains b.primary_domains) (
    and_then (compare_ℕ a.max_distance b.max_distance) (
      and_then (compare_fraction a.average_distance b.average_distance) (
        and_then (compare_fraction (add_fraction a.after b.before) (add_fraction b.after a.before))
          (and_then (compare_ℕ a.memory_waste b.memory_waste) (compare_ids a.ids b.ids)))))

abbrev by_rack : TopologyMode → Bool
by_rack TopologyMode.prefer_same_rack = true
by_rack TopologyMode.require_same_rack = true
by_rack TopologyMode.none_mode = false
by_rack TopologyMode.prefer_same_node = false
by_rack TopologyMode.require_same_node = false

abbrev maximum : List ℕ → ℕ
maximum [] = 0
maximum (n ∷ ns) = max n (maximum ns)

abbrev average : List ℕ → Fraction
average [] = whole 0
average (n ∷ ns) = record { num = sum_of (λ d. d) (n ∷ ns); den = length (n ∷ ns) }

unfoldable pub score : Cluster → List Node → List Gpu → Job → Score
unfolding pair_distances
score cluster ns placement j =
    let nodes = nodes_by_id ns in
    let node_ids = sort compare_text (dedup (map (λ g. g.node_id) placement)) in
    let distances = pair_distances nodes node_ids in
    let scored = if nat_eq (total_gpu_count cluster) 0 then [] else schedulable_nodes cluster in
    record {
      primary_domains =
          if by_rack j.topology_mode
          then length (dedup (map (domain_at nodes "rack") node_ids))
          else length node_ids;
      max_distance = maximum distances;
      average_distance = average distances;
      before = partiality_sum occupied_gpu_count scored;
      after = partiality_sum (λ n. occupied_gpu_count n + additions placement n.id) scored;
      memory_waste = sum_of (λ g. g.memory_capacity_gb - j.gpu_memory_gb) placement;
      ids = sorted_ids placement;
    }
