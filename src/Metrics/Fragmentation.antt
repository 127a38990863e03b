-- ===== src/Metrics/Fragmentation.antt =====
-- gpu_scheduler_lab/metrics/fragmentation.py: how much of the free capacity is split over nodes
-- and GPUs.
use gpu_scheduler_lab.Metrics.{sum_fractions, div_fraction}
use gpu_scheduler_lab.Models.Cluster.{
  schedulable_nodes, total_gpu_count, schedulable_gpus, occupied, free_gpu_count, Gpu, Node,
  Cluster,
}
use gpu_scheduler_lab.Prelude.{
  ◌-◌, ◌*◌, whole, is_empty, not, nat_eq, add_fraction, sum_of, map, length, if◌then◌else◌, filter,
  Fraction, List,
}

-- `capacity * 4.0 * free_fraction * (1.0 - free_fraction)` of a node with GPUs
abbrev pub node_partiality : Node → Fraction
node_partiality n =
    let capacity = length n.gpus in
    let free_count = free_gpu_count n in
    record {
      num = capacity * (4 * (free_count * (capacity - free_count)));
      den = capacity * capacity;
    }

abbrev pub partialities : List Node → List Fraction
partialities ns = map node_partiality (filter (λ n. not (is_empty n.gpus)) ns)

unfoldable pub gpu_count_fragmentation : Cluster → Fraction
gpu_count_fragmentation c =
    if nat_eq (total_gpu_count c) 0
    then whole 0
    else div_fraction (sum_fractions (partialities (schedulable_nodes c)))
        (whole (total_gpu_count c))

abbrev pub occupied_gpus : Cluster → List Gpu
occupied_gpus c = filter occupied (schedulable_gpus c)

-- A job's memory is no more than its GPU's, so the truncated differences are the source's.
unfoldable pub gpu_memory_fragmentation : Cluster → Fraction
gpu_memory_fragmentation c =
    let taken = occupied_gpus c in
    let occupied_capacity = sum_of (λ g. g.memory_capacity_gb) taken in
    if nat_eq occupied_capacity 0 then whole 0 else record {
      num = sum_of (λ g. g.memory_capacity_gb - g.allocated_memory_gb) taken;
      den = occupied_capacity;
    }

unfoldable pub fragmentation_snapshot : Cluster → Fraction × Fraction × Fraction
unfolding gpu_count_fragmentation gpu_memory_fragmentation
fragmentation_snapshot c =
    let count = gpu_count_fragmentation c in
    let memory = gpu_memory_fragmentation c in
    (count, memory, div_fraction (add_fraction count memory) (whole 2))
