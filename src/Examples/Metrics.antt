-- ===== src/Examples/Metrics.antt =====
-- What the metrics say of small runs.
use gpu_scheduler_lab.Metrics.Fragmented.{IsRatio}
use gpu_scheduler_lab.Metrics.{jains_fairness_index}
use gpu_scheduler_lab.Metrics.Fairness.{jains_fairness_index-bounds}
use gpu_scheduler_lab.Metrics.Latency.{percentile, percentile-IsWithin, IsWithin}
use gpu_scheduler_lab.Metrics.Summary.Returns.{build_metrics_returns}
use gpu_scheduler_lab.Metrics.Summary.{build_metrics, RunMetrics, RunTotals}
use gpu_scheduler_lab.Models.Elastic.{unit}
use gpu_scheduler_lab.Examples.{one_node}
use gpu_scheduler_lab.Examples.Simulation.{no_counts}
use gpu_scheduler_lab.Prelude.{
  length, max, arith, ◌≤◌, ◌≡◌, ◌∷◌, ◌<◌, ◌*◌, ok, Fraction, whole, List, [],
}

abbrev third : Fraction
third = record { num = 1; den = 3 }

abbrev qualities : List Fraction
qualities = whole 1 ∷ third ∷ []

jains_fairness_index-bounds_example :
    (0 < (jains_fairness_index qualities).den)
    × ((jains_fairness_index qualities).num ≤ (jains_fairness_index qualities).den)
    × ((jains_fairness_index qualities).den
        ≤ max 1 (length qualities) * (jains_fairness_index qualities).num)
jains_fairness_index-bounds_example =
    jains_fairness_index-bounds qualities (omega arith, (omega arith, tt))

percentile-IsWithin_example :
    (f : Fraction) × (percentile (9 ∷ 4 ∷ 6 ∷ []) third ≡ ok f) × IsWithin 4 9 f
percentile-IsWithin_example =
    percentile-IsWithin 4 9 (9 ∷ 4 ∷ 6 ∷ []) third
      ((omega arith, omega arith), ((omega arith, omega arith), ((omega arith, omega arith), tt)))
      (omega arith) (omega arith) (omega arith)

abbrev totals : RunTotals
totals = record {
  horizon = 10 * unit;
  busy_gpu_time = 20 * unit;
  memory_area = 600 * unit;
  node_area = 10 * unit;
  count_fragmentation_area = whole 0;
  memory_fragmentation_area = whole 1;
  peak_gpu_utilization = third;
  scheduling_attempts = 3;
  failed_attempts = 1;
  topology_counts = no_counts;
  gpu_capacity_time = 30 * unit;
  memory_capacity_time = 1200 * unit;
  node_capacity_time = 20 * unit;
}

build_metrics_returns_example :
    (m : RunMetrics) × (build_metrics (one_node ∷ []) totals ≡ ok m)
    × IsRatio m.completion_rate
    × IsRatio m.sla_violation_rate
    × IsRatio m.jains_fairness_index
build_metrics_returns_example = build_metrics_returns (one_node ∷ []) totals (omega arith, tt)
