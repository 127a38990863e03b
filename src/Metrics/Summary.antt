-- ===== src/Metrics/Summary.antt =====
-- `build_metrics` (gpu_scheduler_lab/metrics/summary.py): what a run is summed up to. A capacity
-- time is the one that the simulator integrated.
pub mod Parts
pub mod Returns
use Prim.Native.Nat.{◌%◌}
use gpu_scheduler_lab.Models.Job.{low, normal, high, critical}
use gpu_scheduler_lab.Metrics.Latency.{percentile-IsWithin, percentile}
use gpu_scheduler_lab.Metrics.{jains_fairness_index, div_fraction}
use gpu_scheduler_lab.Simulator.{TopologyCounts}
use gpu_scheduler_lab.Models.Job.{
  status_eq, completed, waiting_time, turnaround_time, Priority, Job,
}
use gpu_scheduler_lab.Prelude.{
  traverse, zero_division_error, raise_if, any, ◌>>◌, ◌<◌, count_of-le, length-filter-le, ◌∙◌,
  arith, ap, All, ◌≤◌, ◌≡◌, refl, values, ◌-◌, is_empty, ◌/◌, not, compare_text, add_fraction,
  ◌>>=◌, ◌==◌, ◌&&◌, text_eq_instance, nat_eq, map, ltb, length, count_of, compare_ℕ, ◌∷◌, ◌+◌, ◌*◌,
  whole, sum_of, sort, insert, if◌then◌else◌, get_or, get_elem?, flat_map, filter, Result, Bool,
  String, Option, List, Fraction, Dict, ok, false, true, some, none, [], ℕ,
}

-- The arguments, beside the jobs.
pub record RunTotals : Type 0 where
  pub horizon : ℕ
  pub busy_gpu_time : ℕ
  pub memory_area : ℕ
  pub node_area : ℕ
  pub count_fragmentation_area : Fraction
  pub memory_fragmentation_area : Fraction
  pub peak_gpu_utilization : Fraction
  pub scheduling_attempts : ℕ
  pub failed_attempts : ℕ
  pub topology_counts : TopologyCounts
  pub gpu_capacity_time : ℕ
  pub memory_capacity_time : ℕ
  pub node_capacity_time : ℕ

pub record GroupMetrics : Type 0 where
  pub demand_gpu_time : ℕ
  pub completed_gpu_time : ℕ
  pub completion_ratio : Fraction
  pub turnaround_gpu_time : ℕ
  pub latency_efficiency : Fraction
  pub service_quality : Fraction

pub record RunMetrics : Type 0 where
  pub average_gpu_utilization : Fraction
  pub peak_gpu_utilization : Fraction
  pub gpu_memory_utilization : Fraction
  pub gpu_count_fragmentation : Fraction
  pub gpu_memory_fragmentation : Fraction
  pub gpu_fragmentation_ratio : Fraction
  pub node_utilization : Fraction
  pub idle_gpu_time : ℕ
  pub average_waiting_time : Fraction
  pub median_waiting_time : Fraction
  pub p95_waiting_time : Fraction
  pub average_turnaround_time : Fraction
  pub p95_turnaround_time : Fraction
  pub completion_rate : Fraction
  pub completed_jobs : ℕ
  pub total_jobs : ℕ
  pub preemption_count : ℕ
  pub average_preemptions_per_job : Fraction
  pub sla_violation_count : ℕ
  pub sla_violation_rate : Fraction
  pub sla_job_count : ℕ
  pub topology_counts : TopologyCounts
  pub average_topology_distance : Fraction
  pub total_checkpoint_overhead : ℕ
  pub total_restart_overhead : ℕ
  pub preemption_overhead_ratio : Fraction
  pub wasted_productive_gpu_time : ℕ
  pub resumed_job_count : ℕ
  pub scheduling_attempt_count : ℕ
  pub failed_placement_attempt_count : ℕ
  pub jains_fairness_index : Fraction
  pub fairness_groups : Dict String GroupMetrics
  pub simulation_horizon : ℕ
  pub busy_gpu_time : ℕ

-- `n / d` of two numbers, and of a quotient and a number; a denominator of nought raises.
unfoldable pub over : ℕ → ℕ → Result Fraction
over n d = do
  raise_if (nat_eq d 0) (zero_division_error "division by zero")
  ok (record { num = n; den = d })

unfoldable pub quotient_over : Fraction → ℕ → Result Fraction
quotient_over f d = do
  raise_if (nat_eq d 0) (zero_division_error "division by zero")
  ok (div_fraction f (whole d))

-- `n / d if d else other`
unfoldable pub ratio_or : Fraction → ℕ → ℕ → Result Fraction
unfolding over
ratio_or other n d = if nat_eq d 0 then ok other else over n d

abbrev pub ratio : ℕ → ℕ → Result Fraction
ratio n d = ratio_or (whole 0) n d

-- `f / d if d else 0.0`
unfoldable pub fraction_over : Fraction → ℕ → Result Fraction
unfolding quotient_over
fraction_over f d = if nat_eq d 0 then ok (whole 0) else quotient_over f d

-- `mean(samples) if samples else 0.0`; `statistics.mean` divides by the number of samples
unfoldable pub mean : List ℕ → Result Fraction
unfolding over
mean samples =
    if is_empty samples then ok (whole 0) else over (sum_of (λ v. v) samples) (length samples)

abbrev value_or_zero : List ℕ → ℕ → ℕ
value_or_zero samples i = elim (get_elem? samples i) [ none ↦ 0 | some v ↦ v ]

abbrev pub median : List ℕ → Fraction
median samples =
    let ordered = sort compare_ℕ samples in
    let half = length samples / 2 in
    if is_empty samples
    then whole 0
    else if nat_eq (length samples % 2) 1
    then whole (value_or_zero ordered half)
    else record { num = value_or_zero ordered (half - 1) + value_or_zero ordered half; den = 2 }

abbrev pub is_completed : Job → Bool
is_completed j = j.status == completed

abbrev pub value_list : Option ℕ → List ℕ
value_list o = elim o [ none ↦ [] | some value ↦ value ∷ [] ]

abbrev pub has_deadline : Job → Bool
has_deadline j = elim j.sla_deadline [ none ↦ false | some deadline ↦ true ]

-- `job.completion_time is None or job.completion_time > job.sla_deadline`
abbrev pub misses_deadline : Job → Bool
misses_deadline j = elim j.sla_deadline [
  | none ↦ false
  | some deadline ↦ elim j.completion_time [
    | none ↦ true
    | some completion ↦ ltb deadline completion
  ]
]

abbrev priority_name : Priority → String
priority_name low = "low"
priority_name normal = "normal"
priority_name high = "high"
priority_name critical = "critical"

-- `job.group or job.priority.name.lower()`
abbrev pub group_of : Job → String
group_of j = elim j.group [
  | none ↦ priority_name j.priority
  | some group ↦ if group == "" then priority_name j.priority else group
]

abbrev pub add_amount : String → ℕ → Dict String ℕ → Dict String ℕ
add_amount key amount d = insert key (get_or key 0 d + amount) d

-- `sum_by[group] += amount(job)` over the jobs, in their order.
abbrev pub sum_by_group : (Job → ℕ) → List Job → Dict String ℕ → Dict String ℕ
sum_by_group amount [] d = d
sum_by_group amount (j ∷ js) d = sum_by_group amount js (add_amount (group_of j) (amount j) d)

abbrev pub turnaround_amount : Job → ℕ
turnaround_amount j = sum_of (λ t. t * j.gpu_count) (value_list (turnaround_time j))

abbrev pub has_turnaround : Job → Bool
has_turnaround j = is_completed j && not (is_empty (value_list (turnaround_time j)))

-- `min(1.0, completed / turnaround) if turnaround else 0.0`
unfoldable pub latency_efficiency_of : ℕ → ℕ → Result Fraction
unfolding over
latency_efficiency_of done turnaround = if nat_eq turnaround 0 then ok (whole 0) else (do
  efficiency ← over done turnaround
  ok (if ltb efficiency.den efficiency.num then whole 1 else efficiency))

abbrev pub mul_fraction : Fraction → Fraction → Fraction
mul_fraction a b = record { num = a.num * b.num; den = a.den * b.den }

unfoldable pub group_metrics :
    Dict String ℕ → Dict String ℕ → String × ℕ → Result (String × GroupMetrics)
unfolding latency_efficiency_of
group_metrics completed_by turnaround_by (group, demand) = do
  let done = get_or group 0 completed_by
  let turnaround = get_or group 0 turnaround_by
  completion ← over done demand
  latency ← latency_efficiency_of done turnaround
  ok (
    group,
    record {
      demand_gpu_time = demand;
      completed_gpu_time = done;
      completion_ratio = completion;
      turnaround_gpu_time = turnaround;
      latency_efficiency = latency;
      service_quality = mul_fraction completion latency;
    },
  )

abbrev pub demand_by_group : List Job → Dict String ℕ
demand_by_group jobs = sum_by_group (λ j. j.duration * j.gpu_count) jobs []

abbrev pub sorted_demands : List Job → Dict String ℕ
sorted_demands jobs = sort (λ a b. compare_text a.0 b.0) (demand_by_group jobs)

unfoldable pub fairness_groups_of : List Job → Result (Dict String GroupMetrics)
unfolding group_metrics
fairness_groups_of jobs =
    let finished = filter has_turnaround jobs in
    traverse
      (group_metrics (sum_by_group (λ j. j.duration * j.gpu_count) finished [])
        (sum_by_group turnaround_amount finished []))
      (sorted_demands jobs)

abbrev pub wasted_gpu_time : Job → ℕ
wasted_gpu_time j = (j.checkpoint_overhead + j.restart_overhead) * j.gpu_count

abbrev pub ninety_five : Fraction
ninety_five = record { num = 95; den = 100 }

abbrev pub waiting_times : List Job → List ℕ
waiting_times jobs = flat_map (λ j. value_list (waiting_time j)) (filter is_completed jobs)

abbrev pub turnaround_times : List Job → List ℕ
turnaround_times jobs = flat_map (λ j. value_list (turnaround_time j)) (filter is_completed jobs)

-- The quotients of the metrics, each of which may raise.
pub record Quotients : Type 0 where
  pub gpu_utilization : Fraction
  pub memory_utilization : Fraction
  pub count_fragmentation : Fraction
  pub memory_fragmentation : Fraction
  pub fragmentation : Fraction
  pub node_utilization : Fraction
  pub waiting : Fraction
  pub p95_waiting : Fraction
  pub turnaround : Fraction
  pub p95_turnaround : Fraction
  pub completion : Fraction
  pub preemptions : Fraction
  pub violations : Fraction
  pub topology_distance : Fraction
  pub overhead : Fraction

abbrev pub violations_of : List Job → ℕ
violations_of jobs = count_of misses_deadline (filter has_deadline jobs)

abbrev pub preemptions_of : List Job → ℕ
preemptions_of jobs = sum_of (λ j. j.preemption_count) jobs

-- `(count_area + memory_area) / (2.0 * horizon) if horizon else 0.0`
unfoldable pub fragmentation_ratio : Fraction → Fraction → ℕ → Result Fraction
unfolding quotient_over
fragmentation_ratio count memory horizon =
    if nat_eq horizon 0
    then ok (whole 0)
    else quotient_over (add_fraction count memory) (2 * horizon)

unfoldable pub quotients_of : List Job → RunTotals → Result Quotients
unfolding fraction_over ratio_or mean fragmentation_ratio
quotients_of jobs totals = do
  let counts : TopologyCounts = totals.topology_counts
  gpu_utilization ← ratio totals.busy_gpu_time totals.gpu_capacity_time
  memory_utilization ← ratio totals.memory_area totals.memory_capacity_time
  count_fragmentation ← fraction_over totals.count_fragmentation_area totals.horizon
  memory_fragmentation ← fraction_over totals.memory_fragmentation_area totals.horizon
  fragmentation ←
      fragmentation_ratio totals.count_fragmentation_area totals.memory_fragmentation_area
        totals.horizon
  node_utilization ← ratio totals.node_area totals.node_capacity_time
  waiting ← mean (waiting_times jobs)
  p95_waiting ← percentile (waiting_times jobs) ninety_five
  turnaround ← mean (turnaround_times jobs)
  p95_turnaround ← percentile (turnaround_times jobs) ninety_five
  completion ← ratio_or (whole 1) (length (filter is_completed jobs)) (length jobs)
  preemptions ← ratio (preemptions_of jobs) (length jobs)
  violations ← ratio (violations_of jobs) (length (filter has_deadline jobs))
  topology_distance ← ratio counts.distance_sum counts.distance_samples
  overhead ← ratio (sum_of wasted_gpu_time jobs) totals.busy_gpu_time
  ok (record {
    gpu_utilization = gpu_utilization;
    memory_utilization = memory_utilization;
    count_fragmentation = count_fragmentation;
    memory_fragmentation = memory_fragmentation;
    fragmentation = fragmentation;
    node_utilization = node_utilization;
    waiting = waiting;
    p95_waiting = p95_waiting;
    turnaround = turnaround;
    p95_turnaround = p95_turnaround;
    completion = completion;
    preemptions = preemptions;
    violations = violations;
    topology_distance = topology_distance;
    overhead = overhead;
  })

abbrev pub metrics_with : List Job → RunTotals → Dict String GroupMetrics → Quotients → RunMetrics
metrics_with jobs totals groups q =
    let done = filter is_completed jobs in
    record {
      average_gpu_utilization = q.gpu_utilization;
      peak_gpu_utilization = totals.peak_gpu_utilization;
      gpu_memory_utilization = q.memory_utilization;
      gpu_count_fragmentation = q.count_fragmentation;
      gpu_memory_fragmentation = q.memory_fragmentation;
      gpu_fragmentation_ratio = q.fragmentation;
      node_utilization = q.node_utilization;
      idle_gpu_time = totals.gpu_capacity_time - totals.busy_gpu_time;
      average_waiting_time = q.waiting;
      median_waiting_time = median (waiting_times jobs);
      p95_waiting_time = q.p95_waiting;
      average_turnaround_time = q.turnaround;
      p95_turnaround_time = q.p95_turnaround;
      completion_rate = q.completion;
      completed_jobs = length done;
      total_jobs = length jobs;
      preemption_count = preemptions_of jobs;
      average_preemptions_per_job = q.preemptions;
      sla_violation_count = violations_of jobs;
      sla_violation_rate = q.violations;
      sla_job_count = length (filter has_deadline jobs);
      topology_counts = totals.topology_counts;
      average_topology_distance = q.topology_distance;
      total_checkpoint_overhead = sum_of (λ j. j.checkpoint_overhead) jobs;
      total_restart_overhead = sum_of (λ j. j.restart_overhead) jobs;
      preemption_overhead_ratio = q.overhead;
      wasted_productive_gpu_time = sum_of wasted_gpu_time jobs;
      resumed_job_count = count_of (λ j. ltb 0 j.preemption_count) done;
      scheduling_attempt_count = totals.scheduling_attempts;
      failed_placement_attempt_count = totals.failed_attempts;
      jains_fairness_index = jains_fairness_index (map (λ g. g.service_quality) (values groups));
      fairness_groups = groups;
      simulation_horizon = totals.horizon;
      busy_gpu_time = totals.busy_gpu_time;
    }

unfoldable pub build_metrics : List Job → RunTotals → Result RunMetrics
unfolding fairness_groups_of quotients_of
build_metrics jobs totals = do
  groups ← fairness_groups_of jobs
  quotients ← quotients_of jobs totals
  ok (metrics_with jobs totals groups quotients)
