-- ===== src/Metrics/Summary/Returns.antt =====
-- That a run is summed up (gpu_scheduler_lab/metrics/summary.py).
use gpu_scheduler_lab.Metrics.Summary.Parts.{
  quotients_of-Returns, sum_by_group_positive, AreRates, traverse-Returns, then-Returns, Returns,
}
use native.Mathlib.Nat
use gpu_scheduler_lab.Metrics.Fairness.{jains_fairness_index-bounds}
use gpu_scheduler_lab.Metrics.Fragmented.{IsRatio}
use gpu_scheduler_lab.Metrics.Summary.{
  demand_by_group, sorted_demands, turnaround_amount, over, has_turnaround, quotients_of,
  latency_efficiency_of, group_metrics, fairness_groups_of, GroupMetrics, metrics_with, RunMetrics,
  sum_by_group, RunTotals, build_metrics,
}
use gpu_scheduler_lab.Models.Job.{status_eq, Job}
use gpu_scheduler_lab.Prelude.{
  any-false→All, compare_text, All-sort, All-map_pred, values, nat_eq_iff, Bool-cases, map, inr,
  inl, ◌<◌, arith, All, ◌≡◌, refl, text_eq_instance, nat_eq, ltb, ◌∷◌, ◌*◌, whole, get_or, filter,
  String, List, Dict, ok, false, [], ℕ,
}

-- The quality of a group is a defined quotient.
abbrev IsDefined : String × GroupMetrics → Type 0
IsDefined item = 0 < item.1.service_quality.den

latency_efficiency_of-Returns :
    (done turnaround : ℕ) → Returns (λ f. 0 < f.den) (latency_efficiency_of done turnaround)
unfolding latency_efficiency_of over
latency_efficiency_of-Returns done turnaround = elim (Bool-cases (nat_eq turnaround 0)) [
  | inl nothing ↦ rw nothing (whole 0, refl, omega arith)
  | inr something ↦ elim (Bool-cases (ltb turnaround done)) [
    | inl more ↦ rw (something, more) (whole 1, refl, omega arith)
    | inr less ↦
        rw (something, less)
          (
            record { num = done; den = turnaround },
            refl,
            ground (arith, something, nat_eq_iff turnaround 0),
          )
  ]
]

group_metrics-Returns :
    (completed_by turnaround_by : Dict String ℕ) (group : String) (demand : ℕ)
    → nat_eq demand 0 ≡ false
    → Returns IsDefined (group_metrics completed_by turnaround_by (group, demand))
unfolding group_metrics over
group_metrics-Returns completed_by turnaround_by group demand demanded =
    then-Returns (λ f. 0 < f.den) IsDefined (over (get_or group 0 completed_by) demand) _
      (rw demanded (
        record { num = get_or group 0 completed_by; den = demand },
        refl,
        ground (arith, demanded, nat_eq_iff demand 0),
      ))
      (λ completion complete.
        then-Returns (λ f. 0 < f.den) IsDefined
          (latency_efficiency_of (get_or group 0 completed_by) (get_or group 0 turnaround_by)) _
          (latency_efficiency_of-Returns (get_or group 0 completed_by)
            (get_or group 0 turnaround_by))
          (λ latency timely. (_, refl, Nat.mul-pos complete timely)))

fairness_groups_of-Returns :
    (jobs : List Job)
    → All (λ j. 0 < j.duration * j.gpu_count) jobs
    → Returns (All IsDefined) (fairness_groups_of jobs)
unfolding fairness_groups_of
fairness_groups_of-Returns jobs demanding =
    let completed_by : Dict String ℕ =
      sum_by_group (λ j. j.duration * j.gpu_count) (filter has_turnaround jobs) [] in
    let turnaround_by : Dict String ℕ =
      sum_by_group turnaround_amount (filter has_turnaround jobs) [] in
    traverse-Returns IsDefined (group_metrics completed_by turnaround_by) (sorted_demands jobs) (
      All-map_pred (λ (item : String × ℕ). nat_eq item.1 0 ≡ false) (sorted_demands jobs)
        (λ item some_demand.
          group_metrics-Returns completed_by turnaround_by item.0 item.1 some_demand)
        (All-sort (λ a b. compare_text a.0 b.0) (λ (item : String × ℕ). nat_eq item.1 0 ≡ false)
          (demand_by_group jobs)
          (any-false→All (λ item. nat_eq item.1 0) (demand_by_group jobs)
            (sum_by_group_positive (λ j. j.duration * j.gpu_count) jobs [] demanding refl))))

qualities_defined :
    (groups : Dict String GroupMetrics)
    → All IsDefined groups
    → All (λ f. 0 < f.den) (map (λ g. g.service_quality) (values groups))
qualities_defined [] h = tt
qualities_defined (g ∷ groups) h = (h.0, qualities_defined groups h.1)

abbrev SummaryRates : RunMetrics → Type 0
SummaryRates m =
    IsRatio m.completion_rate × IsRatio m.sla_violation_rate × IsRatio m.jains_fairness_index

summary-Returns :
    (jobs : List Job) (totals : RunTotals)
    → All (λ j. 0 < j.duration * j.gpu_count) jobs
    → Returns SummaryRates (build_metrics jobs totals)
unfolding build_metrics
summary-Returns jobs totals demanding =
    then-Returns (All IsDefined) SummaryRates (fairness_groups_of jobs) _
      (fairness_groups_of-Returns jobs demanding)
      (λ groups defined.
        then-Returns AreRates SummaryRates (quotients_of jobs totals) _
          (quotients_of-Returns jobs totals)
          (λ q rates.
            let index =
              jains_fairness_index-bounds (map (λ g. g.service_quality) (values groups))
                (qualities_defined groups defined) in
            (
              metrics_with jobs totals groups q,
              refl,
              (rates.0, rates.1, record { den_pos = index.0; at_most_one = index.1 }),
            )))

-- Every run whose jobs have a demand is summed up without an error: no quotient of the summary is
-- taken over nought, and no percentile of no values. The rate of completed jobs, the rate of
-- missed deadlines and Jain's index of the groups are defined quotients between nought and one.
pub build_metrics_returns :
    (jobs : List Job) (totals : RunTotals)
    → All (λ j. 0 < j.duration * j.gpu_count) jobs
    → (m : RunMetrics) × (build_metrics jobs totals ≡ ok m)
      × IsRatio m.completion_rate
      × IsRatio m.sla_violation_rate
      × IsRatio m.jains_fairness_index
build_metrics_returns jobs totals demanding =
    let (m, made, rates) = summary-Returns jobs totals demanding in
    (m, made, rates.0, rates.1, rates.2)
