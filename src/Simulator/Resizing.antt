-- ===== src/Simulator/Resizing.antt =====
-- How elastic jobs grow (gpu_scheduler_lab/simulator/engine.py).
pub mod Target
use gpu_scheduler_lab.Models.Events.{elastic_scale_up}
use gpu_scheduler_lab.Models.Cluster.Allocation.{topologies_of}
use gpu_scheduler_lab.Simulator.Start.{record_topology_placement}
use gpu_scheduler_lab.Schedulers.Topology.Place.{filter_result}
use gpu_scheduler_lab.Models.Topology.{topology_requirement_satisfied}
use gpu_scheduler_lab.Simulator.Reservations.{reserved_elsewhere}
use gpu_scheduler_lab.Simulator.Reclaiming.Committing.{note_resize, running_job}
use gpu_scheduler_lab.Simulator.Lifecycle.{trace_of, schedule_completion, accrue_productive_work}
use gpu_scheduler_lab.Simulator.Scheduler.{sort_by_key, prepare_pass, Scheduler}
use gpu_scheduler_lab.Simulator.Capacity.{scale_detail, resize_job, with_replicas}
use gpu_scheduler_lab.Simulator.Arrivals.{Setting}
use gpu_scheduler_lab.Simulator.{record_trace, node_ids_of, put_job, job_of, Simulator}
use gpu_scheduler_lab.Models.Job.{Job}
use gpu_scheduler_lab.Models.Cluster.{gpu_by_id, eligible_gpus, Gpu, Cluster}
use gpu_scheduler_lab.Fairshare.Accounting.{weight_of, AccountingPolicy}
use gpu_scheduler_lab.Prelude.{
  map, compare_text, sum_of, ltb, length, ◌++◌, ◌&&◌, is_empty, compare_ℕ, ◌∷◌, ◌||◌, traverse,
  nat_eq, leb, elem, contains, and_then, ◌>>=◌, text_eq_instance, sort, not, if◌then◌else◌, filter,
  Ordering, Option, ◌-◌, keys, insert, Result, Bool, String, List, Dict, suc, zero, ok, false, some,
  none, [], ℕ,
}

-- The order in which an elastic job takes free GPUs.
abbrev pub compare_free : AccountingPolicy → Gpu → Gpu → Ordering
compare_free accounting a b =
    and_then (compare_ℕ (weight_of accounting a) (weight_of accounting b))
      (and_then (compare_text a.node_id b.node_id) (compare_text a.id b.id))

abbrev pub satisfies_topology : Cluster → Job → List String → Result Bool
satisfies_topology c j gpu_ids = do
  held ← traverse (gpu_by_id c) gpu_ids
  topology_requirement_satisfied j.topology_mode (map (λ g. g.node_id) held) (topologies_of c.nodes)

-- The loop over the free GPUs, which passes over one that would break the job's topology and ends
-- once enough are selected.
unfoldable pub select_growth :
    Cluster → Job → ℕ → List Gpu → List String → Result (Option (List String))
select_growth c j needed [] selected = ok none
select_growth c j needed (g ∷ rest) selected =
    satisfies_topology c j (j.allocated_gpu_ids ++ (selected ++ g.id ∷ [])) >>= λ satisfied.
    let next = if satisfied then selected ++ g.id ∷ [] else selected in
    let later = select_growth c j needed rest next in
    if satisfied && nat_eq (length next) needed
    then ok (some (j.allocated_gpu_ids ++ next))
    else later

-- The free GPUs that are not kept for another job.
abbrev pub growth_candidates : AccountingPolicy → Simulator → Job → List Gpu → List Gpu
growth_candidates accounting s j eligible =
    sort (compare_free accounting)
      (filter (λ g. not (elem g.id (reserved_elsewhere s.preemption_reserved_gpus j.id))) eligible)

-- `_elastic_resize_target`
unfoldable pub elastic_resize_target :
    AccountingPolicy → Simulator → Job → ℕ → Result (Option (List String))
unfolding select_growth
elastic_resize_target accounting s j replicas =
    if leb replicas j.current_replicas then ok none else (do
      eligible ← eligible_gpus s.cluster j
      select_growth s.cluster j (replicas - j.current_replicas)
          (growth_candidates accounting s j eligible) [])

-- The jobs that were resized at this time already.
abbrev pub blocked_ids : ℕ → Simulator → List String
blocked_ids now s = keys (filter (λ item. nat_eq item.1 now) s.tally.last_resize_time)

abbrev pub wants_more : List String → Job → Bool
wants_more blocked j = elim j.elastic [
  | none ↦ false
  | some e ↦ not (elem j.id blocked) && ltb j.current_replicas e.preferred_replicas
]

abbrev pub shortfall : Job → ℕ
shortfall j = elim j.elastic [ none ↦ 0 | some e ↦ e.preferred_replicas - j.current_replicas ]

abbrev pub grown_job : ℕ → ℕ → Job → Job
grown_job now n j = record (with_replicas n j) { last_start_time = some now }

abbrev pub counted_growth : Job → Job
counted_growth j = record j {
  elastic_scale_up_count = suc j.elastic_scale_up_count;
  resize_churn_count = suc j.resize_churn_count;
  run_generation = suc j.run_generation;
}

-- The loop over the jobs that grew: each is counted, traced and scheduled once.
unfoldable pub finish_growth : ℕ → Dict String ℕ → Simulator → Result Simulator
finish_growth now [] s = ok s
finish_growth now ((job_id, old) ∷ rest) s = do
  found ← running_job s job_id
  let j : Job = counted_growth found
  node_ids ← node_ids_of s j.allocated_gpu_ids
  recorded ←
      record_topology_placement j j.allocated_gpu_ids node_ids
        (note_resize job_id now (put_job j s))
  scheduled ← schedule_completion j now (
      record_trace
        (trace_of now elastic_scale_up job_id j.allocated_gpu_ids node_ids
          (scale_detail old j.current_replicas))
        recorded)
  finish_growth now rest scheduled

-- The job as it was before its first growth in the pass is remembered, and its work accrued.
abbrev accrue_once : ℕ → Dict String ℕ → Job → Result (Dict String ℕ × Job)
accrue_once now originals j = if contains j.id originals then ok (originals, j) else (do
  accrued ← accrue_productive_work now j
  ok (originals ++ (j.id, j.current_replicas) ∷ [], accrued))

abbrev grow_job :
    ℕ → Dict String ℕ → Job → List String → Simulator → Result (Dict String ℕ × Simulator)
grow_job now originals j target s = do
  accrued ← accrue_once now originals j
  resized ← resize_job accrued.1 target s
  ok (accrued.0, put_job (grown_job now (length target) resized.1) resized.0)

module _ {S K : Type 0} (setting : Setting) (scheduler : Scheduler S K) where
  abbrev may_grow : List String → S → Job → Result Bool
  may_grow blocked t j = if not (wants_more blocked j) then ok false else scheduler.can_scale_up t j

  abbrev growth_order : List String → ℕ → S → Simulator → Result (List Job)
  growth_order blocked now t s = do
    jobs ← traverse (job_of s) s.running
    candidates ← filter_result (may_grow blocked t) jobs
    sort_by_key scheduler.compare_key (λ j. scheduler.scale_up_key t j now) candidates

  abbrev allowed_target : S → Job → Option (List String) → Result (Option (List String))
  allowed_target t j none = ok none
  allowed_target t j (some target) = do
    allowed ← scheduler.can_resize_placement t j target
    ok (if allowed then some target else none)

  -- The first candidate that can grow by one replica, with its target.
  unfoldable pub first_growth : List Job → S → Simulator → Result (Option (Job × List String))
  first_growth [] t s = ok none
  first_growth (j ∷ rest) t s =
      let later = first_growth rest t s in
      elastic_resize_target setting.accounting s j (suc j.current_replicas) >>= λ target.
      allowed_target t j target >>= λ allowed. elim allowed [
        | none ↦ later
        | some ids ↦ ok (some (j, ids))
      ]

  -- The rounds of growth, each by one replica, of which as many as replicas are missing are enough.
  unfoldable pub grow :
      ℕ → List String → ℕ → Dict String ℕ → S × Simulator → Result (Dict String ℕ × S × Simulator)
  unfolding first_growth
  grow zero blocked now originals (t, s) = ok (originals, t, s)
  grow (suc fuel) blocked now originals (t, s) = prepare_pass scheduler now t s >>= λ prepared.
      growth_order blocked now prepared.0 prepared.1 >>= λ ordered.
      first_growth ordered prepared.0 prepared.1 >>= λ found. elim found [
        | none ↦ ok (originals, prepared.0, prepared.1)
        | some growth ↦ grow_job now originals growth.0 growth.1 prepared.1 >>= λ grown.
            grow fuel blocked now grown.0 (prepared.0, grown.1)
      ]

  -- `_resize_elastic_jobs`
  unfoldable pub resize_elastic_jobs : ℕ → S × Simulator → Result (S × Simulator)
  unfolding grow
  resize_elastic_jobs now (t, s) =
      if not scheduler.supports_elastic || is_empty setting.elastic_job_ids then ok (t, s) else (do
        jobs ← traverse (job_of s) s.running
        grown ← grow (suc (sum_of shortfall jobs)) (blocked_ids now s) now [] (t, s)
        finished ← finish_growth now (sort (λ a b. compare_text a.0 b.0) grown.0) grown.2
        ok (grown.1, finished))
