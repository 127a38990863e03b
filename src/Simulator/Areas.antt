-- ===== src/Simulator/Areas.antt =====
-- What the simulator integrates over time and its timelines
-- (gpu_scheduler_lab/simulator/engine.py). Fragmentation is integrated as an exact quotient.
pub mod Bounds
use gpu_scheduler_lab.Queues.Resource.{ResourceVector}
use gpu_scheduler_lab.Metrics.Fragmentation.{fragmentation_snapshot}
use gpu_scheduler_lab.Queues.Spec.{QueueSpec}
use gpu_scheduler_lab.Allocator.Placing.{QueueSnapshot}
use gpu_scheduler_lab.Simulator.{job_of, Simulator}
use gpu_scheduler_lab.Queues.Hierarchy.{aggregate_usage, Usage, QueueHierarchy}
use gpu_scheduler_lab.Models.Job.{Job}
use gpu_scheduler_lab.Models.Cluster.{
  active_nodes, occupied, total_gpu_count, active_gpus, Gpu, Cluster,
}
use gpu_scheduler_lab.Prelude.{
  add_fraction, any, key_error, text_eq_instance, sum_of, not, lookup, ◌+◌, ◌++◌, traverse,
  or_raise, min, max_fraction, max, get_or, elem, ◌>>=◌, nat_eq, ltb, length, leb, is_empty, insert,
  filter, Bool, ◌∷◌, ◌*◌, map, if◌then◌else◌, count_of, Result, Dict, String, Option, List,
  Fraction, ok, some, none, [], ℕ,
}

-- The integrals, and the peak of the utilization.
pub record Areas : Type 0 where
  pub busy_gpu_time : ℕ
  pub gpu_capacity_area : ℕ
  pub memory_capacity_area : ℕ
  pub active_node_area : ℕ
  pub revocable_gpu_time : ℕ
  pub stable_gpu_time : ℕ
  pub memory_area : ℕ
  pub node_area : ℕ
  pub count_fragmentation_area : Fraction
  pub memory_fragmentation_area : Fraction
  pub peak_gpu_utilization : Fraction
  pub queue_gpu_area : Dict String ℕ
  pub queue_borrowed_area : Dict String ℕ
  pub queue_peak : Dict String ℕ
  pub queue_entitled_demand_area : Dict String ℕ
  pub queue_satisfied_entitlement_area : Dict String ℕ
  pub elastic_replica_area : Dict String ℕ
  pub elastic_below_preferred : Dict String ℕ
  pub elastic_at_preferred : Dict String ℕ

abbrev pub revocable_node_ids : Cluster → List String
revocable_node_ids c = map (λ n. n.id) (filter (λ n. n.revocable) c.nodes)

abbrev pub is_revocable : Cluster → Gpu → Bool
is_revocable c g = elem g.node_id (revocable_node_ids c)

abbrev pub busy_count : Cluster → ℕ
busy_count c = count_of occupied (active_gpus c)

abbrev scale_fraction : Fraction → ℕ → Fraction
scale_fraction f delta = record { num = f.num * delta; den = f.den }

-- `max(self._peak_gpu_utilization, busy / len(active_gpus))`, where there is an active GPU
abbrev pub raise_peak : Cluster → Fraction → Fraction
raise_peak c peak =
    if is_empty (active_gpus c)
    then peak
    else max_fraction peak (record { num = busy_count c; den = length (active_gpus c) })

-- The integrals of the cluster's state.
abbrev pub integrate_cluster : Cluster → ℕ → Areas → Areas
integrate_cluster c delta a =
    let active = active_gpus c in
    let fragmentation = fragmentation_snapshot c in
    record a {
      busy_gpu_time = a.busy_gpu_time + busy_count c * delta;
      gpu_capacity_area = a.gpu_capacity_area + length active * delta;
      memory_capacity_area =
          a.memory_capacity_area + sum_of (λ g. g.memory_capacity_gb) active * delta;
      active_node_area = a.active_node_area + length (active_nodes c) * delta;
      revocable_gpu_time = a.revocable_gpu_time + count_of (is_revocable c) active * delta;
      stable_gpu_time = a.stable_gpu_time + count_of (λ g. not (is_revocable c g)) active * delta;
      memory_area = a.memory_area + sum_of (λ g. g.allocated_memory_gb) active * delta;
      node_area = a.node_area + count_of (λ n. any occupied n.gpus) (active_nodes c) * delta;
      count_fragmentation_area =
          add_fraction a.count_fragmentation_area (scale_fraction fragmentation.0 delta);
      memory_fragmentation_area =
          add_fraction a.memory_fragmentation_area (scale_fraction fragmentation.1 delta);
      peak_gpu_utilization = raise_peak c a.peak_gpu_utilization;
    }

-- `d[key] = d.get(key, 0.0) + amount`
abbrev pub accumulate : String → ℕ → Dict String ℕ → Dict String ℕ
accumulate key amount d = insert key (get_or key 0 d + amount) d

-- What a queue with a guarantee of GPU units is entitled to and gets.
abbrev pub integrate_entitlement : String → QueueSpec → ℕ → ResourceVector → ℕ → Areas → Areas
integrate_entitlement queue_id spec usage demand delta a =
    let entitled = min spec.guaranteed.gpu_units demand.gpu_units in
    if not spec.guaranteed_dimensions.has_units then a else record a {
      queue_entitled_demand_area =
          accumulate queue_id (entitled * delta) a.queue_entitled_demand_area;
      queue_satisfied_entitlement_area =
          accumulate queue_id (min usage entitled * delta) a.queue_satisfied_entitlement_area;
    }

abbrev pub integrate_usage : String → QueueSnapshot → ℕ → Areas → Areas
integrate_usage queue_id snapshot delta a = record a {
  queue_gpu_area = accumulate queue_id (snapshot.gpu_units * delta) a.queue_gpu_area;
  queue_borrowed_area = accumulate queue_id (snapshot.borrowed_usage * delta) a.queue_borrowed_area;
  queue_peak =
      insert queue_id (max (get_or queue_id 0 a.queue_peak) snapshot.gpu_units) a.queue_peak;
}

-- The loop over the queues of a snapshot.
unfoldable pub integrate_queues :
    QueueHierarchy → Usage → ℕ → Dict String QueueSnapshot → Areas → Result Areas
integrate_queues h demand delta [] a = ok a
integrate_queues h demand delta ((queue_id, snapshot) ∷ rest) a = do
  spec ← or_raise (lookup queue_id h.specs) (key_error queue_id)
  wanted ← or_raise (lookup queue_id demand) (key_error queue_id)
  integrate_queues h demand delta rest (
      integrate_entitlement queue_id spec snapshot.gpu_units wanted delta
        (integrate_usage queue_id snapshot delta a))

abbrev pub integrate_job : ℕ → Job → Areas → Areas
integrate_job delta j a = elim j.elastic [
  | none ↦ a
  | some e ↦
      let grown : Areas = record a {
        elastic_replica_area = accumulate j.id (j.current_replicas * delta) a.elastic_replica_area;
      } in
      if ltb j.current_replicas e.preferred_replicas
      then record grown {
        elastic_below_preferred = accumulate j.id delta a.elastic_below_preferred;
      }
      else record grown { elastic_at_preferred = accumulate j.id delta a.elastic_at_preferred }
]

abbrev pub integrate_jobs : ℕ → List Job → Areas → Areas
integrate_jobs delta [] a = a
integrate_jobs delta (j ∷ rest) a = integrate_jobs delta rest (integrate_job delta j a)

-- A scheduler with queues: its hierarchy, and the snapshot that it takes.
abbrev pub QueueView : Type 0
QueueView = Option (QueueHierarchy × Dict String QueueSnapshot)

abbrev pub integrate_view : QueueView → Usage → ℕ → Areas → Result Areas
integrate_view view direct_demand delta a = elim view [
  | none ↦ ok a
  | some queues ↦ aggregate_usage queues.0 direct_demand >>= λ demand.
      integrate_queues queues.0 demand delta queues.1 a
]

-- `_integrate_state`
unfoldable pub integrate_state : QueueView → ℕ → Simulator → Areas → Result Areas
unfolding integrate_queues
integrate_state view delta s a = if nat_eq delta 0 then ok a else (do
  queues ← integrate_view view s.direct_runnable_demand delta (integrate_cluster s.cluster delta a)
  jobs ← traverse (job_of s) s.running
  ok (integrate_jobs delta jobs queues))

-- `timeline[::2]`
abbrev pub every_other {ℓ} : {A : Type ℓ} → List A → List A
every_other [] = []
every_other (x ∷ []) = x ∷ []
every_other (x ∷ y ∷ rest) = x ∷ every_other rest

-- `_append_timeline`
unfoldable pub append_timeline {ℓ} : {A : Type ℓ} → List A → A → List A
append_timeline timeline point =
    (if leb 1024 (length timeline) then every_other timeline else timeline) ++ point ∷ []

pub record FleetPoint : Type 0 where
  pub time : ℕ
  pub schedulable_gpus : ℕ
  pub active_gpus : ℕ
  pub revocable_gpus : ℕ

pub record Timelines : Type 0 where
  pub queue_timeline : List (ℕ × Dict String QueueSnapshot)
  pub elastic_timeline : List (ℕ × Dict String ℕ)
  pub fleet_timeline : List FleetPoint

abbrev pub fleet_point : ℕ → Cluster → FleetPoint
fleet_point now c = record {
  time = now;
  schedulable_gpus = total_gpu_count c;
  active_gpus = length (active_gpus c);
  revocable_gpus = count_of (is_revocable c) (active_gpus c);
}

abbrev pub append_queues : ℕ → QueueView → Timelines → Timelines
append_queues now view t = elim view [
  | none ↦ t
  | some queues ↦ record t { queue_timeline = append_timeline t.queue_timeline (now, queues.1) }
]

abbrev pub append_elastic : ℕ → List Job → Timelines → Timelines
append_elastic now jobs t = if is_empty jobs then t else record t {
  elastic_timeline =
      append_timeline t.elastic_timeline (now, map (λ j. (j.id, j.current_replicas)) jobs);
}

-- `_record_phase3_timeline`, after the scheduler has refreshed its usage
unfoldable pub record_phase3_timeline :
    QueueView → List String → ℕ → Simulator → Timelines → Result Timelines
unfolding append_timeline
record_phase3_timeline view elastic_job_ids now s t = do
  jobs ← traverse (job_of s) elastic_job_ids
  let appended : Timelines = append_elastic now jobs (append_queues now view t)
  ok (record appended {
    fleet_timeline = append_timeline appended.fleet_timeline (fleet_point now s.cluster);
  })
