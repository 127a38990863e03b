-- ===== src/Simulator/Reservations.antt =====
-- GPUs that a preemption keeps for the job it was made for
-- (gpu_scheduler_lab/simulator/engine.py).
use gpu_scheduler_lab.Models.Cluster.Roundtrip.{All-refl}
use gpu_scheduler_lab.Models.Cluster.Writes.{map_gpus_congr, map_gpus-map_gpus, map_gpus_id_on}
use gpu_scheduler_lab.Models.Job.{Job}
use gpu_scheduler_lab.Models.Cluster.Allocation.{update_gpu, map_gpus, clone_cluster, write_where}
use gpu_scheduler_lab.Simulator.{without_id, schedule_aging_tick, job_of, Simulator, Policy}
use gpu_scheduler_lab.Models.Cluster.{gpus, gpu_by_id, free, Cluster, Gpu}
use gpu_scheduler_lab.Prelude.{
  Result-cases, ◌++◌, ◌∙◌, ok-injective, text_eq_instance, sym, arith, ◌>>=◌, ◌==◌, remove,
  contains, ◌≡◌, ◌∷◌, not, is_empty, flat_map, filter, elem, keys, if◌then◌else◌, dedup, Result,
  String, List, Dict, inr, inl, ok, true, some, none, [], ℕ,
}

abbrev pub without_target : String → Simulator → Simulator
without_target victim_id s = record s {
  preemption_target_by_victim = remove victim_id s.preemption_target_by_victim;
}

-- A victim that may be placed again.
abbrev pub resumed_victim : String → Simulator → Simulator
resumed_victim victim_id s = record (without_target victim_id s) {
  suspended_victims = without_id victim_id s.suspended_victims;
  pending = s.pending ++ victim_id ∷ [];
}

-- The loop over the victims of a reservation.
abbrev pub free_victims : Policy → ℕ → List String → Simulator → Result Simulator
free_victims policy now [] s = ok s
free_victims policy now (victim_id ∷ rest) s =
    let others = free_victims policy now rest (without_target victim_id s) in
    if elem victim_id s.suspended_victims
    then (do
      victim ← job_of s victim_id
      resumed ← schedule_aging_tick policy victim now (resumed_victim victim_id s)
      free_victims policy now rest resumed)
    else others

abbrev pub victims_of : String → Dict String String → List String
victims_of incoming_id targets = keys (filter (λ item. item.1 == incoming_id) targets)

abbrev pub without_reservation : String → Simulator → Simulator
without_reservation incoming_id s = record s {
  preemption_reserved_gpus = remove incoming_id s.preemption_reserved_gpus;
  preemption_reservation_reason = remove incoming_id s.preemption_reservation_reason;
  preemption_reclaim_entitlements = remove incoming_id s.preemption_reclaim_entitlements;
}

-- `_release_preemption_reservation`
unfoldable pub release_preemption_reservation : Policy → String → ℕ → Simulator → Result Simulator
release_preemption_reservation policy incoming_id now s =
    if not (contains incoming_id s.preemption_reserved_gpus)
    then ok s
    else free_victims policy now (victims_of incoming_id s.preemption_target_by_victim)
        (without_reservation incoming_id s)

-- The GPUs that are reserved for other jobs.
abbrev pub reserved_elsewhere : Dict String (List String) → String → List String
reserved_elsewhere reserved job_id =
    dedup (flat_map (λ item. item.1) (filter (λ item. not (item.0 == job_id)) reserved))

abbrev pub set_aside : Gpu → Gpu
set_aside g = record g { owner_job_id = some "__preemption_reservation__" }

abbrev pub set_aside_free : Gpu → Gpu
set_aside_free g = if free g then set_aside g else g

-- The loop that gives the free ones among them an owner. A GPU has one id, so that looking it up
-- and writing it are one step.
unfoldable pub withhold : List String → Cluster → Result Cluster
withhold [] c = ok c
withhold (gpu_id ∷ rest) c = do
  g ← gpu_by_id c gpu_id
  withhold rest (update_gpu gpu_id set_aside_free c)

-- `_placement_cluster`
unfoldable pub placement_cluster : Simulator → Job → Result Cluster
unfolding withhold
placement_cluster s j =
    let reserved = reserved_elsewhere s.preemption_reserved_gpus j.id in
    if is_empty reserved
    then ok s.cluster
    else withhold reserved (clone_cluster true none s.cluster)

set_aside_twice :
    (i : String) (ids : List String) (g : Gpu)
    → write_where
        (λ x. elem x.id ids)
        set_aside_free
        (write_where (λ x. x.id == i) set_aside_free g)
      ≡ write_where (λ x. elem x.id (i ∷ ids)) set_aside_free g
set_aside_twice i ids g = ground arith

pub withhold-writes :
    (ids : List String) (c : Cluster) {c' : Cluster}
    → withhold ids c ≡ ok c'
    → c' ≡ map_gpus (write_where (λ g. elem g.id ids) set_aside_free) c
unfolding withhold
withhold-writes [] c h = sym (ok-injective h) ∙ sym (map_gpus_id_on _ c (All-refl (gpus c)))
withhold-writes (i ∷ ids) c {c'} h = elim (Result-cases (gpu_by_id c i)) [
  | inr (e, failed) ↦ absurd (ground arith)
  | inl (g, found) ↦
      let rest : withhold ids (update_gpu i set_aside_free c) ≡ ok c' = ground arith in
      withhold-writes ids (update_gpu i set_aside_free c) rest
      ∙ map_gpus-map_gpus _ _ c
      ∙ map_gpus_congr _ _ c (set_aside_twice i ids)
]
