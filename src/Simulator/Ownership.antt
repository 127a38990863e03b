-- ===== src/Simulator/Ownership.antt =====
-- Who may use a GPU when jobs are placed and started (gpu_scheduler_lab/simulator/engine.py).
use gpu_scheduler_lab.Models.Topology.{topology_requirement_satisfied}
use gpu_scheduler_lab.Simulator.Start.{
  running_state, pair_distance_list, active_job, restarting_state, domain_count, start_again,
  record_topology_placement,
}
use gpu_scheduler_lab.Simulator.Lifecycle.{completion_delay, schedule_completion}
use gpu_scheduler_lab.Models.Cluster.Writes.{find_gpu-write, gpus-map_gpus}
use gpu_scheduler_lab.Models.Cluster.Allocation.{topologies_of, clone_cluster}
use gpu_scheduler_lab.Models.Job.{effective_priority, Job}
use gpu_scheduler_lab.Models.Events.{
  job_restart_complete, job_complete, scheduler_tick, event_order, EventType,
}
use gpu_scheduler_lab.Simulator.Reservations.{
  resumed_victim, withhold-writes, without_target, without_reservation, victims_of,
  reserved_elsewhere, free_victims, set_aside_free, release_preemption_reservation,
  placement_cluster,
}
use gpu_scheduler_lab.Simulator.{job_of, Simulator, schedule_aging_tick, push_event, Policy}
use gpu_scheduler_lab.Models.Cluster.{gpu_by_id, gpus, find_gpu, Cluster, free, Gpu}
use mathlib.Core.Option
use gpu_scheduler_lab.Prelude.{
  map, traverse, ltb, ◌&&◌, Result-cases, Bool, if◌then◌else◌, ◌>>=◌, ◌∙◌, >>=-eq-ok,
  text_eq_instance, is_empty, ◌∷◌, ◌+◌, ok-injective, sym, some_eq, leb, contains, subst, elem,
  arith, ap, Option-cases, Bool-cases, ◌≡◌, String, List, Option, inr, inl, ok, false, true, some,
  none, [], ℕ,
}

set_aside_free-occupied : (g : Gpu) → free (set_aside_free g) ≡ false
set_aside_free-occupied g = ground arith

mapped-occupied : (o : Option Gpu) {g : Gpu} → Option.map set_aside_free o ≡ some g → free g ≡ false
mapped-occupied none h = cc
mapped-occupied (some g) h = subst (λ x. free x ≡ false) (some_eq h) (set_aside_free-occupied g)

-- No GPU that a preemption has reserved for another job is free in the cluster on which a job is
-- placed.
pub placement_cluster_withholds :
    (s : Simulator) (j : Job) (k : String) {c : Cluster} {g : Gpu}
    → placement_cluster s j ≡ ok c
    → elem k (reserved_elsewhere s.preemption_reserved_gpus j.id) ≡ true
    → find_gpu k (gpus c) ≡ some g
    → free g ≡ false
unfolding placement_cluster
placement_cluster_withholds s j k {c} {g} h m at =
    let reserved : List String = reserved_elsewhere s.preemption_reserved_gpus j.id in
    elim (Bool-cases (is_empty reserved)) [
      | inl nothing ↦ absurd (not_empty reserved nothing m)
      | inr something ↦
          let clone : Cluster = clone_cluster true none s.cluster in
          let written = withhold-writes reserved clone {c' = c} (ground arith) in
          mapped-occupied (find_gpu k (gpus clone)) (
            sym (
              ap (λ d. find_gpu k (gpus d)) written
              ∙ ap (find_gpu k) (gpus-map_gpus _ clone)
              ∙ find_gpu-write (λ i. elem i reserved) k set_aside_free (gpus clone)
                  (λ x. keeps_id x)
              ∙ ap
                  (λ b.
                    if b
                    then Option.map set_aside_free (find_gpu k (gpus clone))
                    else find_gpu k (gpus clone))
                  m)
            ∙ at)
    ]
  where
    not_empty : (ids : List String) → is_empty ids ≡ true → elem k ids ≡ true → ⊥
    not_empty [] e f = ground arith
    not_empty (i ∷ ids) e f = ground arith

    keeps_id : (x : Gpu) → (set_aside_free x).id ≡ x.id
    keeps_id x = ground arith

pub push_event-cluster :
    (at : ℕ) (kind : EventType) (job_id : String) (generation : ℕ) (s : Simulator) {s' : Simulator}
    → push_event at kind job_id generation s ≡ ok s'
    → s'.cluster ≡ s.cluster
unfolding push_event
push_event-cluster at kind job_id generation s h = elim (Option-cases (event_order kind)) [
  | inl never ↦ absurd (ground arith)
  | inr (order, known) ↦ ground arith
]

schedule_aging_tick-cluster :
    (policy : Policy) (j : Job) (now : ℕ) (s : Simulator) {s' : Simulator}
    → schedule_aging_tick policy j now s ≡ ok s'
    → s'.cluster ≡ s.cluster
unfolding schedule_aging_tick
schedule_aging_tick-cluster policy j now s {s'} h = elim (Bool-cases policy.supports_preemption) [
  | inr never ↦ ground arith
  | inl ages ↦ elim (Bool-cases (leb 3 (effective_priority j now policy.aging_interval))) [
    | inl top ↦ ground arith
    | inr below ↦
        push_event-cluster (now + policy.aging_interval) scheduler_tick j.id 0 s {s' = s'}
          (ground arith)
  ]
]

free_victims-cluster :
    (policy : Policy) (now : ℕ) (ids : List String) (s : Simulator) {s' : Simulator}
    → free_victims policy now ids s ≡ ok s'
    → s'.cluster ≡ s.cluster
free_victims-cluster policy now [] s h = ap (λ x. x.cluster) (sym (ok-injective h))
free_victims-cluster policy now (victim_id ∷ rest) s {s'} h =
    let without : Simulator = without_target victim_id s in
    elim (Bool-cases (elem victim_id s.suspended_victims)) [
      | inr gone ↦ free_victims-cluster policy now rest without {s' = s'} (ground arith)
      | inl suspended ↦
          let (victim, known, more) =
            >>=-eq-ok (job_of s victim_id)
              (λ victim.
                schedule_aging_tick policy victim now (resumed_victim victim_id s)
                >>= free_victims policy now rest)
              {b = s'} (ground arith) in
          let (resumed, ticked, last) =
            >>=-eq-ok (schedule_aging_tick policy victim now (resumed_victim victim_id s))
              (free_victims policy now rest) more in
          free_victims-cluster policy now rest resumed last
          ∙ schedule_aging_tick-cluster policy victim now (resumed_victim victim_id s) ticked
    ]

pub release_preemption_reservation-cluster :
    (policy : Policy) (incoming_id : String) (now : ℕ) (s : Simulator) {s' : Simulator}
    → release_preemption_reservation policy incoming_id now s ≡ ok s'
    → s'.cluster ≡ s.cluster
unfolding release_preemption_reservation
release_preemption_reservation-cluster policy incoming_id now s {s'} h =
    elim (Bool-cases (contains incoming_id s.preemption_reserved_gpus)) [
      | inr none_reserved ↦ ground arith
      | inl reserved ↦
          free_victims-cluster policy now (victims_of incoming_id s.preemption_target_by_victim)
            (without_reservation incoming_id s) {s' = s'} (ground arith)
    ]

pub schedule_completion-cluster :
    (j : Job) (now : ℕ) (s : Simulator) {s' : Simulator}
    → schedule_completion j now s ≡ ok s'
    → s'.cluster ≡ s.cluster
unfolding schedule_completion
schedule_completion-cluster j now s h =
    let (delay, known, pushed) =
      >>=-eq-ok (completion_delay j)
        (λ delay. push_event (now + delay) job_complete j.id j.run_generation s) h in
    push_event-cluster (now + delay) job_complete j.id j.run_generation s pushed

pub record_topology_placement-cluster :
    (j : Job) (gpu_ids node_ids : List String) (s : Simulator) {s' : Simulator}
    → record_topology_placement j gpu_ids node_ids s ≡ ok s'
    → s'.cluster ≡ s.cluster
unfolding record_topology_placement
record_topology_placement-cluster j gpu_ids node_ids s {s'} h =
    elim (Result-cases
      (topology_requirement_satisfied j.topology_mode node_ids (topologies_of s.cluster.nodes))) [
        | inr (e, failed) ↦ absurd (ground arith)
        | inl (satisfied, tested) ↦ elim (Result-cases (domain_count s "rack" node_ids)) [
          | inr (e, failed) ↦ absurd (ground arith)
          | inl (racks, in_racks) ↦ elim (Result-cases (domain_count s "zone" node_ids)) [
            | inr (e, failed) ↦ absurd (ground arith)
            | inl (zones, in_zones) ↦ elim (Result-cases (traverse (gpu_by_id s.cluster) gpu_ids)) [
              | inr (e, failed) ↦ absurd (ground arith)
              | inl (selected, read) ↦
                  elim (Result-cases
                    (pair_distance_list s (map (λ (g : Gpu). g.node_id) selected))) [
                      | inr (e, failed) ↦ absurd (ground arith)
                      | inl (distances, measured) ↦ ground arith
                    ]
            ]
          ]
        ]
      ]

pub start_again-cluster :
    (now : ℕ) (node_ids : List String) (resumes : Bool) (j : Job) (s : Simulator) {s' : Simulator}
    → start_again now node_ids resumes j s ≡ ok s'
    → s'.cluster ≡ s.cluster
start_again-cluster now node_ids resumes j s {s'} h =
    elim (Bool-cases (resumes && ltb 0 j.restart_cost)) [
      | inl waits ↦
          push_event-cluster (now + j.restart_cost) job_restart_complete j.id j.run_generation
            (restarting_state now node_ids j s) {s' = s'} (ground arith)
      | inr runs ↦
          schedule_completion-cluster (active_job now j) now
            (running_state now node_ids resumes j s) {s' = s'} (ground arith)
    ]
