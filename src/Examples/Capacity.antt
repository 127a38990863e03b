-- ===== src/Examples/Capacity.antt =====
-- What the simulator does where capacity is lost or grows, and with a job that arrives.
use gpu_scheduler_lab.Fairshare.Accounting.{demand_of, minimum_demand}
use gpu_scheduler_lab.Models.Topology.{topology_requirement_satisfied}
use gpu_scheduler_lab.Simulator.Reservations.{release_preemption_reservation}
use gpu_scheduler_lab.Queues.Hierarchy.{
  aggregate_of, is_entitled, fits_limits, aggregate_usage, ancestors, can_allocate, usage_of,
}
use gpu_scheduler_lab.Models.Elastic.{unit}
use gpu_scheduler_lab.Simulator.Capacity.{
  invalidate_reservations_for_node, lose_capacity_of, interrupt_for_capacity_loss,
  handle_fleet_event, capacity_loss,
}
use gpu_scheduler_lab.Models.Cluster.Allocation.{release_gpus, release, take_ownership}
use gpu_scheduler_lab.Examples.{gpu_a, two_queues, small_cluster, one_node, flexible}
use gpu_scheduler_lab.Simulator.Resizing.{select_growth, elastic_resize_target}
use gpu_scheduler_lab.Simulator.Lifecycle.{accrue_productive_work, remove_runnable_demand}
use gpu_scheduler_lab.Simulator.Arrivals.{
  capacity_snapshots, add_runnable_demand, controller_of, arrive, Setting,
}
use gpu_scheduler_lab.Simulator.{schedule_aging_tick, push_event, Simulator}
use gpu_scheduler_lab.Models.Job.{
  productive_rate, total_productive_work, effective_priority, remaining_duration,
  preferred_gpu_count, minimum_gpu_count, requested_gpu_count, running, Job,
}
use gpu_scheduler_lab.Models.Cluster.{is_compatible, gpu_by_id, eligible_gpus, Gpu}
use gpu_scheduler_lab.Prelude.{
  minimum, group_by, sort, ◌∙◌, text_eq_instance, sym, lookup, ap, ◌⊎◌, ◌-◌, arith, ◌<◌, some_eq,
  ◌∷◌, ◌==◌, ◌*◌, String, ◌≡◌, ℕ, List, Bool-cases, inr, inl, ok, false, true, some, none, [], refl,
}
use gpu_scheduler_lab.Simulator.Capacity.Lost.{capacity_loss-IsVacant, IsKeyed, IsHeld}
use gpu_scheduler_lab.Simulator.Capacity.Interrupted.{
  interrupt_for_capacity_loss-IsInterrupted, IsInterrupted,
}
use gpu_scheduler_lab.Simulator.Capacity.Handled.{handle_fleet_event-states, settle}
use gpu_scheduler_lab.Simulator.Capacity.Steps.{IsVacant, fleet_states}
use gpu_scheduler_lab.Simulator.Arrivals.Arrived.{arrive-admission, IsEnqueued, IsRejected}
use gpu_scheduler_lab.Simulator.Arrivals.Demand.{remove-add_runnable_demand}
use gpu_scheduler_lab.Simulator.Resizing.Target.{
  elastic_resize_target-IsGrowth, IsGrowth, IsOffered,
}
use gpu_scheduler_lab.Queues.Hierarchy.{climb}
use gpu_scheduler_lab.Fleet.{collect, schedulable_node_snapshots, node_fail}
use gpu_scheduler_lab.Models.Events.{Event, job_arrival}
use gpu_scheduler_lab.Admission.{
  feasible_gpu_sets, AdmissionDecision, AdmissionController, decide, quota_aware,
}
use gpu_scheduler_lab.Examples.Simulation.{busy, busy_cluster, held, pair, policy, state_of}

program : Unit {0}
unfolding push_event schedule_aging_tick accrue_productive_work release_preemption_reservation
    remove_runnable_demand interrupt_for_capacity_loss capacity_loss lose_capacity_of
    invalidate_reservations_for_node handle_fleet_event capacity_snapshots add_runnable_demand
    arrive select_growth elastic_resize_target gpu_by_id is_compatible release release_gpus
    eligible_gpus requested_gpu_count minimum_gpu_count preferred_gpu_count remaining_duration
    effective_priority total_productive_work productive_rate topology_requirement_satisfied sort
    decide feasible_gpu_sets minimum_demand demand_of can_allocate fits_limits is_entitled ancestors
    climb aggregate_usage aggregate_of schedulable_node_snapshots collect group_by minimum
program = tt

abbrev pub noon : ℕ
noon = 5 * unit

lost : (s' : Simulator) × (capacity_loss "left" noon node_fail busy ≡ ok s')
unfolding program
lost = (_, refl)

busy-IsKeyed : IsKeyed busy
busy-IsKeyed id j found = elim (Bool-cases (id == "train")) [
  | inl here ↦
      let same : held ≡ j = some_eq (ground arith) in
      ap (λ k. k.id) (sym same) ∙ sym ((text_eq_instance.beq_iff id "train").0 here)
  | inr other ↦ absurd (ground arith)
]

abbrev taken_gpu : Gpu
taken_gpu = take_ownership one_node gpu_a

train-IsHeld : IsHeld "a" taken_gpu "train" busy
train-IsHeld = record { job = held; known = refl; holds = refl; found = refl }

capacity_loss-IsVacant_example : IsVacant "a" lost.0.cluster
capacity_loss-IsVacant_example =
    capacity_loss-IsVacant "left" noon node_fail busy "a" "train" {g = taken_gpu} {s' = lost.0}
      busy-IsKeyed refl refl refl refl train-IsHeld lost.1

interrupted : (s' : Simulator) × (interrupt_for_capacity_loss held noon node_fail busy ≡ ok s')
unfolding program
interrupted = (_, refl)

interrupt_for_capacity_loss-IsInterrupted_example : IsInterrupted held busy interrupted.0
interrupt_for_capacity_loss-IsInterrupted_example =
    interrupt_for_capacity_loss-IsInterrupted held noon node_fail busy {s' = interrupted.0}
      interrupted.1

handled : (s' : Simulator) × (handle_fleet_event policy node_fail "left" noon busy ≡ ok s')
unfolding program
handled = (_, refl)

handle_fleet_event-states_example :
    fleet_states handled.0.cluster ≡ settle node_fail "left" (fleet_states busy_cluster)
handle_fleet_event-states_example =
    handle_fleet_event-states policy node_fail "left" noon busy {s' = handled.0} handled.1

abbrev controller : AdmissionController
controller = record {
  hierarchy = two_queues;
  cluster = small_cluster;
  accounting = record { model_weights = [] };
  mode = quota_aware;
}

abbrev pub setting : Setting
setting = record {
  policy = policy;
  admission = some controller;
  accounting = record { model_weights = [] };
  fleet_events = [];
  elastic_job_ids = [];
}

abbrev pub arrival : Event
arrival = record {
  time = noon;
  order = 1;
  sequence = 1;
  event_type = job_arrival;
  job_id = "train";
  generation = 0;
}

abbrev pub expected : Simulator
expected = state_of small_cluster one_node [] []

arrived : (s' : Simulator) × (arrive setting arrival noon expected ≡ ok s')
unfolding program
arrived = (_, refl)

arrive-admission_example :
    (d : AdmissionDecision) × (decide
        (controller_of controller expected)
        one_node
        (capacity_snapshots setting noon expected)
      ≡ ok d)
    × (((d.admitted ≡ true) × IsEnqueued noon one_node expected arrived.0)
        ⊎ ((d.admitted ≡ false) × IsRejected d.reason one_node expected arrived.0))
arrive-admission_example =
    arrive-admission setting controller arrival noon expected {j = one_node} {s' = arrived.0} refl
      refl arrived.1

abbrev snapshots : List (List String)
snapshots = ("left" ∷ "right" ∷ []) ∷ []

remove-add_runnable_demand_example :
    let s' =
      remove_runnable_demand one_node
        (add_runnable_demand setting.accounting one_node snapshots expected) in
    ((k : String) → usage_of s'.direct_runnable_demand k ≡ usage_of [] k)
    × (lookup "train" s'.runnable_demand_by_job ≡ none)
remove-add_runnable_demand_example =
    remove-add_runnable_demand setting.accounting one_node snapshots expected refl tt tt

abbrev wide : Job
wide = record flexible {
  spec = record flexible.spec {
    elastic = some (record {
      min_replicas = 1;
      preferred_replicas = 3;
      max_replicas = 3;
      scaling_efficiency = [];
    });
  };
  status = running;
  allocated_gpu_ids = pair;
  last_start_time = some 0;
  current_replicas = 2;
}

abbrev stretched : Simulator
stretched = record (state_of busy_cluster wide [] ("train" ∷ [])) { preemption_reserved_gpus = [] }

abbrev grown : List String
grown = "a" ∷ "b" ∷ "c" ∷ []

targeted : elastic_resize_target setting.accounting stretched wide 3 ≡ ok (some grown)
unfolding program
targeted = refl

elastic_resize_target-IsGrowth_example :
    (eligible : List Gpu) × (eligible_gpus busy_cluster wide ≡ ok eligible)
    × (2 < 3)
    × IsGrowth busy_cluster wide (3 - 2) (IsOffered stretched wide eligible) grown
elastic_resize_target-IsGrowth_example =
    elastic_resize_target-IsGrowth setting.accounting stretched wide 3 {target = grown} targeted
