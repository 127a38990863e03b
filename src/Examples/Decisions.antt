-- ===== src/Examples/Decisions.antt =====
-- What the fair-share scheduler, the fleet's timeline and the admission of jobs decide.
use gpu_scheduler_lab.Allocator.Quota.{place-FitsLimits, FitsLimits}
use gpu_scheduler_lab.Queues.Resource.{ResourceVector}
use gpu_scheduler_lab.Fleet.Exact.{
  schedulable_node_snapshots-Passes, schedulable_node_snapshots_complete, Passes,
}
use gpu_scheduler_lab.Examples.{request, two_queues, small_cluster, one_node, observed}
use gpu_scheduler_lab.Allocator.Boundary.{can_reclaim_allocation-SparesGuarantee, SparesGuarantee}
use gpu_scheduler_lab.Admission.Quota.{decide-FitsQuota, FitsQuota}
use gpu_scheduler_lab.Admission.Decisions.{decide-IsRunnable, IsRunnable}
use gpu_scheduler_lab.Schedulers.Topology.Place
use gpu_scheduler_lab.Schedulers.Topology.Place.{place_candidates, choose}
use gpu_scheduler_lab.Schedulers.Topology.{candidate_placements, pair_distances, score}
use gpu_scheduler_lab.Allocator.Placing
use gpu_scheduler_lab.Allocator.Placing.{place_with_borrowing, place_guaranteed}
use gpu_scheduler_lab.Allocator.Reclaim.{
  fits_remaining_entitlement, can_reclaim_placement, reclaim_boundary, has_surplus,
  boundary_has_surplus, can_reclaim, can_reclaim_allocation,
}
use gpu_scheduler_lab.Fairshare.Accounting.{allocation, minimum_demand}
use gpu_scheduler_lab.Queues.Hierarchy.{is_entitled, fits_limits, climb, ancestors, can_allocate}
use gpu_scheduler_lab.Models.Cluster.{Gpu, gpu_by_id, is_compatible, eligible_gpus}
use gpu_scheduler_lab.Models.Cluster.Allocation.{clone_cluster}
use gpu_scheduler_lab.Models.Job.{fresh_job, Job, requested_gpu_count, minimum_gpu_count}
use gpu_scheduler_lab.Models.Topology.{
  none_mode, topology_requirement_satisfied, topology_domain, topology_distance,
}
use gpu_scheduler_lab.Fleet.Exact.{settles}
use gpu_scheduler_lab.Fleet.{
  future_events, initially_active, set_equal, node_recover, node_fail, gpu_nodes, FleetEvent,
  collect, schedulable_node_snapshots,
}
use gpu_scheduler_lab.Admission.{
  admitted_decision, quota_aware, AdmissionController, feasible_gpu_sets, decide,
}
use gpu_scheduler_lab.Prelude.{
  ◌⊎◌, text_eq_instance, group_by, ◌≡◌, ◌∷◌, minimum, String, sort, elem, any, List, All, ok, false,
  true, some, none, [], refl,
}

program : Unit {0}
unfolding climb ancestors can_allocate fits_limits is_entitled sort minimum group_by gpu_by_id
    is_compatible requested_gpu_count minimum_gpu_count eligible_gpus topology_requirement_satisfied
    topology_domain topology_distance clone_cluster candidate_placements pair_distances score choose
    place_candidates Place.place allocation minimum_demand place_with_borrowing Placing.place
    place_guaranteed fits_remaining_entitlement can_reclaim_placement reclaim_boundary has_surplus
    boundary_has_surplus can_reclaim can_reclaim_allocation collect schedulable_node_snapshots
    feasible_gpu_sets decide
program = tt

abbrev pair : List String
pair = "a" ∷ "b" ∷ []

placed : Placing.place Place.place observed small_cluster one_node ≡ ok (some pair)
unfolding program
placed = refl

place-FitsLimits_example :
    (demand : ResourceVector) × (allocation observed.accounting one_node small_cluster pair
      ≡ ok demand)
    × FitsLimits observed "root/a" demand
place-FitsLimits_example =
    place-FitsLimits Place.place observed small_cluster one_node {ids = pair} placed

placed_guaranteed : place_guaranteed Place.place observed small_cluster one_node ≡ ok (some pair)
unfolding program
placed_guaranteed = refl

reclaimed : can_reclaim_placement observed one_node pair (some ("root/a" ∷ [])) ≡ ok true
unfolding program
reclaimed = refl

boundary_run : reclaim_boundary two_queues "root/b" "root/a" ≡ ok (some ("root/b", "root/a"))
unfolding program
boundary_run = refl

abbrev victim : Job
victim = record (fresh_job (request none_mode "root/b")) {
  allocated_gpu_ids = "a" ∷ "b" ∷ "c" ∷ [];
}

spared : can_reclaim_allocation observed victim one_node pair false ≡ ok true
unfolding program
spared = refl

can_reclaim_allocation-SparesGuarantee_example :
    SparesGuarantee observed small_cluster victim one_node pair
can_reclaim_allocation-SparesGuarantee_example =
    can_reclaim_allocation-SparesGuarantee observed small_cluster victim one_node pair refl spared

legal : can_reclaim observed victim one_node ≡ ok true
unfolding program
legal = refl

above : elem "root" (ancestors two_queues "root/b") ≡ true
unfolding program
above = refl

-- The left node fails, and recovers later.
abbrev failure : FleetEvent
failure = record { time = 5; event_type = node_fail; node_id = "left" }

abbrev recovery : FleetEvent
recovery = record { time = 9; event_type = node_recover; node_id = "left" }

abbrev events : List FleetEvent
events = recovery ∷ failure ∷ []

snapshots_run :
    schedulable_node_snapshots small_cluster events none
    ≡ ("left" ∷ "right" ∷ []) ∷ ("right" ∷ []) ∷ ("right" ∷ "left" ∷ []) ∷ []
unfolding program
snapshots_run = refl

schedulable_node_snapshots-Passes_example :
    All
      (λ s.
        (s ≡ initially_active small_cluster)
        ⊎ Passes
            (gpu_nodes small_cluster)
            (initially_active small_cluster)
            (future_events none events)
            s)
      (schedulable_node_snapshots small_cluster events none)
schedulable_node_snapshots-Passes_example =
    schedulable_node_snapshots-Passes small_cluster events none

Passes-right :
    Passes
      (gpu_nodes small_cluster)
      (initially_active small_cluster)
      (future_events none events)
      ("right" ∷ [])
unfolding program
Passes-right = settles ("left" ∷ "right" ∷ []) failure (recovery ∷ []) refl

schedulable_node_snapshots_complete_example :
    any (set_equal ("right" ∷ [])) (schedulable_node_snapshots small_cluster events none) ≡ true
schedulable_node_snapshots_complete_example =
    schedulable_node_snapshots_complete small_cluster events none ("right" ∷ []) Passes-right

abbrev controller : AdmissionController
controller = record {
  hierarchy = two_queues;
  cluster = small_cluster;
  accounting = record { model_weights = [] };
  mode = quota_aware;
}

abbrev node_sets : List (List String)
node_sets = ("left" ∷ "right" ∷ []) ∷ []

decided : decide controller one_node node_sets ≡ ok admitted_decision
unfolding program
decided = refl

decide-IsRunnable_example : (gpu_set : List Gpu) × IsRunnable controller one_node node_sets gpu_set
decide-IsRunnable_example = decide-IsRunnable controller one_node node_sets decided refl

decide-FitsQuota_example : FitsQuota controller one_node node_sets
decide-FitsQuota_example = decide-FitsQuota controller one_node node_sets refl decided refl
