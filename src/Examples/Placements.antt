-- ===== src/Examples/Placements.antt =====
-- What the schedulers do with a small cluster.
use gpu_scheduler_lab.Schedulers.Backfill.Promises.{never_preempted}
use gpu_scheduler_lab.Schedulers.Packing.Packers.{by_spreading, pack-atomic}
use gpu_scheduler_lab.Schedulers.Topology.{score, pair_distances, candidate_placements}
use gpu_scheduler_lab.Models.Cluster.Allocation.{clone_cluster}
use gpu_scheduler_lab.Schedulers.Backfill.Promises.{backfill_place-no_delay}
use gpu_scheduler_lab.Schedulers.Topology.Placed.{place-Chosen, Chosen}
use gpu_scheduler_lab.Schedulers.Packing.Atomic.{spread_place_complete}
use gpu_scheduler_lab.Models.Elastic.{unit}
use gpu_scheduler_lab.Schedulers.Packing.{
  spread_rounds, spread_pass, fill, candidates_of, available_on, validate_atomic_placement,
  spread_place, fifo_place, binpack_place,
}
use gpu_scheduler_lab.Schedulers.Backfill.{
  admit, reserve, new_backfill, update_reservation, backfill_place, Reservation, Backfill,
}
use gpu_scheduler_lab.Models.Job.{remaining_duration, fresh_job, requested_gpu_count, Job}
use gpu_scheduler_lab.Models.Cluster.{Node, is_compatible, gpu_by_id, Gpu, eligible_gpus}
use gpu_scheduler_lab.Examples.{gpu_c, gpu_b, request, gpu_a, flexible, small_cluster, one_node}
use gpu_scheduler_lab.Schedulers.Topology.Place.{place_candidates, choose, place}
use gpu_scheduler_lab.Models.Topology.{
  topology_requirement_satisfied, none_mode, topology_domain, topology_distance,
}
use gpu_scheduler_lab.Prelude.{
  ◌-◌, ◌+◌, ◌⊎◌, ℕ, group_by, minimum, text_eq_instance, sort, length, sum_of, arith, ◌≤◌, ◌≢◌, ◌∷◌,
  ◌*◌, String, ◌≡◌, ◌<◌, List, ok, true, some, none, [], refl,
}

program : Unit {0}
unfolding eligible_gpus gpu_by_id is_compatible requested_gpu_count sort minimum group_by
    topology_requirement_satisfied topology_domain topology_distance clone_cluster
    candidate_placements pair_distances score choose place_candidates place fifo_place fill
    binpack_place spread_pass spread_rounds spread_place backfill_place admit remaining_duration
program = tt

abbrev pair : List String
pair = "a" ∷ "b" ∷ []

place_run : place small_cluster one_node ≡ ok (some pair)
unfolding program
place_run = refl

place-Chosen_example : Chosen small_cluster one_node pair
place-Chosen_example = place-Chosen small_cluster one_node {ids = pair} refl place_run

fifo_run : fifo_place small_cluster flexible ≡ ok (some pair)
unfolding program
fifo_run = refl

binpack_run : binpack_place small_cluster flexible ≡ ok (some ("c" ∷ "a" ∷ []))
unfolding program
binpack_run = refl

spread_run : spread_place small_cluster flexible ≡ ok (some ("a" ∷ "c" ∷ []))
unfolding program
spread_run = refl

abbrev offered : List Gpu
offered = gpu_a ∷ gpu_b ∷ gpu_c ∷ []

offered_run : eligible_gpus small_cluster flexible ≡ ok offered
unfolding program
offered_run = refl

enough_to_pack :
    (0 < requested_gpu_count flexible)
    × (requested_gpu_count flexible
        ≤ sum_of
            (λ (item : Node × List Gpu). length item.1)
            (candidates_of small_cluster flexible offered))
unfolding program
enough_to_pack = (omega arith, omega arith)

enough_to_spread :
    requested_gpu_count flexible ≤ sum_of length (available_on small_cluster flexible offered)
unfolding program
enough_to_spread = omega arith

spread_place_complete_example :
    (ids : List String) × (spread_place small_cluster flexible ≡ ok (some ids))
spread_place_complete_example =
    spread_place_complete small_cluster flexible offered refl offered_run enough_to_pack.0
      enough_to_spread

abbrev reserved : Reservation
reserved = record {
  job_id = "head";
  created_at = 0;
  estimated_start_time = 20 * unit;
  required_gpu_count = 3;
  gpu_model = none;
  allowed_gpu_models = [];
}

abbrev reserving : Backfill
reserving = record new_backfill { reservation = some reserved; head_job_id = some "head" }

abbrev beside : Backfill
beside = record reserving { allowed_backfills = "train" ∷ [] }

backfill_run : backfill_place reserving small_cluster one_node ≡ ok (some pair, beside)
unfolding program
backfill_run = refl

other_job : one_node.id ≢ reserved.job_id
other_job e = absurd (ground (arith, e, text_eq_instance.beq_iff one_node.id reserved.job_id))

abbrev ends : ℕ
ends = reserving.now + (one_node.duration - one_node.accumulated_runtime)

backfill_place-no_delay_example :
    ((ends ≤ reserved.estimated_start_time)
      × (backfill_place reserving small_cluster one_node ≡ ok (some pair, beside)))
    ⊎ ((reserved.estimated_start_time < ends)
        × (backfill_place reserving small_cluster one_node ≡ ok (none, reserving)))
backfill_place-no_delay_example =
    backfill_place-no_delay reserving small_cluster one_node reserved pair {end = ends} refl
      other_job place_run (never_preempted refl)

abbrev head : Job
head = fresh_job (record (request none_mode "root/a") { id = "head" })

abbrev sooner : Reservation
sooner = reserve head 0 (5 * unit)

sooner_run : (update_reservation unit head (some (5 * unit)) reserving).reservation ≡ some sooner
unfolding update_reservation
sooner_run = refl

pack-atomic_example : validate_atomic_placement flexible (some ("a" ∷ "c" ∷ [])) ≡ true
pack-atomic_example =
    pack-atomic by_spreading small_cluster flexible {placement = some ("a" ∷ "c" ∷ [])} spread_run
