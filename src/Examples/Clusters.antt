-- ===== src/Examples/Clusters.antt =====
-- What allocation and release do on a small cluster.
use gpu_scheduler_lab.Models.Cluster.Refusals.{allocate-ok_iff}
use gpu_scheduler_lab.Models.Cluster.Resized.{resize-owners}
use gpu_scheduler_lab.Models.Topology.{topology_requirement_satisfied}
use gpu_scheduler_lab.Models.Job.{requested_gpu_count, Job}
use gpu_scheduler_lab.Models.Cluster.Roundtrip.{release-allocate, IsConsistent}
use gpu_scheduler_lab.Models.Cluster.Ownership.{PlacementFacts, allocate-owners, WasOffered}
use gpu_scheduler_lab.Models.Cluster.Allocation.{
  check_growth, check_resize, resize, give_up, take_ownership, release_gpus, check_placement,
  assign, release, allocate,
}
use gpu_scheduler_lab.Models.Cluster.{
  gpus, find_gpu, eligible_gpus, is_compatible, gpu_by_id, Cluster,
}
use gpu_scheduler_lab.Examples.{flexible, small_cluster, one_node}
use mathlib.Core.Option
use gpu_scheduler_lab.Models.Cluster.Refines.{claim, operate-Transfer, owners_of, Transfer}
use gpu_scheduler_lab.Prelude.{
  ◌↔◌, is_ok, false, text_eq_instance, group_by, elem, if◌then◌else◌, sort, distinct, length, ◌∷◌,
  String, ◌≡◌, List, ok, true, [], refl,
}

program : Unit {0}
unfolding allocate check_placement assign gpu_by_id is_compatible requested_gpu_count eligible_gpus
    sort topology_requirement_satisfied release release_gpus group_by resize check_resize
    check_growth
program = tt

abbrev pair : List String
pair = "a" ∷ "b" ∷ []

abbrev taken_cluster : Cluster
unfolding program
taken_cluster = assign one_node pair small_cluster

abbrev taken_job : Job
taken_job = record one_node { allocated_gpu_ids = pair }

taken : allocate small_cluster one_node pair ≡ ok (taken_cluster, taken_job)
unfolding program
taken = refl

allocate-owners_example :
    (taken_job ≡ record one_node { allocated_gpu_ids = pair })
    × (length pair ≡ requested_gpu_count one_node)
    × (distinct pair ≡ true)
    × ((k : String)
        → find_gpu k (gpus taken_cluster) ≡ (
            if elem k pair
            then Option.map (take_ownership one_node) (find_gpu k (gpus small_cluster))
            else find_gpu k (gpus small_cluster)))
allocate-owners_example = allocate-owners small_cluster one_node pair taken

consistent : IsConsistent small_cluster
consistent = record {
  unique = (refl, (refl, (refl, tt)));
  idle = (λ e. refl, (λ e. refl, (λ e. refl, tt)));
}

release-allocate_example : release taken_cluster taken_job ≡ (ok tt, small_cluster, one_node)
release-allocate_example = release-allocate small_cluster one_node pair taken consistent refl

operate-Transfer_example :
    Transfer "train" pair [] (owners_of small_cluster) (owners_of taken_cluster)
operate-Transfer_example =
    operate-Transfer small_cluster one_node (claim pair) {made = (taken_cluster, taken_job)} taken

allocate-ok_iff_example :
    (is_ok (allocate small_cluster one_node pair) ≡ true)
    ↔ PlacementFacts small_cluster one_node pair
allocate-ok_iff_example = allocate-ok_iff small_cluster one_node pair

abbrev wide_job : Job
wide_job = record flexible { allocated_gpu_ids = pair }

abbrev moved : List String
moved = "a" ∷ "c" ∷ []

resized : (out : Cluster × Job) × (resize taken_cluster wide_job moved ≡ (ok tt, out.0, out.1))
unfolding program
resized = ((_, _), refl)

resize-owners_example :
    (resized.0.1 ≡ record wide_job { allocated_gpu_ids = moved })
    × ((k : String)
        → elem k moved ≡ true
        → elem k pair ≡ false
        → WasOffered taken_cluster wide_job k
          × (find_gpu k (gpus resized.0.0)
              ≡ Option.map (take_ownership wide_job) (find_gpu k (gpus taken_cluster))))
    × ((k : String)
        → elem k moved ≡ false
        → elem k pair ≡ true
        → find_gpu k (gpus resized.0.0) ≡ Option.map give_up (find_gpu k (gpus taken_cluster)))
    × ((k : String)
        → elem k moved ≡ elem k pair
        → find_gpu k (gpus resized.0.0) ≡ find_gpu k (gpus taken_cluster))
resize-owners_example =
    resize-owners taken_cluster wide_job moved {c' = resized.0.0} {j' = resized.0.1} resized.1
