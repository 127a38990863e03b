-- ===== src/Examples.antt =====
-- Small clusters, jobs and queues, on which the other examples run the program.
pub mod Clusters
pub mod Placements
pub mod Hierarchies
pub mod Decisions
pub mod Simulation
pub mod Metrics
pub mod Capacity
pub mod Passes
use gpu_scheduler_lab.Queues.Resource.{no_resources, ResourceVector}
use gpu_scheduler_lab.Queues.Spec.{plain_queue, QueueSpec}
use gpu_scheduler_lab.Models.Elastic.{unit}
use gpu_scheduler_lab.Models.Accelerator.{SelectionPolicy, gpu, nvidia}
use gpu_scheduler_lab.Queues.Hierarchy.{Usage, QueueHierarchy}
use gpu_scheduler_lab.Models.Topology.{require_same_node, none_mode, Labels, TopologyMode}
use gpu_scheduler_lab.Models.Job.{training, normal, fresh_job, JobSpec, Job}
use gpu_scheduler_lab.Models.Cluster.{Node, Gpu, Cluster}
use gpu_scheduler_lab.Allocator.{FairShare}
use gpu_scheduler_lab.Prelude.{
  ltb, pos, ◌∷◌, Option, ◌*◌, String, List, false, true, some, none, [], ℕ,
}

abbrev gb : ℕ → ℕ
gb n = n * unit

abbrev idle_gpu : String → String → Gpu
idle_gpu id node_id = record {
  id = id;
  node_id = node_id;
  memory_capacity_gb = gb 40;
  model = "a100";
  vendor = nvidia;
  kind = gpu;
  runtime_profiles = [];
  capabilities = [];
  accelerator_metadata_inferred = false;
  allocated_memory_gb = 0;
  owner_job_id = none;
}

abbrev open_node : String → Labels → List Gpu → Node
open_node id topology gs = record {
  id = id;
  gpus = gs;
  schedulable = true;
  topology = topology;
  revocable = false;
  draining = false;
  available = true;
}

abbrev pub gpu_a : Gpu
gpu_a = idle_gpu "a" "left"

abbrev pub gpu_b : Gpu
gpu_b = idle_gpu "b" "left"

abbrev pub gpu_c : Gpu
gpu_c = idle_gpu "c" "right"

abbrev pub small_cluster : Cluster
small_cluster = record {
  nodes =
      open_node "left" (("rack", "r1") ∷ ("zone", "z1") ∷ []) (gpu_a ∷ gpu_b ∷ [])
      ∷ open_node "right" (("rack", "r2") ∷ ("zone", "z1") ∷ []) (gpu_c ∷ [])
      ∷ [];
}

abbrev pub request : TopologyMode → String → JobSpec
request mode queue_id = record {
  id = "train";
  arrival_time = 0;
  duration = 10 * unit;
  gpu_count = 2;
  gpu_memory_gb = gb 30;
  priority = normal;
  job_type = training;
  gang = true;
  sla_deadline = none;
  group = none;
  gpu_model = none;
  allowed_gpu_models = [];
  allowed_vendors = [];
  allowed_kinds = [];
  allowed_models = [];
  required_capabilities = [];
  runtime_profile = none;
  selection_policy = SelectionPolicy.any;
  accelerator_request_explicit = false;
  topology_mode = mode;
  checkpoint_cost = 0;
  restart_cost = 0;
  queue_id = queue_id;
  elastic = none;
}

abbrev pub flexible : Job
flexible = fresh_job (request none_mode "root/a")

abbrev pub one_node : Job
one_node = fresh_job (request require_same_node "root/a")

abbrev plain : String → Option String → ℕ → Option ResourceVector → QueueSpec
plain id parent guaranteed limit = record {
  id = id;
  parent = parent;
  weight = unit;
  guaranteed = record { gpu_units = guaranteed * unit; gpu_memory_gb = 0 };
  limit = limit;
  borrowing_enabled = true;
  reclaimable = true;
  priority_offset = pos 0;
  guaranteed_dimensions = record { has_units = ltb 0 guaranteed; has_memory = false };
}

-- Two queues with guarantees, and the hard limit of one.
abbrev pub queue_list : List QueueSpec
queue_list =
    plain "root" none 0 none
    ∷ plain "root/a" (some "root") 2
        (some (record { gpu_units = 3 * unit; gpu_memory_gb = gb 100 }))
    ∷ plain "root/b" (some "root") 1 none
    ∷ []

abbrev pub two_queues : QueueHierarchy
two_queues = record {
  specs =
      ("root", plain "root" none 0 none)
      ∷ (
        "root/a",
        plain "root/a" (some "root") 2
            (some (record { gpu_units = 3 * unit; gpu_memory_gb = gb 100 })),
      )
      ∷ ("root/b", plain "root/b" (some "root") 1 none)
      ∷ ("root/default", plain_queue "root/default" (some "root"))
      ∷ [];
  children = ("root", "root/a" ∷ "root/b" ∷ "root/default" ∷ []) ∷ [];
}

abbrev pub used : Usage
used =
    ("root/b", record { gpu_units = 3 * unit; gpu_memory_gb = gb 30 })
    ∷ ("root/a", record { gpu_units = 0; gpu_memory_gb = 0 })
    ∷ []

abbrev pub observed : FairShare
observed = record {
  hierarchy = two_queues;
  accounting = record { model_weights = [] };
  historical = false;
  borrowing = true;
  supports_reclaim = true;
  supports_elastic = true;
  history = record { half_life = unit; service = []; last_time = 0 };
  cluster = some small_cluster;
  direct_usage = used;
  aggregate_usage =
      ("root", record { gpu_units = 3 * unit; gpu_memory_gb = gb 30 })
      ∷ ("root/a", record { gpu_units = 0; gpu_memory_gb = 0 })
      ∷ ("root/b", record { gpu_units = 3 * unit; gpu_memory_gb = gb 30 })
      ∷ ("root/default", no_resources)
      ∷ [];
  last_rates = [];
  debts = [];
  capacity = record { gpu_units = 3 * unit; gpu_memory_gb = gb 120 };
  pending_branches = [];
}
