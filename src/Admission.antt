-- ===== src/Admission.antt =====
-- `AdmissionController` (gpu_scheduler_lab/admission/controller.py): whether a job could ever run.
pub mod Grouped
pub mod Decisions
pub mod Quota
use gpu_scheduler_lab.Models.Cluster.Allocation.{topologies_of}
use gpu_scheduler_lab.Models.Accelerator.{vendor_value}
use gpu_scheduler_lab.Models.Topology.{
  require_same_node, require_same_rack, none_mode, prefer_same_node, prefer_same_rack,
  topology_domain, TopologyMode,
}
use gpu_scheduler_lab.Fairshare.Accounting.{minimum_demand, AccountingPolicy}
use gpu_scheduler_lab.Queues.Resource.{fits_within, ResourceVector}
use gpu_scheduler_lab.Queues.Hierarchy.{ancestors, spec_test, QueueHierarchy}
use gpu_scheduler_lab.Models.Job.{minimum_gpu_count, Job}
use gpu_scheduler_lab.Models.Cluster.{is_compatible, Gpu, Cluster}
use gpu_scheduler_lab.Prelude.{
  list_eq, group_by, text_eq_instance, map, key_error, elem, length, flat_map, contains, ◌++◌, not,
  minimum, lookup, leb, is_empty, compare_ℕ, ◌∷◌, value_error, traverse, or_raise, if◌then◌else◌,
  filter, and_then, ◌>>=◌, all, Ordering, Option, List, String, Result, Bool, raise, ok, false,
  true, some, none, [], ℕ,
}

pub data AdmissionMode : Type 0 where
  permissive quota_aware : AdmissionMode

pub record AdmissionDecision : Type 0 where
  pub admitted : Bool
  pub reason : Option String

pub record AdmissionController : Type 0 where
  pub hierarchy : QueueHierarchy
  pub cluster : Cluster
  pub accounting : AccountingPolicy
  pub mode : AdmissionMode

abbrev pub rejected_for : String → AdmissionDecision
rejected_for reason = record { admitted = false; reason = some reason }

abbrev pub admitted_decision : AdmissionDecision
admitted_decision = record { admitted = true; reason = none }

-- The rack of a node of the cluster.
abbrev rack_of_node : Cluster → String → Result String
rack_of_node c node_id = do
  topology ← or_raise (lookup node_id (topologies_of c.nodes)) (key_error node_id)
  ok (topology_domain node_id topology "rack")

-- What the GPUs of a group have in common, beside their vendor.
abbrev pub locality : Cluster → TopologyMode → Gpu → Result String
locality c require_same_node g = ok g.node_id
locality c require_same_rack g = rack_of_node c g.node_id
locality c none_mode g = ok "cluster"
locality c prefer_same_node g = ok "cluster"
locality c prefer_same_rack g = ok "cluster"

abbrev pub group_key : Cluster → Job → Gpu → Result (List String × Gpu)
group_key c j g = do
  place ← locality c j.topology_mode g
  ok (place ∷ vendor_value g.vendor ∷ [], g)

-- The groups of GPUs that are large enough.
abbrev pub grouped_sets : ℕ → List (List String × Gpu) → List (List Gpu)
grouped_sets least keyed =
    filter (λ group. leb least (length group))
      (map (λ group. map (λ item. item.1) group.1) (group_by (λ item. item.0) keyed))

-- `_feasible_gpu_sets`
unfoldable pub feasible_gpu_sets : Cluster → Job → List Gpu → ℕ → Result (List (List Gpu))
feasible_gpu_sets c j compatible least = do
  keyed ← traverse (group_key c j) compatible
  ok (grouped_sets least keyed)

abbrev pub compatible_on : Cluster → Job → List String → List Gpu
compatible_on c j node_ids =
    filter (λ g. is_compatible g j)
      (flat_map (λ n. n.gpus) (filter (λ n. elem n.id node_ids) c.nodes))

abbrev pub flat_traverse {ℓ κ} :
    {A : Type ℓ} {B : Type κ} → (A → Result (List B)) → List A → Result (List B)
flat_traverse f [] = ok []
flat_traverse f (x ∷ xs) = do here ← f x; rest ← flat_traverse f xs; ok (here ++ rest)

-- `_demand_key`
abbrev pub compare_demand : ResourceVector → ResourceVector → Ordering
compare_demand a b =
    and_then (compare_ℕ a.gpu_units b.gpu_units) (compare_ℕ a.gpu_memory_gb b.gpu_memory_gb)

abbrev pub within_limits : QueueHierarchy → String → ResourceVector → Bool
within_limits h queue_id demand =
    all (spec_test h (λ q. fits_within demand q.limit)) (ancestors h queue_id)

-- The least demand among the feasible sets, against the limits of the job's queues.
abbrev pub check_limits : AdmissionController → Job → List ResourceVector → Result AdmissionDecision
check_limits a j [] = raise (value_error "min() iterable argument is empty")
check_limits a j (demand ∷ rest) = ok (
    if within_limits a.hierarchy j.queue_id (minimum compare_demand demand rest)
    then admitted_decision
    else rejected_for "queue_hard_limit")

abbrev pub check_mode :
    AdmissionController → Job → AdmissionMode → List (List Gpu) → Result AdmissionDecision
check_mode a j permissive feasible = ok admitted_decision
check_mode a j quota_aware feasible = do
  demands ← traverse (λ gs. minimum_demand a.accounting j gs (minimum_gpu_count j.spec)) feasible
  check_limits a j demands

abbrev pub decide_feasible : AdmissionController → Job → List (List Gpu) → Result AdmissionDecision
decide_feasible a j feasible =
    if is_empty feasible
    then ok (rejected_for "impossible_gpu_request")
    else check_mode a j a.mode feasible

-- The feasible sets on the nodes of a snapshot.
abbrev pub feasible_on : AdmissionController → Job → List String → Result (List (List Gpu))
feasible_on a j node_ids =
    feasible_gpu_sets a.cluster j (compatible_on a.cluster j node_ids) (minimum_gpu_count j.spec)

-- `decide` on given snapshots of the nodes; without any, on the nodes that are schedulable now
unfoldable pub decide : AdmissionController → Job → List (List String) → Result AdmissionDecision
unfolding feasible_gpu_sets
decide a j node_snapshots =
    if not (contains j.queue_id a.hierarchy.specs) then ok (rejected_for "unknown_queue") else (do
      feasible ← flat_traverse (feasible_on a j) node_snapshots
      decide_feasible a j feasible)
