-- ===== src/Allocator.antt =====
-- `FairShareScheduler` (gpu_scheduler_lab/allocation/allocator.py): its fields, and the usage of
-- the queues that it keeps. The placement scheduler that it is composed with is a function, as
-- those without a state are.
pub mod Refresh
pub mod Pending
pub mod Placing
pub mod Reclaim
pub mod Quota
pub mod Boundary
use gpu_scheduler_lab.Models.Cluster.{Cluster}
use gpu_scheduler_lab.Queues.Resource.{no_resources, ResourceVector}
use gpu_scheduler_lab.Fairshare.Accounting.{AccountingPolicy}
use gpu_scheduler_lab.Queues.Spec.{QueueSpec}
use gpu_scheduler_lab.Queues.Hierarchy.{Usage, usage_of, QueueHierarchy}
use gpu_scheduler_lab.Fairshare.History.{History, new_history}
use gpu_scheduler_lab.Prelude.{
  text_eq_instance, Fraction, Dict, key_error, get_or, Option, ◌>>=◌, ◌==◌, lookup, or_raise,
  if◌then◌else◌, Bool, Result, List, map, String, ok, some, none, [], ℕ,
}

pub record FairShare : Type 0 where
  pub hierarchy : QueueHierarchy
  pub accounting : AccountingPolicy
  pub historical : Bool
  pub borrowing : Bool
  pub supports_reclaim : Bool
  pub supports_elastic : Bool
  pub history : History
  pub cluster : Option Cluster
  pub direct_usage : Usage
  pub aggregate_usage : Usage
  pub last_rates : Dict String ℕ
  pub debts : Dict String Fraction
  pub capacity : ResourceVector
  pub pending_branches : List String

-- `__init__`
unfoldable pub new_fairshare :
    QueueHierarchy → AccountingPolicy → Bool → Bool → Bool → Bool → ℕ → Result FairShare
unfolding new_history
new_fairshare hierarchy accounting historical borrowing reclaim elastic half_life = do
  history ← new_history half_life
  ok (record {
    hierarchy = hierarchy;
    accounting = accounting;
    historical = historical;
    borrowing = borrowing;
    supports_reclaim = reclaim;
    supports_elastic = elastic;
    history = history;
    cluster = none;
    direct_usage = [];
    aggregate_usage = [];
    last_rates = [];
    debts = [];
    capacity = no_resources;
    pending_branches = [];
  })

-- `self.hierarchy.specs[queue_id]`
abbrev pub queue_spec : FairShare → String → Result QueueSpec
queue_spec s queue_id = or_raise (lookup queue_id s.hierarchy.specs) (key_error queue_id)

-- `self._aggregate_usage.get(queue_id, ResourceVector())`
abbrev pub queue_usage : FairShare → String → ResourceVector
queue_usage s queue_id = usage_of s.aggregate_usage queue_id

-- `self.hierarchy.children[spec.parent or "root"]`
abbrev pub siblings : FairShare → QueueSpec → List String
siblings s q =
    let parent = elim q.parent as (λ _. String) [
      | none ↦ "root"
      | some parent ↦ if parent == "" then "root" else parent
    ] in
    get_or parent [] s.hierarchy.children

-- `_sync_rates`
abbrev pub sync_rates : FairShare → FairShare
sync_rates s = record s { last_rates = map (λ item. (item.0, item.1.gpu_units)) s.aggregate_usage }
