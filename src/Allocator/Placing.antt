-- ===== src/Allocator/Placing.antt =====
-- `place`, `place_guaranteed`, `can_resize`, `can_resize_placement` and `queue_snapshot`
-- (gpu_scheduler_lab/allocation/allocator.py).
use gpu_scheduler_lab.Fairshare.Accounting.{demand_of, allocation}
use gpu_scheduler_lab.Allocator.Refresh.{sibling_weights}
use gpu_scheduler_lab.Queues.Hierarchy.{can_allocate}
use gpu_scheduler_lab.Schedulers.Topology.Place.{Placement}
use gpu_scheduler_lab.Queues.Spec.{QueueSpec}
use gpu_scheduler_lab.Queues.Resource.{ResourceVector}
use gpu_scheduler_lab.Models.Job.{Job}
use gpu_scheduler_lab.Models.Cluster.{Cluster}
use gpu_scheduler_lab.Allocator.{queue_usage, FairShare}
use gpu_scheduler_lab.Prelude.{
  nat_eq, whole, text_eq_instance, get_or, min, elem, ◌-◌, sum_of, not, filter, compare_text, sort,
  leb, ◌>>=◌, traverse, if◌then◌else◌, List, Dict, Bool, String, Result, Fraction, ok, false, some,
  none, ℕ,
}

-- `self.hierarchy.can_allocate(…)` on the usage that the scheduler keeps
abbrev pub may_allocate : FairShare → Job → ResourceVector → Bool → Result Bool
may_allocate s j demand borrowing =
    can_allocate s.hierarchy j.queue_id demand borrowing s.aggregate_usage

abbrev pub check_quota : FairShare → Cluster → Job → Bool → Placement → Result Placement
check_quota s cluster j borrowing none = ok none
check_quota s cluster j borrowing (some ids) = do
  demand ← allocation s.accounting j cluster ids
  allowed ← may_allocate s j demand borrowing
  ok (if allowed then some ids else none)

module _ (placement : Cluster → Job → Result Placement) where
  -- `_place_with_borrowing`
  unfoldable pub place_with_borrowing : FairShare → Cluster → Job → Bool → Result Placement
  place_with_borrowing s cluster j borrowing = do
    placed ← placement cluster j
    check_quota s cluster j borrowing placed

  unfoldable pub place : FairShare → Cluster → Job → Result Placement
  unfolding place_with_borrowing
  place s cluster j = place_with_borrowing s cluster j s.borrowing

  unfoldable pub place_guaranteed : FairShare → Cluster → Job → Result Placement
  unfolding place_with_borrowing
  place_guaranteed s cluster j = place_with_borrowing s cluster j false

-- `can_resize`
unfoldable pub can_resize : FairShare → Job → ℕ → Result Bool
can_resize s j replicas = elim s.cluster [
  | none ↦ ok false
  | some cluster ↦ if leb replicas j.current_replicas then ok false else (do
    demand ← demand_of s.accounting j cluster (replicas - j.current_replicas)
    may_allocate s j demand s.borrowing)
]

-- `can_resize_placement`
unfoldable pub can_resize_placement : FairShare → Job → List String → Result Bool
can_resize_placement s j gpu_ids = elim s.cluster [
  | none ↦ ok false
  | some cluster ↦ (do
    demand ←
        allocation s.accounting j cluster (filter (λ id. not (elem id j.allocated_gpu_ids)) gpu_ids)
    may_allocate s j demand s.borrowing)
]

pub record QueueSnapshot : Type 0 where
  pub gpu_units : ℕ
  pub gpu_memory_gb : ℕ
  pub guaranteed_usage : ℕ
  pub borrowed_usage : ℕ
  pub unused_entitlement : ℕ
  pub fairshare_debt : Fraction
  pub historical_service : Fraction
  pub normalized_entitlement : Fraction

abbrev snapshot_of : FairShare → String × QueueSpec → Result (String × QueueSnapshot)
snapshot_of s (queue_id, q) = do
  weights ← sibling_weights s q
  let usage : ResourceVector = queue_usage s queue_id
  let sibling_weight = sum_of (λ item. item.1) weights
  ok (
    queue_id,
    record {
      gpu_units = usage.gpu_units;
      gpu_memory_gb = usage.gpu_memory_gb;
      guaranteed_usage = min usage.gpu_units q.guaranteed.gpu_units;
      borrowed_usage = usage.gpu_units - q.guaranteed.gpu_units;
      unused_entitlement = q.guaranteed.gpu_units - usage.gpu_units;
      fairshare_debt = get_or queue_id (whole 0) s.debts;
      historical_service = get_or queue_id (whole 0) s.history.service;
      normalized_entitlement =
          if nat_eq sibling_weight 0
          then whole 1
          else record { num = q.weight; den = sibling_weight };
    },
  )

-- `queue_snapshot`
unfoldable pub queue_snapshot : FairShare → Result (Dict String QueueSnapshot)
queue_snapshot s = traverse (snapshot_of s) (sort (λ a b. compare_text a.0 b.0) s.hierarchy.specs)
