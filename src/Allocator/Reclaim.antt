-- ===== src/Allocator/Reclaim.antt =====
-- What one queue may take back from another (gpu_scheduler_lab/allocation/allocator.py).
use gpu_scheduler_lab.Fairshare.Accounting.{allocation, minimum_demand}
use gpu_scheduler_lab.Queues.Resource.{
  ◌⊞◌, tolerance, has_any, amount, has_dimension, any_dimension, all_dimensions, ResourceVector,
  Dimension,
}
use gpu_scheduler_lab.Models.Job.{requested_gpu_count, Job}
use gpu_scheduler_lab.Models.Cluster.{schedulable_gpus, Cluster}
use gpu_scheduler_lab.Queues.Spec.{QueueSpec}
use gpu_scheduler_lab.Queues.Hierarchy.{fits_guarantee, spec_test, ancestors, QueueHierarchy}
use gpu_scheduler_lab.Allocator.{queue_usage, queue_spec, FairShare}
use gpu_scheduler_lab.Prelude.{
  index_error, zero_division_error, true, ◌==◌, ◌+◌, text_eq_instance, stop_iteration, not,
  assertion_error, all, ◌||◌, ◌&&◌, runtime_error, elem, ◌∷◌, traverse, ltb, leb, key_error,
  is_empty, find, filter, ◌>>=◌, value_error, if◌then◌else◌, any, List, Result, Option, Bool,
  String, raise, ok, false, some, none, [], ℕ,
}

-- The element before the first that satisfies a test, and none if that is the first one.
abbrev pub before_first : (String → Bool) → List String → Option String
before_first p [] = none
before_first p (x ∷ []) = none
before_first p (x ∷ y ∷ rest) =
    let later = before_first p (y ∷ rest) in if p x then none else if p y then some x else later

-- `_reclaim_boundary`: the branches below the first common ancestor, unless one of the two
-- queues is that ancestor.
unfoldable pub reclaim_boundary :
    QueueHierarchy → String → String → Result (Option (String × String))
reclaim_boundary h victim_queue_id incoming_queue_id =
    let victim_path = ancestors h victim_queue_id in
    let incoming_path = ancestors h incoming_queue_id in
    elim (find (λ id. elem id incoming_path) victim_path) [
      | none ↦ raise stop_iteration
      | some common ↦ ok (elim (before_first (λ id. id == common) victim_path) [
        | none ↦ none
        | some victim_branch ↦ elim (before_first (λ id. id == common) incoming_path) [
          | none ↦ none
          | some incoming_branch ↦ some (victim_branch, incoming_branch)
        ]
      ])
    ]

-- What a victim's branch keeps of a dimension.
abbrev pub floor_of : QueueSpec → Dimension → ℕ
floor_of victim d =
    if has_dimension d victim.guaranteed_dimensions then amount d victim.guaranteed else 0

-- A dimension in which the incoming branch is below its guarantee and the victim's above its own.
unfoldable pub has_surplus : QueueSpec → ResourceVector → QueueSpec → ResourceVector → Bool
has_surplus incoming incoming_usage victim victim_usage =
    any_dimension
      (λ d.
        ltb (amount d incoming_usage + tolerance) (amount d incoming.guaranteed)
        && ltb (floor_of victim d + tolerance) (amount d victim_usage))
      incoming.guaranteed_dimensions

-- `_boundary_has_reclaimable_surplus`
unfoldable pub boundary_has_surplus : FairShare → String → String → Result Bool
unfolding has_surplus
boundary_has_surplus s victim_branch incoming_branch = do
  incoming ← queue_spec s incoming_branch
  victim ← queue_spec s victim_branch
  ok (has_surplus incoming (queue_usage s incoming_branch) victim (queue_usage s victim_branch))

-- `can_reclaim`
unfoldable pub can_reclaim : FairShare → Job → Job → Result Bool
unfolding reclaim_boundary boundary_has_surplus
can_reclaim s victim incoming =
    reclaim_boundary s.hierarchy victim.queue_id incoming.queue_id >>= λ boundary. elim boundary [
      | none ↦ ok false
      | some branches ↦ (do
        surplus ← boundary_has_surplus s branches.0 branches.1
        specs ← traverse (queue_spec s) (ancestors s.hierarchy victim.queue_id)
        ok (surplus && all (λ q. q.reclaimable) specs))
    ]

-- `reclaim_entitlement_queue`
unfoldable pub reclaim_entitlement_queue : FairShare → Job → Job → Result (Option String)
unfolding reclaim_boundary
reclaim_entitlement_queue s victim incoming =
    reclaim_boundary s.hierarchy victim.queue_id incoming.queue_id >>= λ boundary. elim boundary [
      | none ↦ ok none
      | some branches ↦ ok (some branches.1)
    ]

-- The use that the victim's branch is left with is no less than its guarantee.
abbrev pub keeps_guarantee : QueueSpec → ResourceVector → ResourceVector → Bool
keeps_guarantee q usage released =
    all_dimensions
      (λ d. leb (amount d q.guaranteed + amount d released) (amount d usage + tolerance))
      q.guaranteed_dimensions

abbrev pub release_keeps_guarantee :
    FairShare → Cluster → Job → List String → Bool → Option (String × String) → Result Bool
release_keeps_guarantee s cluster victim released_gpu_ids collateral none = ok false
release_keeps_guarantee s cluster victim released_gpu_ids collateral (some branches) = do
  q ← queue_spec s branches.0
  released ← allocation s.accounting victim cluster released_gpu_ids
  ok (collateral || keeps_guarantee q (queue_usage s branches.0) released)

abbrev pub if_legal : Bool → Result Bool → Result Bool
if_legal true kept = kept
if_legal false kept = ok false

-- `can_reclaim_allocation`
unfoldable pub can_reclaim_allocation : FairShare → Job → Job → List String → Bool → Result Bool
unfolding can_reclaim
can_reclaim_allocation s victim incoming released_gpu_ids collateral = elim s.cluster [
  | none ↦ ok false
  | some cluster ↦ if is_empty released_gpu_ids then ok false else (do
    legal ← can_reclaim s victim incoming
    if_legal legal (
        reclaim_boundary s.hierarchy victim.queue_id incoming.queue_id
        >>= release_keeps_guarantee s cluster victim released_gpu_ids collateral))
]

-- The queues whose guarantees have to cover a demand.
abbrev pub entitled : QueueHierarchy → String → Option (List String) → List String
entitled h queue_id none = ancestors h queue_id
entitled h queue_id (some ids) = filter (λ a. elem a ids) (ancestors h queue_id)

-- `_fits_remaining_entitlement`: some queue has a guarantee, and each that has one covers it.
unfoldable pub fits_remaining_entitlement :
    FairShare → String → ResourceVector → Option (List String) → Bool
fits_remaining_entitlement s queue_id demand entitlement_queue_ids =
    let guaranteed =
      filter (spec_test s.hierarchy (λ q. has_any q.guaranteed_dimensions))
        (entitled s.hierarchy queue_id entitlement_queue_ids) in
    not (is_empty guaranteed)
    && all (λ a. spec_test s.hierarchy (λ q. fits_guarantee q (queue_usage s a ⊞ demand)) a)
        guaranteed

-- `_demand_fits_any_entitlement`
unfoldable pub demand_fits_any_entitlement : FairShare → String → ResourceVector → Bool
demand_fits_any_entitlement s queue_id demand =
    any (spec_test s.hierarchy (λ q. fits_guarantee q demand)) (ancestors s.hierarchy queue_id)

-- A `ValueError` of the demand is caught.
abbrev fits_demand : FairShare → String → Result ResourceVector → Result Bool
fits_demand s queue_id (raise (value_error message)) = ok false
fits_demand s queue_id (raise (key_error key)) = raise (key_error key)
fits_demand s queue_id (raise (runtime_error message)) = raise (runtime_error message)
fits_demand s queue_id (raise (assertion_error message)) = raise (assertion_error message)
fits_demand s queue_id (raise (index_error message)) = raise (index_error message)
fits_demand s queue_id (raise (zero_division_error message)) = raise (zero_division_error message)
fits_demand s queue_id (raise stop_iteration) = raise stop_iteration
fits_demand s queue_id (ok demand) = ok (demand_fits_any_entitlement s queue_id demand)

-- `can_reclaim_request`
unfoldable pub can_reclaim_request : FairShare → Job → Result Bool
unfolding demand_fits_any_entitlement
can_reclaim_request s incoming = elim s.cluster [
  | none ↦ ok false
  | some cluster ↦ fits_demand s incoming.queue_id (
      minimum_demand s.accounting incoming (schedulable_gpus cluster)
        (requested_gpu_count incoming))
]

-- `can_reclaim_placement`
unfoldable pub can_reclaim_placement :
    FairShare → Job → List String → Option (List String) → Result Bool
unfolding fits_remaining_entitlement
can_reclaim_placement s incoming gpu_ids entitlement_queue_ids = elim s.cluster [
  | none ↦ ok false
  | some cluster ↦ (do
    demand ← allocation s.accounting incoming cluster gpu_ids
    ok (fits_remaining_entitlement s incoming.queue_id demand entitlement_queue_ids))
]
