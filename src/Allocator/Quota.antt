-- ===== src/Allocator/Quota.antt =====
-- What the fair-share scheduler's decisions (gpu_scheduler_lab/allocation/allocator.py) respect:
-- hard limits, guarantees, and what may be reclaimed from whom.
use gpu_scheduler_lab.Queues.Hierarchy.Limits.{
  all-filter, can_allocate-limits, can_allocate-guarantees,
}
use gpu_scheduler_lab.Queues.Hierarchy.{spec_test, fits_guarantee, ancestors}
use gpu_scheduler_lab.Fairshare.Accounting.{allocation}
use gpu_scheduler_lab.Allocator.Placing.{
  may_allocate, place_with_borrowing, place_guaranteed, check_quota,
}
use gpu_scheduler_lab.Schedulers.Topology.Place.{Placement}
use gpu_scheduler_lab.Queues.Spec.{QueueSpec}
use gpu_scheduler_lab.Queues.Resource.{◌⊞◌, has_any, fits_within, ResourceVector}
use gpu_scheduler_lab.Models.Job.{Job}
use gpu_scheduler_lab.Models.Cluster.{Cluster}
use gpu_scheduler_lab.Allocator.Reclaim.{
  entitled, fits_remaining_entitlement, can_reclaim_placement,
}
use gpu_scheduler_lab.Allocator.{queue_usage, FairShare}
use gpu_scheduler_lab.Allocator.Placing
use gpu_scheduler_lab.Prelude.{
  ap, ◌∙◌, ◌>>=◌, subst, text_eq_instance, ok-injective, Bool-cases, if◌then◌else◌, arith,
  Option-cases, >>=-eq-ok, lookup, ◌≡◌, elem, Result, Option, List, Bool, String, inr, inl, ok,
  false, true, some, none,
}

-- A demand fits the hard limit of a queue and of all queues above it.
abbrev pub FitsLimits : FairShare → String → ResourceVector → Type 0
FitsLimits s queue_id demand =
    (a : String) (q : QueueSpec)
    → elem a (ancestors s.hierarchy queue_id) ≡ true
    → lookup a s.hierarchy.specs ≡ some q
    → fits_within (queue_usage s a ⊞ demand) q.limit ≡ true

-- A demand fits what each of some queues has left of its guarantee.
abbrev pub FitsGuarantees : FairShare → List String → ResourceVector → Type 0
FitsGuarantees s queue_ids demand =
    (a : String) (q : QueueSpec)
    → elem a queue_ids ≡ true
    → lookup a s.hierarchy.specs ≡ some q
    → has_any q.guaranteed_dimensions ≡ true
    → fits_guarantee q (queue_usage s a ⊞ demand) ≡ true

check_quota-some :
    (s : FairShare) (c : Cluster) (j : Job) (borrowing : Bool) (placed : Placement)
    {ids : List String}
    → check_quota s c j borrowing placed ≡ ok (some ids)
    → (demand : ResourceVector) × (allocation s.accounting j c ids ≡ ok demand)
      × (may_allocate s j demand borrowing ≡ ok true)
check_quota-some s c j borrowing none e = cc
check_quota-some s c j borrowing (some ids) {ids = found} e =
    let (demand, charged, more) =
      >>=-eq-ok (allocation s.accounting j c ids)
        (λ demand.
          may_allocate s j demand borrowing >>= λ allowed. ok (if allowed then some ids else none))
        e in
    let (allowed, asked, last) =
      >>=-eq-ok (may_allocate s j demand borrowing)
        (λ allowed. ok (if allowed then some ids else none)) more in
    elim (Bool-cases allowed) [
      | inl admits ↦
          let same : ids ≡ found = ground (arith, admits, last) in
          (
            demand,
            subst (λ i. allocation s.accounting j c i ≡ ok demand) same charged,
            asked ∙ ap ok admits,
          )
      | inr refused ↦ absurd (ground (arith, refused, last))
    ]

module _ (placement : Cluster → Job → Result Placement) (s : FairShare) (c : Cluster)
    (j : Job) where
  placed-charged :
      (borrowing : Bool) {ids : List String}
      → place_with_borrowing placement s c j borrowing ≡ ok (some ids)
      → (demand : ResourceVector) × (allocation s.accounting j c ids ≡ ok demand)
        × (may_allocate s j demand borrowing ≡ ok true)
  unfolding place_with_borrowing
  placed-charged borrowing e =
      let (placed, found, checked) = >>=-eq-ok (placement c j) (check_quota s c j borrowing) e in
      check_quota-some s c j borrowing placed checked

  -- The fair-share scheduler places a job only where what it is charged fits the hard limits of
  -- its queue and of all queues above it, whatever the placement scheduler.
  pub place-FitsLimits :
      {ids : List String}
      → Placing.place placement s c j ≡ ok (some ids)
      → (demand : ResourceVector) × (allocation s.accounting j c ids ≡ ok demand)
        × FitsLimits s j.queue_id demand
  unfolding Placing.place
  place-FitsLimits e =
      let (demand, charged, allowed) = placed-charged s.borrowing e in
      (
        demand,
        charged,
        λ a q above found.
            can_allocate-limits s.hierarchy j.queue_id demand s.borrowing s.aggregate_usage a q
              allowed above found,
      )

  -- A job placed within guarantees is charged no more than what every guaranteed queue above it
  -- has left.
  pub place_guaranteed-FitsGuarantees :
      {ids : List String}
      → place_guaranteed placement s c j ≡ ok (some ids)
      → (demand : ResourceVector) × (allocation s.accounting j c ids ≡ ok demand)
        × FitsGuarantees s (ancestors s.hierarchy j.queue_id) demand
  unfolding place_guaranteed
  place_guaranteed-FitsGuarantees e =
      let (demand, charged, allowed) = placed-charged false e in
      (
        demand,
        charged,
        λ a q above found guaranteed.
            can_allocate-guarantees s.hierarchy j.queue_id demand s.aggregate_usage a q allowed
              above found guaranteed,
      )

-- A placement for which GPUs may be reclaimed fits what every guarantee that it rests on has left.
pub can_reclaim_placement-FitsGuarantees :
    (s : FairShare) (incoming : Job) (ids : List String) (queue_ids : Option (List String))
    → can_reclaim_placement s incoming ids queue_ids ≡ ok true
    → (c : Cluster) × (demand : ResourceVector) × (s.cluster ≡ some c)
      × (allocation s.accounting incoming c ids ≡ ok demand)
      × FitsGuarantees s (entitled s.hierarchy incoming.queue_id queue_ids) demand
unfolding can_reclaim_placement fits_remaining_entitlement
can_reclaim_placement-FitsGuarantees s incoming ids queue_ids e = elim (Option-cases s.cluster) [
  | inl none_yet ↦ absurd (ground arith)
  | inr (c, known) ↦
      let (demand, charged, last) =
        >>=-eq-ok (allocation s.accounting incoming c ids)
          (λ demand. ok (fits_remaining_entitlement s incoming.queue_id demand queue_ids))
          (ground arith) in
      let fits : fits_remaining_entitlement s incoming.queue_id demand queue_ids ≡ true =
        ok-injective last in
      (
        c,
        demand,
        known,
        charged,
        λ a q member found guaranteed.
            let covered =
              all-filter (spec_test s.hierarchy (λ r. has_any r.guaranteed_dimensions))
                (λ b. spec_test s.hierarchy (λ r. fits_guarantee r (queue_usage s b ⊞ demand)) b)
                (entitled s.hierarchy incoming.queue_id queue_ids) a (ground arith) member
                (ground arith) in
            ground arith,
      )
]
