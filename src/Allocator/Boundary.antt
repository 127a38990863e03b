-- ===== src/Allocator/Boundary.antt =====
-- From whom the fair-share scheduler may reclaim GPUs, and how many
-- (gpu_scheduler_lab/allocation/allocator.py).
use gpu_scheduler_lab.Fairshare.Accounting.{allocation}
use gpu_scheduler_lab.Queues.Resource.{ResourceVector}
use gpu_scheduler_lab.Queues.Spec.{QueueSpec}
use gpu_scheduler_lab.Models.Cluster.{Cluster}
use gpu_scheduler_lab.Queues.Hierarchy.{ancestors, QueueHierarchy}
use gpu_scheduler_lab.Models.Job.{Job}
use gpu_scheduler_lab.Allocator.Reclaim.{
  if_legal, boundary_has_surplus, release_keeps_guarantee, can_reclaim_allocation, can_reclaim,
  keeps_guarantee, before_first, reclaim_boundary,
}
use gpu_scheduler_lab.Allocator.{queue_spec, queue_usage, FairShare}
use gpu_scheduler_lab.Prelude.{
  ◌≤◌, ◌+◌, suc, key_error, or_raise-eq-ok, all-true→All, traverse_at, ok-injective, all, ◌&&◌,
  traverse, ◌>>=◌, Result, is_empty, Result-cases, >>=-eq-ok, Bool-cases, subst, Option, none,
  text_eq_instance, lookup, beq_refl, arith, Option-cases, ◌∷◌, ◌==◌, find, elem, ◌≡◌, List, Bool,
  String, inr, inl, ok, false, true, some, [],
}

-- What stands before the first element that two lists share is in the first list only.
find-before_first :
    (p : String → Bool) (xs : List String) {common before : String}
    → find p xs ≡ some common
    → before_first (λ id. id == common) xs ≡ some before
    → (p before ≡ false) × (elem before xs ≡ true)
find-before_first p [] f b = cc
find-before_first p (x ∷ []) f b = cc
find-before_first p (x ∷ y ∷ rest) {common} {before} f b = ground (
  arith,
  find-before_first p (y ∷ rest) {common = common} {before = before},
  text_eq_instance.beq_iff x common,
  text_eq_instance.beq_iff y common,
  beq_refl x,
)

before_first-elem :
    (p : String → Bool) (xs : List String) {before : String}
    → before_first p xs ≡ some before
    → elem before xs ≡ true
before_first-elem p [] b = cc
before_first-elem p (x ∷ []) b = cc
before_first-elem p (x ∷ y ∷ rest) {before} b =
    ground (arith, before_first-elem p (y ∷ rest) {before = before}, beq_refl x)

-- The victim's branch of a reclaim boundary lies above the victim's queue and not above the
-- incoming one, whose own branch lies above it.
pub reclaim_boundary-apart :
    (h : QueueHierarchy) (victim_id incoming_id victim_branch incoming_branch : String)
    → reclaim_boundary h victim_id incoming_id ≡ ok (some (victim_branch, incoming_branch))
    → (elem victim_branch (ancestors h victim_id) ≡ true)
      × (elem victim_branch (ancestors h incoming_id) ≡ false)
      × (elem incoming_branch (ancestors h incoming_id) ≡ true)
unfolding reclaim_boundary
reclaim_boundary-apart h victim_id incoming_id victim_branch incoming_branch e =
    elim (Option-cases (find (λ id. elem id (ancestors h incoming_id)) (ancestors h victim_id))) [
      | inl apart ↦ absurd (ground arith)
      | inr (common, shared) ↦
          elim (Option-cases (before_first (λ id. id == common) (ancestors h victim_id))) [
            | inl root ↦ absurd (ground arith)
            | inr (v, above_victim) ↦
                elim (Option-cases (before_first (λ id. id == common) (ancestors h incoming_id))) [
                  | inl root ↦ absurd (ground arith)
                  | inr (i, above_incoming) ↦
                      let split =
                        find-before_first (λ id. elem id (ancestors h incoming_id))
                          (ancestors h victim_id) shared above_victim in
                      let there =
                        before_first-elem (λ id. id == common) (ancestors h incoming_id)
                          above_incoming in
                      let same_victim : v ≡ victim_branch = ground arith in
                      let same_incoming : i ≡ incoming_branch = ground arith in
                      (
                        subst (λ x. elem x (ancestors h victim_id) ≡ true) same_victim split.1,
                        subst (λ x. elem x (ancestors h incoming_id) ≡ false) same_victim split.0,
                        subst (λ x. elem x (ancestors h incoming_id) ≡ true) same_incoming there,
                      )
                ]
          ]
    ]

-- What a reclaim that spares the victim's guarantee has established, with the cluster that the
-- scheduler observed: the victim's branch, which is above the victim and not above the incoming
-- job, and what it uses without the GPUs that are released.
pub record SparesGuarantee (s : FairShare) (c : Cluster) (victim incoming : Job)
    (released_ids : List String) : Type 0 where
  pub branch : String
  pub other_branch : String
  pub spec : QueueSpec
  pub released : ResourceVector
  pub boundary :
      reclaim_boundary s.hierarchy victim.queue_id incoming.queue_id
      ≡ ok (some (branch, other_branch))
  pub above_victim : elem branch (ancestors s.hierarchy victim.queue_id) ≡ true
  pub not_above_incoming : elem branch (ancestors s.hierarchy incoming.queue_id) ≡ false
  pub found : lookup branch s.hierarchy.specs ≡ some spec
  pub counted : allocation s.accounting victim c released_ids ≡ ok released
  pub keeps_units :
      spec.guaranteed_dimensions.has_units ≡ true
      → spec.guaranteed.gpu_units + released.gpu_units ≤ suc (queue_usage s branch).gpu_units
  pub keeps_memory :
      spec.guaranteed_dimensions.has_memory ≡ true
      → spec.guaranteed.gpu_memory_gb + released.gpu_memory_gb
        ≤ suc (queue_usage s branch).gpu_memory_gb

keeps_guarantee-bounds :
    (q : QueueSpec) (usage released : ResourceVector)
    → keeps_guarantee q usage released ≡ true
    → (q.guaranteed_dimensions.has_units ≡ true
        → q.guaranteed.gpu_units + released.gpu_units ≤ suc usage.gpu_units)
      × (q.guaranteed_dimensions.has_memory ≡ true
          → q.guaranteed.gpu_memory_gb + released.gpu_memory_gb ≤ suc usage.gpu_memory_gb)
keeps_guarantee-bounds q usage released h =
    (λ units. ground (arith, units, h), λ memory. ground (arith, memory, h))

release_keeps_guarantee-spares :
    (s : FairShare) (c : Cluster) (victim incoming : Job) (released_ids : List String)
    (boundary : Option (String × String))
    → reclaim_boundary s.hierarchy victim.queue_id incoming.queue_id ≡ ok boundary
    → release_keeps_guarantee s c victim released_ids false boundary ≡ ok true
    → SparesGuarantee s c victim incoming released_ids
release_keeps_guarantee-spares s c victim incoming released_ids none at e = absurd (ground arith)
release_keeps_guarantee-spares s c victim incoming released_ids (some (branch, other)) at e =
    let (q, looked_up, more) =
      >>=-eq-ok (queue_spec s branch)
        (λ q. allocation s.accounting victim c released_ids >>= λ released.
          ok (keeps_guarantee q (queue_usage s branch) released))
        e in
    let (released, counted, last) =
      >>=-eq-ok (allocation s.accounting victim c released_ids)
        (λ released. ok (keeps_guarantee q (queue_usage s branch) released)) more in
    let apart =
      reclaim_boundary-apart s.hierarchy victim.queue_id incoming.queue_id branch other at in
    let bounds = keeps_guarantee-bounds q (queue_usage s branch) released (ok-injective last) in
    record {
      branch = branch;
      other_branch = other;
      spec = q;
      released = released;
      boundary = at;
      above_victim = apart.0;
      not_above_incoming = apart.1;
      found = or_raise-eq-ok (lookup branch s.hierarchy.specs) (key_error branch) looked_up;
      counted = counted;
      keeps_units = bounds.0;
      keeps_memory = bounds.1;
    }

-- A reclaim that takes no collateral leaves the victim's branch of the reclaim boundary, which is
-- above the victim's queue and not above the incoming job's, in each dimension in which it has a
-- guarantee, with no less than that once it uses no more the GPUs that are released, as charged on
-- the cluster that was observed last, up to the tolerance of one billionth.
pub can_reclaim_allocation-SparesGuarantee :
    (s : FairShare) (c : Cluster) (victim incoming : Job) (released_ids : List String)
    → s.cluster ≡ some c
    → can_reclaim_allocation s victim incoming released_ids false ≡ ok true
    → SparesGuarantee s c victim incoming released_ids
unfolding can_reclaim_allocation
can_reclaim_allocation-SparesGuarantee s c victim incoming released_ids known e =
    elim (Bool-cases (is_empty released_ids)) [
      | inl nothing ↦ absurd (ground (arith, known, nothing, e))
      | inr something ↦
          let kept : Result Bool =
            reclaim_boundary s.hierarchy victim.queue_id incoming.queue_id
            >>= release_keeps_guarantee s c victim released_ids false in
          let (legal, asked, more) =
            >>=-eq-ok (can_reclaim s victim incoming) (λ legal. if_legal legal kept) {b = true}
              (ground arith) in
          elim (Bool-cases legal) [
            | inr illegal ↦ absurd (ground arith)
            | inl allowed ↦
                let (boundary, at, last) =
                  >>=-eq-ok (reclaim_boundary s.hierarchy victim.queue_id incoming.queue_id)
                    (release_keeps_guarantee s c victim released_ids false) {b = true}
                    (ground arith) in
                release_keeps_guarantee-spares s c victim incoming released_ids boundary at last
          ]
    ]

-- Nothing is reclaimed from a job unless every queue above it is reclaimable.
pub can_reclaim-reclaimable :
    (s : FairShare) (victim incoming : Job) (a : String)
    → can_reclaim s victim incoming ≡ ok true
    → elem a (ancestors s.hierarchy victim.queue_id) ≡ true
    → (q : QueueSpec) × (queue_spec s a ≡ ok q) × (q.reclaimable ≡ true)
unfolding can_reclaim
can_reclaim-reclaimable s victim incoming a e above =
    elim (Result-cases (reclaim_boundary s.hierarchy victim.queue_id incoming.queue_id)) [
      | inr (error, failed) ↦ absurd (ground arith)
      | inl (boundary, at) ↦ elim (Option-cases boundary) [
        | inl none_found ↦ absurd (ground arith)
        | inr (branches, same) ↦
            let path = ancestors s.hierarchy victim.queue_id in
            let (surplus, tested, more) =
              >>=-eq-ok (boundary_has_surplus s branches.0 branches.1)
                (λ surplus. traverse (queue_spec s) path >>= λ specs.
                  ok (surplus && all (λ q. q.reclaimable) specs))
                (ground arith) in
            let (specs, read, last) =
              >>=-eq-ok (traverse (queue_spec s) path)
                (λ specs. ok (surplus && all (λ q. q.reclaimable) specs)) more in
            let both : (surplus && all (λ (q : QueueSpec). q.reclaimable) specs) ≡ true =
              ok-injective last in
            traverse_at (queue_spec s) (λ q. q.reclaimable ≡ true) path a read
              (all-true→All (λ q. q.reclaimable) specs (ground arith)) above
      ]
    ]
