-- ===== src/Queues/Hierarchy/Limits.antt =====
-- `can_allocate` (gpu_scheduler_lab/queues/hierarchy.py): hard limits along the whole tree, and
-- guarantees where nothing may be borrowed.
use gpu_scheduler_lab.Queues.Spec.{QueueSpec}
use gpu_scheduler_lab.Queues.Resource.{has_any, ◌⊞◌, fits_within, ResourceVector}
use gpu_scheduler_lab.Prelude.{
  and-true, ◌&&◌, ◌>>=◌, Option-cases, ◌>>◌, keys, check_each, >>=-eq-ok, ok-injective, ok, sym,
  subst, filter, ap, false, ◌∙◌, Unique, arith, ◌==◌, Bool-cases, ◌∷◌, text_eq_instance, elem, all,
  ◌≡◌, lookup, insert, List, Bool, String, inr, inl, true, some, [],
}
use gpu_scheduler_lab.Queues.Hierarchy.{
  is_entitled, fits_limits, known_queue, aggregate_of, QueueHierarchy, ancestors, Usage, usage_of,
  aggregate_usage, can_allocate, spec_test, fits_guarantee,
}
use gpu_scheduler_lab.Queues.Hierarchy.Totals.{
  ⊞_none, share, PathsUnique, aggregate_of-eq, aggregate_usage-parts, subtree_usage-insert,
  insert-PathsUnique,
}

-- The use is of known queues, and each queue's, with what is below it, fits within its hard limit.
pub record WithinLimits (h : QueueHierarchy) (direct : Usage) : Type 0 where
  pub aggregate : Usage
  pub counted : aggregate_usage h direct ≡ ok aggregate
  pub fits :
      (a : String) (q : QueueSpec)
      → lookup a h.specs ≡ some q
      → fits_within (usage_of aggregate a) q.limit ≡ true

-- The direct usage once `demand` is charged to a queue.
abbrev pub charge : String → ResourceVector → Usage → Usage
charge queue_id demand direct = insert queue_id (usage_of direct queue_id ⊞ demand) direct

pub all-elem :
    (p : String → Bool) (path : List String) (a : String)
    → all p path ≡ true
    → elem a path ≡ true
    → p a ≡ true
all-elem p [] a h m = cc
all-elem p (b ∷ path) a h m = elim (Bool-cases (a == b)) [
  | inl same ↦ rw ((text_eq_instance.beq_iff a b).0 same) (ground arith)
  | inr other ↦ all-elem p path a (ground arith) (ground arith)
]

pub can_allocate-parts :
    (h : QueueHierarchy) (queue_id : String) (demand : ResourceVector) (borrowing : Bool)
    (aggregate : Usage)
    → can_allocate h queue_id demand borrowing aggregate ≡ ok true
    → (known_queue h queue_id ≡ ok tt)
      × (fits_limits h demand aggregate (ancestors h queue_id) ≡ ok true)
      × (is_entitled h (ancestors h queue_id) demand borrowing aggregate ≡ true)
unfolding can_allocate
can_allocate-parts h queue_id demand borrowing aggregate e =
    let entitled : Bool = is_entitled h (ancestors h queue_id) demand borrowing aggregate in
    let (u, known, more) =
      >>=-eq-ok (known_queue h queue_id)
        (λ u. fits_limits h demand aggregate (ancestors h queue_id) >>= λ within.
          ok (within && entitled))
        e in
    let (within, fitted, last) =
      >>=-eq-ok (fits_limits h demand aggregate (ancestors h queue_id))
        (λ within. ok (within && entitled)) more in
    let both = and-true within entitled (ok-injective last) in
    (known, fitted ∙ ap ok both.0, both.1)

fits_limits-elem :
    (h : QueueHierarchy) (demand : ResourceVector) (aggregate : Usage) (path : List String)
    (a : String) (q : QueueSpec)
    → fits_limits h demand aggregate path ≡ ok true
    → elem a path ≡ true
    → lookup a h.specs ≡ some q
    → fits_within (usage_of aggregate a ⊞ demand) q.limit ≡ true
unfolding fits_limits
fits_limits-elem h demand aggregate [] a q e m found = cc
fits_limits-elem h demand aggregate (b ∷ path) a q e m found =
    elim (Option-cases (lookup b aggregate)) [
      | inl missing ↦ absurd (ground (arith, missing, e))
      | inr (used, counted) ↦
          elim (Bool-cases (spec_test h (λ r. fits_within (used ⊞ demand) r.limit) b)) [
            | inr over ↦ absurd (ground (arith, counted, over, e))
            | inl fits ↦ elim (Bool-cases (a == b)) [
              | inl here ↦
                  let same : b ≡ a = sym ((text_eq_instance.beq_iff a b).0 here) in
                  let at : lookup a aggregate ≡ some used =
                    subst (λ x. lookup x aggregate ≡ some used) same counted in
                  let fits_here : spec_test h (λ r. fits_within (used ⊞ demand) r.limit) a ≡ true =
                    subst (λ x. spec_test h (λ r. fits_within (used ⊞ demand) r.limit) x ≡ true)
                      same fits in
                  ground (arith, at, fits_here, found)
              | inr later ↦
                  fits_limits-elem h demand aggregate path a q (ground (arith, counted, fits, e))
                    (ground (arith, later, m)) found
            ]
          ]
    ]

-- An allowed demand fits within the hard limit of every ancestor of its queue.
pub can_allocate-limits :
    (h : QueueHierarchy) (queue_id : String) (demand : ResourceVector) (borrowing : Bool)
    (aggregate : Usage) (a : String) (q : QueueSpec)
    → can_allocate h queue_id demand borrowing aggregate ≡ ok true
    → elem a (ancestors h queue_id) ≡ true
    → lookup a h.specs ≡ some q
    → fits_within (usage_of aggregate a ⊞ demand) q.limit ≡ true
can_allocate-limits h queue_id demand borrowing aggregate a q told above found =
    let (known, fitted, entitled) = can_allocate-parts h queue_id demand borrowing aggregate told in
    fits_limits-elem h demand aggregate (ancestors h queue_id) a q fitted above found

usage_of-charge :
    (h : QueueHierarchy) (a queue_id : String) (demand : ResourceVector) (direct : Usage)
    → PathsUnique h direct
    → Unique (ancestors h queue_id)
    → usage_of (aggregate_of h (charge queue_id demand direct)) a
      ≡ usage_of (aggregate_of h direct) a ⊞ share a (ancestors h queue_id) demand
usage_of-charge h a queue_id demand direct paths path =
    aggregate_of-eq h a (charge queue_id demand direct)
      (insert-PathsUnique h queue_id _ direct path paths)
    ∙ subtree_usage-insert h a queue_id demand direct
    ∙ ap (λ v. v ⊞ share a (ancestors h queue_id) demand) (sym (aggregate_of-eq h a direct paths))

insert-known :
    (h : QueueHierarchy) (queue_id : String) (u : ResourceVector) (direct : Usage)
    → known_queue h queue_id ≡ ok tt
    → check_each (known_queue h) (keys direct) ≡ ok tt
    → check_each (known_queue h) (keys (insert queue_id u direct)) ≡ ok tt
insert-known h queue_id u [] known all_known = ap (λ m. m >> ok tt) known
insert-known h queue_id u ((j, v) ∷ direct) known all_known =
    let (here, known_here, later) =
      >>=-eq-ok (known_queue h j) (λ done. check_each (known_queue h) (keys direct)) all_known in
    elim (Bool-cases (queue_id == j)) [
      | inl same ↦ rw same all_known
      | inr other ↦ rw other (
          ap (λ m. m >> check_each (known_queue h) (keys (insert queue_id u direct))) known_here
          ∙ insert-known h queue_id u direct known later)
    ]

charge-counted :
    (h : QueueHierarchy) (queue_id : String) (demand : ResourceVector) (direct : Usage)
    → known_queue h queue_id ≡ ok tt
    → check_each (known_queue h) (keys direct) ≡ ok tt
    → aggregate_usage h (charge queue_id demand direct)
      ≡ ok (aggregate_of h (charge queue_id demand direct))
unfolding aggregate_usage
charge-counted h queue_id demand direct known all_known =
    ap (λ m. m >> ok (aggregate_of h (charge queue_id demand direct)))
      (insert-known h queue_id (usage_of direct queue_id ⊞ demand) direct known all_known)

-- Charging a demand that can_allocate allows keeps every queue of the hierarchy within its hard
-- limit, for direct usages and a queue whose ancestors are distinct, and keeps the usages
-- countable.
pub can_allocate-WithinLimits :
    (h : QueueHierarchy) (queue_id : String) (demand : ResourceVector) (borrowing : Bool)
    (direct : Usage) {aggregate : Usage}
    → PathsUnique h direct
    → Unique (ancestors h queue_id)
    → WithinLimits h direct
    → aggregate_usage h direct ≡ ok aggregate
    → can_allocate h queue_id demand borrowing aggregate ≡ ok true
    → WithinLimits h (charge queue_id demand direct)
can_allocate-WithinLimits h queue_id demand borrowing direct {aggregate} paths path before counted
      allowed =
    let (all_known, sums) = aggregate_usage-parts h direct counted in
    let old : before.aggregate ≡ aggregate = ok-injective (sym before.counted ∙ counted) in
    let known = (can_allocate-parts h queue_id demand borrowing aggregate allowed).0 in
    record {
      aggregate = aggregate_of h (charge queue_id demand direct);
      counted = charge-counted h queue_id demand direct known all_known;
      fits = λ a q found.
          let fit_before : fits_within (usage_of aggregate a) q.limit ≡ true =
            ap (λ u. fits_within (usage_of u a) q.limit) (sym old) ∙ before.fits a q found in
          subst (λ v. fits_within v q.limit ≡ true)
            (ap (λ u. usage_of u a ⊞ share a (ancestors h queue_id) demand) sums
              ∙ sym (usage_of-charge h a queue_id demand direct paths path))
            (elim (Bool-cases (elem a (ancestors h queue_id))) [
              | inl above ↦ rw above (
                  can_allocate-limits h queue_id demand borrowing aggregate a q allowed above found)
              | inr apart ↦ rw (apart, ⊞_none (usage_of aggregate a)) fit_before
            ]);
    }

-- `filter` and `all` over a queue's ancestors, at one of them.
pub all-filter :
    (t p : String → Bool) (path : List String) (a : String)
    → all p (filter t path) ≡ true
    → elem a path ≡ true
    → t a ≡ true
    → p a ≡ true
all-filter t p [] a h m k = cc
all-filter t p (b ∷ path) a h m k = elim (Bool-cases (a == b)) [
  | inl same ↦
      let e : a ≡ b = (text_eq_instance.beq_iff a b).0 same in
      let kept : t b ≡ true = rw (← e) k in rw e (ground arith)
  | inr other ↦ all-filter t p path a (ground arith) (ground arith) k
]

-- Where nothing may be borrowed, a demand that can_allocate allows fits what every ancestor with a
-- guarantee has left of it, in each guaranteed dimension.
pub can_allocate-guarantees :
    (h : QueueHierarchy) (queue_id : String) (demand : ResourceVector) (aggregate : Usage)
    (a : String) (q : QueueSpec)
    → can_allocate h queue_id demand false aggregate ≡ ok true
    → elem a (ancestors h queue_id) ≡ true
    → lookup a h.specs ≡ some q
    → has_any q.guaranteed_dimensions ≡ true
    → fits_guarantee q (usage_of aggregate a ⊞ demand) ≡ true
unfolding is_entitled
can_allocate-guarantees h queue_id demand aggregate a q told above found guaranteed =
    let allowed = (can_allocate-parts h queue_id demand false aggregate told).2 in
    let at_ancestor =
      all-filter (spec_test h (λ r. has_any r.guaranteed_dimensions))
        (λ b. spec_test h (λ r. fits_guarantee r (usage_of aggregate b ⊞ demand)) b)
        (ancestors h queue_id) a (ground arith) above (ground arith) in
    ground arith
