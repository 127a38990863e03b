-- ===== src/Queues/Hierarchy/Totals.antt =====
-- `aggregate_usage` (gpu_scheduler_lab/queues/hierarchy.py) against its meaning: the usage that is
-- counted to a queue is the sum of what the queues below it use directly.
use gpu_scheduler_lab.Queues.Spec.{QueueSpec}
use gpu_scheduler_lab.Queues.Resource.{◌⊞◌, no_resources, ResourceVector}
use gpu_scheduler_lab.Prelude.{
  ok-injective, >>=-eq-ok, keys, check_each, ok, refl, map, ap, ◌∙◌, sym, Bool-cases, All, inr, inl,
  false, [], ◌∷◌, text_eq_instance, lookup-insert, ◌==◌, elem, arith, ◌≡◌, if◌then◌else◌, Unique,
  insert, List, String,
}
use gpu_scheduler_lab.Queues.Hierarchy.{
  known_queue, aggregate_of, Specs, QueueHierarchy, ancestors, Usage, usage_of, add_along,
  add_usages, aggregate_usage,
}

-- What one direct usage contributes to queue `a`, if `path` are its queue's ancestors.
abbrev pub share : String → List String → ResourceVector → ResourceVector
share a path u = if elem a path then u else no_resources

-- The sum of the direct usages of the queues that have `a` as an ancestor.
abbrev pub subtree_usage : QueueHierarchy → String → Usage → ResourceVector
subtree_usage h a [] = no_resources
subtree_usage h a ((queue_id, u) ∷ rest) = share a (ancestors h queue_id) u ⊞ subtree_usage h a rest

pub ⊞_comm : (a b : ResourceVector) → a ⊞ b ≡ b ⊞ a
⊞_comm a b = ground arith

pub ⊞_assoc : (a b c : ResourceVector) → a ⊞ b ⊞ c ≡ a ⊞ (b ⊞ c)
⊞_assoc a b c = ground arith

pub ⊞_none : (a : ResourceVector) → a ⊞ no_resources ≡ a
⊞_none a = ground arith

usage_of-insert :
    (k a : String) (u : ResourceVector) (usage : Usage)
    → usage_of (insert k u usage) a ≡ (if k == a then u else usage_of usage a)
usage_of-insert k a u usage = ground (arith, lookup-insert k a u usage)

usage_of-add_along :
    (a : String) (path : List String) (u : ResourceVector) (usage : Usage)
    → Unique path
    → usage_of (add_along path u usage) a ≡ usage_of usage a ⊞ share a path u
usage_of-add_along a [] u usage d = ground arith
usage_of-add_along a (b ∷ path) u usage d =
    rw (usage_of-add_along a path u (insert b (usage_of usage b ⊞ u) usage) d.1)
      (elim (Bool-cases (b == a)) [
        | inl same ↦
            let e : b ≡ a = (text_eq_instance.beq_iff b a).0 same in
            let absent : elem a path ≡ false = rw (← e) d.0 in
            ground (
              arith,
              usage_of-insert b a (usage_of usage b ⊞ u) usage,
              text_eq_instance.beq_iff a b,
            )
        | inr other ↦ ground (
          arith,
          usage_of-insert b a (usage_of usage b ⊞ u) usage,
          text_eq_instance.beq_iff a b,
          text_eq_instance.beq_iff b a,
        )
      ])

-- The queues that use something have chains of ancestors without a repetition.
abbrev pub PathsUnique : QueueHierarchy → Usage → Type 0
PathsUnique h direct = All (λ item. Unique (ancestors h item.0)) direct

usage_of-add_usages :
    (h : QueueHierarchy) (a : String) (direct usage : Usage)
    → PathsUnique h direct
    → usage_of (add_usages h direct usage) a ≡ usage_of usage a ⊞ subtree_usage h a direct
usage_of-add_usages h a [] usage d = sym (⊞_none (usage_of usage a))
usage_of-add_usages h a ((q, u) ∷ rest) usage d =
    usage_of-add_usages h a rest (add_along (ancestors h q) u usage) d.1
    ∙ ap (λ v. v ⊞ subtree_usage h a rest) (usage_of-add_along a (ancestors h q) u usage d.0)
    ∙ ⊞_assoc (usage_of usage a) (share a (ancestors h q) u) (subtree_usage h a rest)

usage_of-zero :
    (a : String) (specs : Specs)
    → usage_of (map (λ (item : String × QueueSpec). (item.0, no_resources)) specs) a ≡ no_resources
usage_of-zero a [] = refl
usage_of-zero a ((j, q) ∷ specs) = ground (arith, usage_of-zero a specs)

pub aggregate_of-eq :
    (h : QueueHierarchy) (a : String) (direct : Usage)
    → PathsUnique h direct
    → usage_of (aggregate_of h direct) a ≡ subtree_usage h a direct
unfolding aggregate_of
aggregate_of-eq h a direct d =
    usage_of-add_usages h a direct _ d
    ∙ ap (λ v. v ⊞ subtree_usage h a direct) (usage_of-zero a h.specs)
    ∙ ⊞_comm no_resources (subtree_usage h a direct)
    ∙ ⊞_none (subtree_usage h a direct)

pub aggregate_usage-parts :
    (h : QueueHierarchy) (direct : Usage) {aggregate : Usage}
    → aggregate_usage h direct ≡ ok aggregate
    → (check_each (known_queue h) (keys direct) ≡ ok tt) × (aggregate ≡ aggregate_of h direct)
unfolding aggregate_usage
aggregate_usage-parts h direct e =
    let (u, known, last) =
      >>=-eq-ok (check_each (known_queue h) (keys direct)) (λ u. ok (aggregate_of h direct)) e in
    (known, sym (ok-injective last))

-- What is counted to a queue is the sum of the direct usages of the queues below it, for direct
-- usages of known queues whose ancestors are distinct.
pub aggregate_usage-eq :
    (h : QueueHierarchy) (a : String) (direct : Usage) {aggregate : Usage}
    → PathsUnique h direct
    → aggregate_usage h direct ≡ ok aggregate
    → usage_of aggregate a ≡ subtree_usage h a direct
aggregate_usage-eq h a direct d e =
    ap (λ u. usage_of u a) (aggregate_usage-parts h direct e).1 ∙ aggregate_of-eq h a direct d

-- What replacing one queue's direct usage does to a sum, with the old share on the other side.
subtree_usage-replace :
    (h : QueueHierarchy) (a q : String) (v : ResourceVector) (direct : Usage)
    → subtree_usage h a (insert q v direct) ⊞ share a (ancestors h q) (usage_of direct q)
      ≡ subtree_usage h a direct ⊞ share a (ancestors h q) v
subtree_usage-replace h a q v [] = ground arith
subtree_usage-replace h a q v ((j, u) ∷ rest) = elim (Bool-cases (q == j)) [
  | inl same ↦
      let e : ancestors h j ≡ ancestors h q =
        ap (ancestors h) (sym ((text_eq_instance.beq_iff q j).0 same)) in
      rw (same, e) (ground arith)
  | inr other ↦ rw other (ground (arith, subtree_usage-replace h a q v rest))
]

cancel_share :
    (a : String) (path : List String) (x y u d : ResourceVector)
    → x ⊞ share a path u ≡ y ⊞ share a path (u ⊞ d)
    → x ≡ y ⊞ share a path d
cancel_share a path x y u d e = elim (Bool-cases (elem a path)) [
  | inl above ↦ ground arith
  | inr apart ↦ ground arith
]

-- More direct usage of one queue adds to each of its ancestors, and to no other queue.
pub subtree_usage-insert :
    (h : QueueHierarchy) (a q : String) (d : ResourceVector) (direct : Usage)
    → subtree_usage h a (insert q (usage_of direct q ⊞ d) direct)
      ≡ subtree_usage h a direct ⊞ share a (ancestors h q) d
subtree_usage-insert h a q d direct =
    cancel_share a (ancestors h q) _ (subtree_usage h a direct) (usage_of direct q) d
      (subtree_usage-replace h a q (usage_of direct q ⊞ d) direct)

pub insert-PathsUnique :
    (h : QueueHierarchy) (q : String) (u : ResourceVector) (direct : Usage)
    → Unique (ancestors h q)
    → PathsUnique h direct
    → PathsUnique h (insert q u direct)
insert-PathsUnique h q u [] p d = (p, tt)
insert-PathsUnique h q u ((j, v) ∷ rest) p d = elim (Bool-cases (q == j)) [
  | inl same ↦ rw same d
  | inr other ↦ rw other (d.0, insert-PathsUnique h q u rest p d.1)
]
