-- ===== src/Queues/Hierarchy.antt =====
-- `QueueHierarchy` (gpu_scheduler_lab/queues/hierarchy.py): building and validating the tree of
-- queues, the ancestors of a queue, and what may be allocated in it. A walk to the root has as much
-- fuel as there are queues, and one more round to see the end.
pub mod Walks
pub mod Totals
pub mod Limits
use gpu_scheduler_lab.Prelude.{
  or_raise, ℕ, zero, suc, ◌+◌, String, text_eq_instance, ◌≡◌, Bool, true, false, ◌&&◌, ◌||◌, not,
  Option, none, some, List, [], ◌∷◌, map, ◌==◌, ltb, leb, if◌then◌else◌, length, any, all, filter,
  elem, is_empty, distinct, Dict, lookup, contains, insert, keys, values, get_or, append_to, sort,
  compare_text, Result, ok, raise, key_error, value_error, ◌>>=◌, ◌>>◌, raise_if, check_each, ◌<>◌,
}
use gpu_scheduler_lab.Queues.Resource.{
  ResourceVector, Dimensions, no_resources, tolerance, ◌⊞◌, fits_within, has_any, amount,
  all_dimensions, any_dimension,
}
use gpu_scheduler_lab.Queues.Spec.{QueueSpec, plain_queue}

abbrev pub Specs : Type 0
Specs = Dict String QueueSpec

pub record QueueHierarchy : Type 0 where
  pub specs : Specs
  pub children : Dict String (List String)

abbrev pub default_queue : String
default_queue = "root/default"

abbrev pub parent_of : Specs → String → Option String
parent_of specs queue_id = elim (lookup queue_id specs) [ none ↦ none | some q ↦ q.parent ]

-- The while loop of `_validate_acyclic` from one queue. `none` means that the fuel ran out.
unfoldable pub walk : ℕ → Specs → List String → Option String → Option (Result (Unit {0}))
walk zero specs seen current = none
walk (suc fuel) specs seen none = some (ok tt)
walk (suc fuel) specs seen (some queue_id) =
    let rest = walk fuel specs (queue_id ∷ seen) (parent_of specs queue_id) in
    if elem queue_id seen
    then some (raise (value_error ("queue hierarchy contains a cycle at " <> queue_id)))
    else rest

abbrev pub walk_fuel : Specs → ℕ
walk_fuel specs = suc (suc (length specs))

-- Fuel that runs out is no outcome of the source; the walk's theorem shows that it never does.
abbrev pub finished : Option (Result (Unit {0})) → Result (Unit {0})
finished none = raise (value_error "out of fuel")
finished (some r) = r

unfoldable pub validate_acyclic : Specs → Result (Unit {0})
unfolding walk
validate_acyclic specs =
    check_each (λ queue_id. finished (walk (walk_fuel specs) specs [] (some queue_id))) (keys specs)

abbrev spec_of : Specs → String → Result QueueSpec
spec_of specs queue_id = elim (lookup queue_id specs) [
  | none ↦ raise (key_error queue_id)
  | some q ↦ ok q
]

abbrev pub aggregate_guarantee : Specs → List String → ResourceVector
aggregate_guarantee specs [] = no_resources
aggregate_guarantee specs (child ∷ rest) = elim (lookup child specs) [
  | none ↦ aggregate_guarantee specs rest
  | some q ↦ q.guaranteed ⊞ aggregate_guarantee specs rest
]

abbrev pub exceeds_guarantee : QueueSpec → ResourceVector → Bool
exceeds_guarantee parent aggregate =
    any_dimension (λ d. ltb (amount d parent.guaranteed + tolerance) (amount d aggregate))
      parent.guaranteed_dimensions

abbrev check_children : Specs → String × List String → Result (Unit {0})
check_children specs (parent_id, child_ids) = do
  parent ← spec_of specs parent_id
  raise_if (not (fits_within (aggregate_guarantee specs child_ids) parent.limit))
      (value_error ("child guarantees exceed parent " <> parent_id <> " limit"))
  raise_if (exceeds_guarantee parent (aggregate_guarantee specs child_ids))
      (value_error ("child guarantees exceed parent " <> parent_id <> " guarantee"))

unfoldable pub validate_child_guarantees : Specs → Dict String (List String) → Result (Unit {0})
validate_child_guarantees specs children = check_each (check_children specs) children

abbrev add_missing : String → Option String → Specs → Specs
add_missing queue_id parent specs =
    if contains queue_id specs then specs else insert queue_id (plain_queue queue_id parent) specs

unfoldable pub complete_specs : List QueueSpec → Specs
complete_specs queues =
    add_missing default_queue (some "root") (add_missing "root" none (map (λ q. (q.id, q)) queues))

-- `not queue.parent`
abbrev lacks_parent : Option String → Bool
lacks_parent none = true
lacks_parent (some parent) = parent == ""

abbrev check_parent : Specs → QueueSpec → Result (Unit {0})
check_parent specs q = do
  raise_if (not (q.id == "root") && lacks_parent q.parent)
      (value_error ("queue " <> q.id <> " must declare a parent"))
  elim q.parent [
    | none ↦ ok tt
    | some parent ↦
        raise_if (not (contains parent specs))
          (value_error ("queue " <> q.id <> " has missing parent " <> parent))
  ]

abbrev has_parent : Option String → Bool
has_parent none = false
has_parent (some parent) = true

unfoldable pub children_by_parent : List QueueSpec → Dict String (List String)
children_by_parent [] = []
children_by_parent (q ∷ qs) = elim q.parent [
  | none ↦ children_by_parent qs
  | some parent ↦ append_to parent q.id (children_by_parent qs)
]

abbrev sort_children : Dict String (List String) → Dict String (List String)
sort_children children = map (λ item. (item.0, sort compare_text item.1)) children

-- `QueueHierarchy.__init__`
unfoldable pub new_hierarchy : List QueueSpec → Result QueueHierarchy
unfolding complete_specs validate_acyclic validate_child_guarantees children_by_parent
new_hierarchy queues = do
  raise_if (not (distinct (map (λ q. q.id) queues)))
      (value_error "duplicate queue IDs are not allowed")
  let specs = complete_specs queues
  raise_if (has_parent (parent_of specs "root")) (value_error "root queue must not have a parent")
  check_each (check_parent specs) (values specs)
  let children = sort_children (children_by_parent (values specs))
  validate_acyclic specs
  validate_child_guarantees specs children
  ok (record { specs = specs; children = children })

-- The while loop of `ancestors`.
unfoldable pub climb : ℕ → Specs → Option String → List String
climb zero specs current = []
climb (suc fuel) specs none = []
climb (suc fuel) specs (some queue_id) = queue_id ∷ climb fuel specs (parent_of specs queue_id)

-- `QueueHierarchy.ancestors` of a known queue, itself first
unfoldable pub ancestors : QueueHierarchy → String → List String
unfolding climb
ancestors h queue_id = climb (walk_fuel h.specs) h.specs (some queue_id)

abbrev pub Usage : Type 0
Usage = Dict String ResourceVector

abbrev pub usage_of : Usage → String → ResourceVector
usage_of usage queue_id = get_or queue_id no_resources usage

-- `for ancestor in …: aggregate[ancestor] = aggregate[ancestor] + usage`
abbrev pub add_along : List String → ResourceVector → Usage → Usage
add_along [] u aggregate = aggregate
add_along (a ∷ rest) u aggregate = add_along rest u (insert a (usage_of aggregate a ⊞ u) aggregate)

abbrev pub add_usages : QueueHierarchy → Usage → Usage → Usage
add_usages h [] aggregate = aggregate
add_usages h ((queue_id, u) ∷ rest) aggregate =
    add_usages h rest (add_along (ancestors h queue_id) u aggregate)

-- The loops of `aggregate_usage`, on the usage of known queues.
unfoldable pub aggregate_of : QueueHierarchy → Usage → Usage
unfolding ancestors
aggregate_of h direct = add_usages h direct (map (λ item. (item.0, no_resources)) h.specs)

-- The test of `ancestors`, which raises for an unknown queue.
abbrev pub known_queue : QueueHierarchy → String → Result (Unit {0})
known_queue h queue_id = raise_if (not (contains queue_id h.specs)) (key_error queue_id)

-- `QueueHierarchy.aggregate_usage`
unfoldable pub aggregate_usage : QueueHierarchy → Usage → Result Usage
unfolding aggregate_of
aggregate_usage h direct = do check_each (known_queue h) (keys direct); ok (aggregate_of h direct)

abbrev pub spec_test : QueueHierarchy → (QueueSpec → Bool) → String → Bool
spec_test h p queue_id = elim (lookup queue_id h.specs) [ none ↦ false | some q ↦ p q ]

-- `_fits_guarantee`
abbrev pub fits_guarantee : QueueSpec → ResourceVector → Bool
fits_guarantee q usage =
    has_any q.guaranteed_dimensions
    && all_dimensions (λ d. leb (amount d usage) (amount d q.guaranteed + tolerance))
        q.guaranteed_dimensions

-- The loop of `can_allocate` over the ancestors' hard limits, which ends at one that is exceeded.
unfoldable pub fits_limits : QueueHierarchy → ResourceVector → Usage → List String → Result Bool
fits_limits h demand aggregate [] = ok true
fits_limits h demand aggregate (a ∷ rest) =
    let later = fits_limits h demand aggregate rest in
    or_raise (lookup a aggregate) (key_error a) >>= λ used.
    if spec_test h (λ q. fits_within (used ⊞ demand) q.limit) a then later else ok false

-- The demand fits every guarantee among the ancestors, of which there is one, or may be borrowed.
unfoldable pub is_entitled : QueueHierarchy → List String → ResourceVector → Bool → Usage → Bool
is_entitled h path demand borrowing aggregate =
    let guaranteed = filter (spec_test h (λ q. has_any q.guaranteed_dimensions)) path in
    (not (is_empty guaranteed)
      && all (λ a. spec_test h (λ q. fits_guarantee q (usage_of aggregate a ⊞ demand)) a)
          guaranteed)
    || (borrowing && all (spec_test h (λ q. q.borrowing_enabled)) path)

-- `QueueHierarchy.can_allocate` with the aggregate usage given
unfoldable pub can_allocate : QueueHierarchy → String → ResourceVector → Bool → Usage → Result Bool
unfolding ancestors fits_limits is_entitled
can_allocate h queue_id demand borrowing aggregate = do
  known_queue h queue_id
  within ← fits_limits h demand aggregate (ancestors h queue_id)
  ok (within && is_entitled h (ancestors h queue_id) demand borrowing aggregate)

-- `QueueHierarchy.leaves`
unfoldable pub leaves : QueueHierarchy → List String
leaves h = sort compare_text (filter (λ id. is_empty (get_or id [] h.children)) (keys h.specs))
