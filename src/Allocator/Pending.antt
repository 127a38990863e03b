-- ===== src/Allocator/Pending.antt =====
-- The order in which pending jobs are served (`pending_key`, `_queue_pending_key`,
-- `can_scale_up` and `_is_next_fairshare_branch` of gpu_scheduler_lab/allocation/allocator.py).
use gpu_scheduler_lab.Queues.Hierarchy.{ancestors}
use gpu_scheduler_lab.Fairshare.Shares.{weighted_dominant_share}
use gpu_scheduler_lab.Queues.Resource.{tolerance, amount, any_dimension, ResourceVector}
use gpu_scheduler_lab.Models.Job.{priority_value, Job}
use gpu_scheduler_lab.Queues.Spec.{QueueSpec}
use gpu_scheduler_lab.Allocator.{siblings, queue_usage, queue_spec, FairShare}
use gpu_scheduler_lab.Prelude.{
  reverse, whole, text_eq_instance, get_or, ◌+◌, length, elem, compare_text, ◌||◌, traverse, leb,
  compare_ℕ, ◌>>=◌, ◌==◌, ◌+ℤ◌, not, ltb, if◌then◌else◌, compare_ℤ, compare_fraction, pos, is_gt,
  flip_order, filter, compare_bool, Result, ◌∷◌, ℤ, minimum, and_then, String, Fraction, Ordering,
  List, Bool, ok, false, true, some, none, [], ℕ,
}

pub record QueueKey : Type 0 where
  pub satisfied : Bool
  pub debt : Fraction
  pub dominant : Fraction

abbrev pub compare_queue_key : QueueKey → QueueKey → Ordering
compare_queue_key a b =
    and_then (compare_bool a.satisfied b.satisfied)
      (and_then (compare_fraction a.debt b.debt) (compare_fraction a.dominant b.dominant))

-- A guaranteed dimension in which the use is below the guarantee.
unfoldable pub guarantee_deficit : QueueSpec → ResourceVector → Bool
guarantee_deficit q usage =
    any_dimension (λ d. ltb (amount d usage + tolerance) (amount d q.guaranteed))
      q.guaranteed_dimensions

-- `_queue_pending_key`
unfoldable pub queue_pending_key : FairShare → String → Result QueueKey
unfolding guarantee_deficit
queue_pending_key s queue_id = do
  q ← queue_spec s queue_id
  dominant ← weighted_dominant_share (queue_usage s queue_id) s.capacity q.weight
  ok (record {
    satisfied = not (guarantee_deficit q (queue_usage s queue_id));
    debt = if s.historical then get_or queue_id (whole 0) s.debts else whole 0;
    dominant = dominant;
  })

pub record PendingKey : Type 0 where
  pub path : List QueueKey
  pub priority : ℤ
  pub arrival_time : ℕ
  pub queue_id : String
  pub id : String

abbrev compare_path : List QueueKey → List QueueKey → Ordering
compare_path [] [] = Ordering.eq
compare_path [] (y ∷ ys) = Ordering.lt
compare_path (x ∷ xs) [] = Ordering.gt
compare_path (x ∷ xs) (y ∷ ys) = and_then (compare_queue_key x y) (compare_path xs ys)

abbrev pub compare_pending_key : PendingKey → PendingKey → Ordering
compare_pending_key a b = and_then (compare_path a.path b.path) (
    and_then (flip_order (compare_ℤ a.priority b.priority)) (
      and_then (compare_ℕ a.arrival_time b.arrival_time)
        (and_then (compare_text a.queue_id b.queue_id) (compare_text a.id b.id))))

-- The queues from below the root down to a job's queue.
abbrev pub branch_path : FairShare → String → List String
branch_path s queue_id =
    filter (λ id. not (id == "root")) (reverse (ancestors s.hierarchy queue_id))

abbrev sum_offsets : List QueueSpec → ℤ
sum_offsets [] = pos 0
sum_offsets (q ∷ qs) = q.priority_offset +ℤ sum_offsets qs

-- `pending_key`
unfoldable pub pending_key : FairShare → Job → Result PendingKey
unfolding queue_pending_key
pending_key s j = do
  path ← traverse (queue_pending_key s) (branch_path s j.queue_id)
  specs ← traverse (queue_spec s) (ancestors s.hierarchy j.queue_id)
  ok (record {
    path = path;
    priority = pos (priority_value j.priority) +ℤ sum_offsets specs;
    arrival_time = j.arrival_time;
    queue_id = j.queue_id;
    id = j.id;
  })

abbrev least_key : QueueKey → List QueueKey → QueueKey
least_key k ks = minimum compare_queue_key k ks

-- A branch is behind if a contender's key is less than its own.
abbrev is_behind : QueueKey → List QueueKey → Bool
is_behind key [] = false
is_behind key (k ∷ ks) = is_gt (compare_queue_key key (least_key k ks))

abbrev contenders : FairShare → QueueSpec → String → List String
contenders s q branch =
    filter (λ sibling. sibling == branch || elem sibling s.pending_branches) (siblings s q)

-- The loop over the branches. A lone contender needs no key.
unfoldable pub is_next_branch : FairShare → List String → Result Bool
unfolding queue_pending_key
is_next_branch s [] = ok true
is_next_branch s (branch ∷ rest) =
    let later = is_next_branch s rest in
    queue_spec s branch >>= λ q. if leb (length (contenders s q branch)) 1 then later else (do
      key ← queue_pending_key s branch
      keys ← traverse (queue_pending_key s) (contenders s q branch)
      (if is_behind key keys then ok false else later))

-- `can_scale_up`
unfoldable pub can_scale_up : FairShare → Job → Result Bool
unfolding is_next_branch
can_scale_up s j = elim j.elastic [
  | none ↦ ok false
  | some e ↦ if s.supports_elastic then is_next_branch s (branch_path s j.queue_id) else ok false
]
