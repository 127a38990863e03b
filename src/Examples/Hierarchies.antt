-- ===== src/Examples/Hierarchies.antt =====
-- What the queue hierarchy and the fair-share scheduler do with two queues.
use gpu_scheduler_lab.Models.Elastic.{unit}
use gpu_scheduler_lab.Examples.{used, two_queues, queue_list}
use gpu_scheduler_lab.Queues.Spec.{QueueSpec}
use gpu_scheduler_lab.Queues.Resource.{ResourceVector}
use gpu_scheduler_lab.Queues.Hierarchy.Walks.{walk-fuel_enough, new_hierarchy-ancestors, IsAncestry}
use gpu_scheduler_lab.Queues.Hierarchy.Totals.{aggregate_usage-eq, subtree_usage, PathsUnique}
use gpu_scheduler_lab.Queues.Hierarchy.Limits.{can_allocate-WithinLimits, charge, WithinLimits}
use gpu_scheduler_lab.Queues.Hierarchy.{
  is_entitled, fits_limits, aggregate_of, Usage, climb, children_by_parent, complete_specs,
  validate_child_guarantees, walk_fuel, validate_acyclic, ancestors, aggregate_usage, walk,
  usage_of, new_hierarchy, can_allocate,
}
use gpu_scheduler_lab.Prelude.{
  arith, sort, text_eq_instance, ◌≢◌, ◌≡◌, pos, ◌*◌, elem, Unique, ok, false, true, some, none, [],
  refl,
}

program : Unit {0}
unfolding walk validate_acyclic validate_child_guarantees complete_specs children_by_parent
    new_hierarchy climb ancestors aggregate_of aggregate_usage can_allocate fits_limits is_entitled
    sort
program = tt

built : new_hierarchy queue_list ≡ ok two_queues
unfolding program
built = refl

walk-fuel_enough_example :
    walk (walk_fuel two_queues.specs) two_queues.specs [] (some "root/a") ≢ none
walk-fuel_enough_example = walk-fuel_enough two_queues.specs "root/a"

new_hierarchy-ancestors_example :
    IsAncestry two_queues.specs (some "root/a") (ancestors two_queues "root/a")
    × Unique (ancestors two_queues "root/a")
new_hierarchy-ancestors_example =
    new_hierarchy-ancestors queue_list {h = two_queues} "root/a" built refl

paths_unique : PathsUnique two_queues used
unfolding program
paths_unique = ((refl, (refl, tt)), ((refl, (refl, tt)), tt))

unfoldable counted : (aggregate : Usage) × (aggregate_usage two_queues used ≡ ok aggregate)
unfolding program
counted = (_, refl)

aggregate_usage-eq_example : usage_of counted.0 "root" ≡ subtree_usage two_queues "root" used
aggregate_usage-eq_example =
    aggregate_usage-eq two_queues "root" used {aggregate = counted.0} paths_unique counted.1

abbrev two_units : ResourceVector
two_units = record { gpu_units = 2 * unit; gpu_memory_gb = 60 * unit }

path-Unique : Unique (ancestors two_queues "root/a")
unfolding program
path-Unique = (refl, (refl, tt))

allowed : can_allocate two_queues "root/a" two_units false counted.0 ≡ ok true
unfolding program counted
allowed = refl

-- Only one of these queues has a limit, and nothing is used in it.
within_before : WithinLimits two_queues used
unfolding program counted
within_before = record {
  aggregate = counted.0;
  counted = counted.1;
  fits = λ a q found. ground (arith, found);
}

can_allocate-WithinLimits_example : WithinLimits two_queues (charge "root/a" two_units used)
can_allocate-WithinLimits_example =
    can_allocate-WithinLimits two_queues "root/a" two_units false used {aggregate = counted.0}
      paths_unique path-Unique within_before counted.1 allowed

abbrev queue_a : QueueSpec
queue_a = record {
  id = "root/a";
  parent = some "root";
  weight = unit;
  guaranteed = record { gpu_units = 2 * unit; gpu_memory_gb = 0 };
  limit = some (record { gpu_units = 3 * unit; gpu_memory_gb = 100 * unit });
  borrowing_enabled = true;
  reclaimable = true;
  priority_offset = pos 0;
  guaranteed_dimensions = record { has_units = true; has_memory = false };
}

member : elem "root/a" (ancestors two_queues "root/a") ≡ true
unfolding program
member = refl
