-- ===== src/Fleet.antt =====
-- gpu_scheduler_lab/fleet/events.py: fleet events, and the sets of schedulable nodes along their
-- timeline. A set of node ids is a list, compared by its members.
pub mod Exact
use gpu_scheduler_lab.Models.Cluster.{schedulable_nodes, Cluster}
use gpu_scheduler_lab.Prelude.{
  value_error, compare_text, ◌==◌, text_eq_instance, is_empty, compare_bool, ◌++◌, raise_if, not,
  nat_eq, elem, compare_ℕ, ◌∷◌, ◌>>◌, ◌&&◌, sort, map, ltb, if◌then◌else◌, filter, and_then, all,
  String, Result, Ordering, Option, List, Bool, ok, false, true, some, none, [], ℕ,
}

pub data FleetEventType : Type 0 where
  node_join node_drain node_fail node_recover capacity_revoke capacity_return : FleetEventType

-- `event_type.value`
abbrev pub fleet_value : FleetEventType → String
fleet_value node_join = "NODE_JOIN"
fleet_value node_drain = "NODE_DRAIN"
fleet_value node_fail = "NODE_FAIL"
fleet_value node_recover = "NODE_RECOVER"
fleet_value capacity_revoke = "CAPACITY_REVOKE"
fleet_value capacity_return = "CAPACITY_RETURN"

-- `event_type in _CAPACITY_GAIN_EVENTS`
abbrev pub is_capacity_gain : FleetEventType → Bool
is_capacity_gain node_join = true
is_capacity_gain node_recover = true
is_capacity_gain capacity_return = true
is_capacity_gain node_drain = false
is_capacity_gain node_fail = false
is_capacity_gain capacity_revoke = false

pub record FleetEvent : Type 0 where
  pub time : ℕ
  pub event_type : FleetEventType
  pub node_id : String

-- `FleetEvent.__post_init__`
unfoldable pub new_fleet_event : FleetEvent → Result FleetEvent
new_fleet_event e = do
  raise_if (e.node_id == "") (value_error "fleet event node_id must not be empty")
  ok e

abbrev pub compare_fleet_event : FleetEvent → FleetEvent → Ordering
compare_fleet_event a b = and_then (compare_ℕ a.time b.time) (
    and_then
      (compare_bool (not (is_capacity_gain a.event_type)) (not (is_capacity_gain b.event_type)))
      (and_then (compare_text (fleet_value a.event_type) (fleet_value b.event_type))
        (compare_text a.node_id b.node_id)))

-- `a <= b` and `a == b` for sets
abbrev pub subset : List String → List String → Bool
subset a b = all (λ x. elem x b) a

abbrev pub set_equal : List String → List String → Bool
set_equal a b = subset a b && subset b a

-- `active.add(node_id)` and `active.discard(node_id)`
abbrev pub set_add : String → List String → List String
set_add x s = if elem x s then s else s ++ x ∷ []

abbrev pub set_discard : String → List String → List String
set_discard x s = filter (λ y. not (y == x)) s

-- What an event does to the active nodes. Nodes without GPUs are passed over.
abbrev pub apply_event : List String → FleetEvent → List String → List String
apply_event gpu_node_ids e active =
    if not (elem e.node_id gpu_node_ids)
    then active
    else if is_capacity_gain e.event_type
    then set_add e.node_id active
    else set_discard e.node_id active

abbrev pub apply_events : List String → List FleetEvent → List String → List String
apply_events gpu_node_ids [] active = active
apply_events gpu_node_ids (e ∷ rest) active =
    apply_events gpu_node_ids rest (apply_event gpu_node_ids e active)

abbrev pub differs_from_last : List (List String) → List String → Bool
differs_from_last [] snapshot = true
differs_from_last (s ∷ []) snapshot = not (set_equal snapshot s)
differs_from_last (s ∷ t ∷ rest) snapshot = differs_from_last (t ∷ rest) snapshot

-- `if not snapshots or snapshot != snapshots[-1]: snapshots.append(snapshot)`
abbrev pub append_snapshot : List String → List (List String) → List (List String)
append_snapshot snapshot snapshots =
    if differs_from_last snapshots snapshot then snapshots ++ snapshot ∷ [] else snapshots

-- The time of the event that comes next, if it is the same.
abbrev pub same_time_next : FleetEvent → List FleetEvent → Bool
same_time_next e [] = false
same_time_next e (f ∷ rest) = nat_eq f.time e.time

-- The loops over the groups of events of one time and over the events of each.
unfoldable pub collect :
    List String → List FleetEvent → List String → List (List String) → List (List String)
collect gpu_node_ids [] active snapshots = snapshots
collect gpu_node_ids (e ∷ rest) active snapshots =
    collect gpu_node_ids rest (apply_event gpu_node_ids e active) (
      if same_time_next e rest
      then snapshots
      else append_snapshot (apply_event gpu_node_ids e active) snapshots)

abbrev pub gpu_nodes : Cluster → List String
gpu_nodes c = map (λ n. n.id) (filter (λ n. not (is_empty n.gpus)) c.nodes)

abbrev pub initially_active : Cluster → List String
initially_active c = map (λ n. n.id) (schedulable_nodes c)

abbrev pub is_after : Option ℕ → FleetEvent → Bool
is_after none e = true
is_after (some after) e = ltb after e.time

abbrev pub future_events : Option ℕ → List FleetEvent → List FleetEvent
future_events after events = sort compare_fleet_event (filter (is_after after) events)

abbrev pub include_initial : Option ℕ → List FleetEvent → Bool
include_initial (some after) events = true
include_initial none [] = true
include_initial none (e ∷ rest) = ltb 0 e.time

-- `schedulable_node_snapshots`
unfoldable pub schedulable_node_snapshots :
    Cluster → List FleetEvent → Option ℕ → List (List String)
unfolding collect
schedulable_node_snapshots c fleet_events after =
    let events = future_events after fleet_events in
    collect (gpu_nodes c) events (initially_active c)
      (if include_initial after events then initially_active c ∷ [] else [])
