-- ===== src/Simulator/Capacity/Handled.antt =====
-- The state in which a fleet event leaves the nodes (gpu_scheduler_lab/simulator/engine.py).
use gpu_scheduler_lab.Simulator.Capacity.Lost.{lose_capacity_of-keeps}
use gpu_scheduler_lab.Simulator.Ownership.{release_preemption_reservation-cluster}
use gpu_scheduler_lab.Simulator.Reservations.{release_preemption_reservation}
use gpu_scheduler_lab.Models.Cluster.{Cluster, Node}
use gpu_scheduler_lab.Simulator.Capacity.Steps.{fleet_states, node_state, NodeState}
use gpu_scheduler_lab.Simulator.Capacity.{
  fleet_trace, draining_node, owners_on, available_node, lose_capacity_of, count_fleet_event,
  set_node, find_node, update_node, lose_node, targets_on, lost_node, release_reservations,
  change_node, invalidate_reservations_for_node, handle_fleet_event, capacity_loss,
}
use gpu_scheduler_lab.Simulator.{record_trace, Simulator, Policy}
use gpu_scheduler_lab.Prelude.{
  insert, key_error, lookup, or_raise, ◌>>=◌, ◌∙◌, Bool-cases, ◌∷◌, ok-injective, text_eq_instance,
  sym, >>=-eq-ok, ◌==◌, ap, ◌≡◌, if◌then◌else◌, map, String, List, inr, inl, suc, ok, false, true,
  [], refl, ℕ,
}
use gpu_scheduler_lab.Fleet.{
  fleet_value, FleetEventType, node_join, node_drain, node_fail, node_recover, capacity_revoke,
  capacity_return,
}

-- The state of the node of an event afterwards: in service, draining, or out of service.
abbrev pub settled : FleetEventType → NodeState → NodeState
settled node_join t = record t { schedulable = true; draining = false; available = true }
settled node_recover t = record t { schedulable = true; draining = false; available = true }
settled capacity_return t = record t { schedulable = true; draining = false; available = true }
settled node_drain t = record t { schedulable = false; draining = true }
settled node_fail t = record t { schedulable = false; draining = false; available = false }
settled capacity_revoke t = record t { schedulable = false; draining = false; available = false }

abbrev pub settle : FleetEventType → String → List NodeState → List NodeState
settle kind node_id states = map (λ t. if t.node == node_id then settled kind t else t) states

update_node-states :
    (kind : FleetEventType) (node_id : String) (f : Node → Node) (c : Cluster)
    → ((n : Node) → node_state (f n) ≡ settled kind (node_state n))
    → fleet_states (update_node node_id f c) ≡ settle kind node_id (fleet_states c)
update_node-states kind node_id f c h = over c.nodes
  where
    over :
        (ns : List Node)
        → map node_state (map (λ n. if n.id == node_id then f n else n) ns)
          ≡ settle kind node_id (map node_state ns)
    over [] = refl
    over (n ∷ ns) = elim (Bool-cases (n.id == node_id)) [
      | inl here ↦ rw here (λ i. h n i ∷ over ns i)
      | inr other ↦ rw other (λ i. node_state n ∷ over ns i)
    ]

release_reservations-cluster :
    (policy : Policy) (now : ℕ) (ids : List String) (s : Simulator) {s' : Simulator}
    → release_reservations policy now ids s ≡ ok s'
    → s'.cluster ≡ s.cluster
release_reservations-cluster policy now [] s h = ap (λ x. x.cluster) (sym (ok-injective h))
release_reservations-cluster policy now (i ∷ ids) s h =
    let (after, released, more) =
      >>=-eq-ok (release_preemption_reservation policy i now s)
        (release_reservations policy now ids) h in
    release_reservations-cluster policy now ids after more
    ∙ release_preemption_reservation-cluster policy i now s released

invalidate-cluster :
    (policy : Policy) (node_id : String) (now : ℕ) (s : Simulator) {s' : Simulator}
    → invalidate_reservations_for_node policy node_id now s ≡ ok s'
    → s'.cluster ≡ s.cluster
unfolding invalidate_reservations_for_node
invalidate-cluster policy node_id now s h =
    release_reservations-cluster policy now (targets_on node_id s) s h

capacity_loss-states :
    (node_id : String) (now : ℕ) (kind : FleetEventType) (s : Simulator) {s' : Simulator}
    → capacity_loss node_id now kind s ≡ ok s'
    → fleet_states s'.cluster ≡ fleet_states s.cluster
unfolding capacity_loss
capacity_loss-states node_id now kind s h =
    let (node, found, more) =
      >>=-eq-ok (find_node node_id s.cluster)
        (λ node. lose_capacity_of node_id now kind (owners_on node) s) h in
    (lose_capacity_of-keeps node_id now kind (owners_on node) s more).0

lose_node-states :
    (policy : Policy) (kind : FleetEventType) (node_id : String) (now : ℕ) (s : Simulator)
    {s' : Simulator}
    → ((n : Node) → node_state (lost_node n) ≡ settled kind (node_state n))
    → lose_node policy kind node_id now s ≡ ok s'
    → fleet_states s'.cluster ≡ settle kind node_id (fleet_states s.cluster)
lose_node-states policy kind node_id now s lost h =
    let (invalidated, released, more) =
      >>=-eq-ok (invalidate_reservations_for_node policy node_id now (set_node node_id lost_node s))
        (capacity_loss node_id now kind) h in
    capacity_loss-states node_id now kind invalidated more
    ∙ ap fleet_states
        (invalidate-cluster policy node_id now (set_node node_id lost_node s) released)
    ∙ update_node-states kind node_id lost_node s.cluster lost

change_node-states :
    (policy : Policy) (kind : FleetEventType) (node_id : String) (now : ℕ) (s : Simulator)
    {s' : Simulator}
    → change_node policy kind node_id now s ≡ ok s'
    → fleet_states s'.cluster ≡ settle kind node_id (fleet_states s.cluster)
change_node-states policy node_join node_id now s h =
    ap (λ x. fleet_states x.cluster) (sym (ok-injective h))
    ∙ update_node-states node_join node_id available_node s.cluster (λ n. refl)
change_node-states policy node_recover node_id now s h =
    ap (λ x. fleet_states x.cluster) (sym (ok-injective h))
    ∙ update_node-states node_recover node_id available_node s.cluster (λ n. refl)
change_node-states policy capacity_return node_id now s h =
    ap (λ x. fleet_states x.cluster) (sym (ok-injective h))
    ∙ update_node-states capacity_return node_id available_node s.cluster (λ n. refl)
change_node-states policy node_drain node_id now s h =
    ap fleet_states (invalidate-cluster policy node_id now (set_node node_id draining_node s) h)
    ∙ update_node-states node_drain node_id draining_node s.cluster (λ n. refl)
change_node-states policy node_fail node_id now s h =
    lose_node-states policy node_fail node_id now s (λ n. refl) h
change_node-states policy capacity_revoke node_id now s h =
    lose_node-states policy capacity_revoke node_id now s (λ n. refl) h

-- A fleet event that is handled without an error puts its node in service, drains it or takes it
-- out of service, as its kind says, and leaves the state of every other node as it was, whatever
-- becomes of the jobs on it.
pub handle_fleet_event-states :
    (policy : Policy) (kind : FleetEventType) (node_id : String) (now : ℕ) (s : Simulator)
    {s' : Simulator}
    → handle_fleet_event policy kind node_id now s ≡ ok s'
    → fleet_states s'.cluster ≡ settle kind node_id (fleet_states s.cluster)
unfolding handle_fleet_event
handle_fleet_event-states policy kind node_id now s {s'} h =
    let (node, found, counting) =
      >>=-eq-ok (find_node node_id s.cluster)
        (λ node. count_fleet_event kind s >>= λ counted.
          change_node policy kind node_id now counted >>= λ changed.
          ok (record_trace (fleet_trace now kind node) changed))
        h in
    let (counted, seen, changing) =
      >>=-eq-ok (count_fleet_event kind s)
        (λ counted. change_node policy kind node_id now counted >>= λ changed.
          ok (record_trace (fleet_trace now kind node) changed))
        counting in
    let (changed, done, last) =
      >>=-eq-ok (change_node policy kind node_id now counted)
        (λ changed. ok (record_trace (fleet_trace now kind node) changed)) changing in
    let (times, before, tallied) =
      >>=-eq-ok
        (or_raise (lookup (fleet_value kind) s.tally.fleet_counts) (key_error (fleet_value kind)))
        (λ times. ok (record s {
          tally = record s.tally {
            fleet_counts = insert (fleet_value kind) (suc times) s.tally.fleet_counts;
          };
        }))
        seen in
    ap (λ x. fleet_states x.cluster) (sym (ok-injective last))
    ∙ change_node-states policy kind node_id now counted done
    ∙ ap (λ x. settle kind node_id (fleet_states x.cluster)) (sym (ok-injective tallied))
