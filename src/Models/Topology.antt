-- ===== src/Models/Topology.antt =====
-- gpu_scheduler_lab/models/topology.py: topology domains, distances and required locality.
pub mod Collision
use gpu_scheduler_lab.Prelude.{
  ◌<>◌, text_eq_instance, ℕ, String, Bool, true, false, Option, none, some, List, ◌==◌,
  if◌then◌else◌, Dict, lookup, dedup, sort, compare_text, length, leb, nat_eq, Result, ok,
  key_error, ◌>>=◌, or_raise, traverse,
}

pub data TopologyMode : Type 0 where
  none_mode prefer_same_node prefer_same_rack require_same_node require_same_rack : TopologyMode

abbrev pub is_required : TopologyMode → Bool
is_required require_same_node = true
is_required require_same_rack = true
is_required none_mode = false
is_required prefer_same_node = false
is_required prefer_same_rack = false

-- A node's labels, such as its rack and its zone.
abbrev pub Labels : Type 0
Labels = Dict String String

-- `topology.get(level)` where an empty label counts as missing
abbrev pub label : Labels → String → Option String
label topology level = elim (lookup level topology) [
  | none ↦ none
  | some value ↦ if value == "" then none else some value
]

-- A rack's label is qualified by its zone, if there is one.
abbrev pub labelled_domain : Labels → String → String → String
labelled_domain topology level value =
    if level == "rack"
    then elim (label topology "zone") [ none ↦ value | some zone ↦ zone <> "/" <> value ]
    else value

unfoldable pub topology_domain : String → Labels → String → String
topology_domain node_id topology level =
    if level == "node" then node_id else elim (label topology level) [
      | none ↦ "__" <> level <> "_unknown__:" <> node_id
      | some value ↦ labelled_domain topology level value
    ]

unfoldable pub topology_distance : String → Labels → String → Labels → ℕ
topology_distance node_a_id topology_a node_b_id topology_b =
    if node_a_id == node_b_id
    then 0
    else if topology_domain node_a_id topology_a "rack"
        == topology_domain node_b_id topology_b "rack"
    then 1
    else if topology_domain node_a_id topology_a "zone"
        == topology_domain node_b_id topology_b "zone"
    then 2
    else 3

-- `topologies[node_id]`
abbrev pub labels_of : Dict String Labels → String → Result Labels
labels_of topologies node_id = or_raise (lookup node_id topologies) (key_error node_id)

abbrev pub rack_of : Dict String Labels → String → Result String
rack_of topologies node_id = do
  topology ← labels_of topologies node_id
  ok (topology_domain node_id topology "rack")

-- The nodes are known to be several.
abbrev pub required_locality : TopologyMode → List String → Dict String Labels → Result Bool
required_locality require_same_node unique topologies = ok (nat_eq (length unique) 1)
required_locality require_same_rack unique topologies = do
  racks ← traverse (rack_of topologies) unique
  ok (nat_eq (length (dedup racks)) 1)
required_locality none_mode unique topologies = ok true
required_locality prefer_same_node unique topologies = ok true
required_locality prefer_same_rack unique topologies = ok true

unfoldable pub topology_requirement_satisfied :
    TopologyMode → List String → Dict String Labels → Result Bool
topology_requirement_satisfied mode node_ids topologies =
    let unique = sort compare_text (dedup node_ids) in
    if leb (length unique) 1 then ok true else required_locality mode unique topologies
