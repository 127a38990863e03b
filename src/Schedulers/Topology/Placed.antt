-- ===== src/Schedulers/Topology/Placed.antt =====
-- What `TopologyAwareScheduler.place` (gpu_scheduler_lab/schedulers/topology.py) returns.
use gpu_scheduler_lab.Models.Topology.{topology_requirement_satisfied}
use gpu_scheduler_lab.Models.Cluster.Drawn.{clone_cluster-Within}
use native.Mathlib.Nat
use gpu_scheduler_lab.Schedulers.Topology.Sought.{View, whole_cluster, one_vendor, place-Selected}
use gpu_scheduler_lab.Schedulers.Topology.Counted.{UniqueNodes, distinct-UniqueNodes}
use gpu_scheduler_lab.Schedulers.Topology.Place.{place}
use gpu_scheduler_lab.Models.Job.{requested_gpu_count, Job}
use gpu_scheduler_lab.Models.Cluster.Allocation.{
  clone_gpus, with_gpus, topologies_of, clone_cluster,
}
use gpu_scheduler_lab.Models.Cluster.{
  is_schedulable, is_compatible, free, schedulable_gpus, Node, schedulable_nodes, Gpu, Cluster,
}
use gpu_scheduler_lab.Prelude.{
  count_of-map, sym, text_eq_instance, ◌≤◌, All-map_pred, subst, ◌==◌, map, distinct,
  count_of-filter, compare_text, Within, none, length, sort, Option-cases, arith, All, ◌≡◌, String,
  List, inr, inl, ok, true, some,
}

-- The nodes of a view have the ids of the cluster's.
View-UniqueNodes :
    (c view : Cluster) → View c view → UniqueNodes c.nodes → UniqueNodes (schedulable_nodes view)
unfolding clone_cluster
View-UniqueNodes c view whole_cluster u id =
    Nat.le_trans (count_of-filter (λ (n : Node). id == n.id) is_schedulable c.nodes) (u id)
View-UniqueNodes c view (one_vendor v) u id =
    let cloned : List Node = map (with_gpus (clone_gpus true (some v))) c.nodes in
    Nat.le_trans (count_of-filter (λ (n : Node). id == n.id) is_schedulable cloned) (
      subst (λ m. m ≤ 1)
        (sym
          (count_of-map (λ (n : Node). id == n.id) (with_gpus (clone_gpus true (some v))) c.nodes))
        (u id))

View-Within : (c view : Cluster) → View c view → Within (schedulable_gpus view) (schedulable_gpus c)
View-Within c view whole_cluster p = omega arith
View-Within c view (one_vendor v) p = clone_cluster-Within (some v) c p

-- What a placement is made of: GPUs of the cluster's schedulable nodes, none counted more often
-- than it stands there, free and compatible with the job, as many as it requests, and on nodes as
-- close to each other as it requires, by the topology of the nodes that they were sought on.
pub record Chosen (c : Cluster) (j : Job) (ids : List String) : Type 0 where
  pub placement : List Gpu
  pub named : ids ≡ sort compare_text (map (λ g. g.id) placement)
  pub requested : length placement ≡ requested_gpu_count j
  pub drawn : Within placement (schedulable_gpus c)
  pub ownerless : All (λ g. g.owner_job_id ≡ none) placement
  pub compatible : All (λ g. is_compatible g j ≡ true) placement
  pub view : Cluster
  pub seen : View c view
  pub close :
      topology_requirement_satisfied j.topology_mode
        (map (λ g. g.node_id) placement)
        (topologies_of (schedulable_nodes view))
      ≡ ok true

-- Where the ids of the nodes are distinct, which the construction of a cluster checks, a placement
-- of the topology scheduler is made of exactly the requested number of GPUs of the cluster, each
-- free, compatible with the job and on a schedulable node, and together as local as the job
-- requires.
pub place-Chosen :
    (c : Cluster) (j : Job) {ids : List String}
    → distinct (map (λ n. n.id) c.nodes) ≡ true
    → place c j ≡ ok (some ids)
    → Chosen c j ids
place-Chosen c j {ids} unique e =
    let (view, seen, found) = place-Selected c j e in
    let ids_once = View-UniqueNodes c view seen (distinct-UniqueNodes c.nodes unique) in
    record {
      placement = found.placement;
      named = found.named;
      requested = found.drawn.0;
      drawn = λ p. Nat.le_trans (found.drawn.1.1 ids_once p) (View-Within c view seen p);
      ownerless =
          All-map_pred _ found.placement (λ g o. ownerless_of g (ground (arith, o.1)))
            found.drawn.1.0;
      compatible = All-map_pred _ found.placement (λ g o. ground (arith, o.1)) found.drawn.1.0;
      view = view;
      seen = seen;
      close = found.satisfied;
    }
  where
    ownerless_of : (g : Gpu) → free g ≡ true → g.owner_job_id ≡ none
    ownerless_of g e = elim (Option-cases g.owner_job_id) [
      | inl unowned ↦ unowned
      | inr (owner, owned) ↦ absurd (ground arith)
    ]
