-- ===== src/Schedulers/Topology/Counted.antt =====
-- The lists of GPUs that `TopologyAwareScheduler._place_candidates`
-- (gpu_scheduler_lab/schedulers/topology.py) draws candidates from hold no GPU more often than the
-- eligible ones do.
use gpu_scheduler_lab.Schedulers.Topology.{
  domain_at, compare_from, seeds, nodes_by_id, proposals, by_domain, around, Nodes,
}
use gpu_scheduler_lab.Models.Cluster.{Node, Gpu}
use gpu_scheduler_lab.Prelude.{
  count_of-sort, sym, ◌++◌, subst, count_of-append, ◌+◌, distinct→Unique, count_of-group_by,
  All-append, sort, if◌then◌else◌, Unique, All-sort, ◌∷◌, elem, arith, All-values, ◌≡◌,
  text_eq_instance, filter, ◌≤◌, ◌==◌, map, flat_map, distinct, count_of, String, All, Bool, List,
  false, true, [], refl,
}

-- No two of some nodes have the same id.
abbrev pub UniqueNodes : List Node → Type 0
UniqueNodes ns = (id : String) → count_of (λ (n : Node). id == n.id) ns ≤ 1

pub distinct-UniqueNodes :
    (ns : List Node) → distinct (map (λ (n : Node). n.id) ns) ≡ true → UniqueNodes ns
distinct-UniqueNodes ns e = count_of_unique ns (distinct→Unique (map (λ (n : Node). n.id) ns) e)
  where
    count_of-absent :
        (id : String) (ns : List Node)
        → elem id (map (λ (n : Node). n.id) ns) ≡ false
        → count_of (λ (n : Node). id == n.id) ns ≡ 0
    count_of-absent id [] h = refl
    count_of-absent id (n ∷ ns) h =
        ground (arith, text_eq_instance.beq_iff id n.id, count_of-absent id ns)

    count_of_unique : (ns : List Node) → Unique (map (λ (n : Node). n.id) ns) → UniqueNodes ns
    count_of_unique [] u id = omega arith
    count_of_unique (n ∷ ns) u id = ground (
      arith,
      text_eq_instance.beq_iff id n.id,
      count_of-absent n.id ns,
      count_of_unique ns u.1 id,
    )

module _ (p : Gpu → Bool) where
  count_of-one_more :
      (g : Gpu) (gs : List Gpu) (ns : List Node)
      → count_of p (flat_map (λ n. filter (λ h. h.node_id == n.id) (g ∷ gs)) ns)
        ≡ (if p g then count_of (λ n. g.node_id == n.id) ns else 0)
          + count_of p (flat_map (λ n. filter (λ h. h.node_id == n.id) gs) ns)
  count_of-one_more g gs [] = ground arith
  count_of-one_more g gs (n ∷ ns) = ground (
    arith,
    count_of-one_more g gs ns,
    count_of-append p (filter (λ h. h.node_id == n.id) gs)
        (flat_map (λ n. filter (λ h. h.node_id == n.id) gs) ns),
    count_of-append p (filter (λ h. h.node_id == n.id) (g ∷ gs))
        (flat_map (λ n. filter (λ h. h.node_id == n.id) (g ∷ gs)) ns),
  )

  -- The GPUs of nodes with distinct ids, node by node, are counted once.
  count_of-by_nodes :
      (gs : List Gpu) (ns : List Node)
      → UniqueNodes ns
      → count_of p (flat_map (λ n. filter (λ g. g.node_id == n.id) gs) ns) ≤ count_of p gs
  count_of-by_nodes [] ns u = none_left ns
    where
      none_left :
          (ns : List Node) → count_of p (flat_map (λ n. filter (λ g. g.node_id == n.id) []) ns) ≤ 0
      none_left [] = omega arith
      none_left (n ∷ ns) = none_left ns
  count_of-by_nodes (g ∷ gs) ns u =
      ground (arith, count_of-one_more g gs ns, u g.node_id, count_of-by_nodes gs ns u)

  count_of-around :
      (eligible : List Gpu) (ns seeds : List Node)
      → UniqueNodes ns
      → All (λ gs. count_of p gs ≤ count_of p eligible) (map (around ns eligible) seeds)
  count_of-around eligible ns [] u = tt
  count_of-around eligible ns (seed ∷ rest) u = (
    count_of-by_nodes eligible (sort (compare_from seed) ns) (λ id.
        subst (λ m. m ≤ 1) (sym (count_of-sort (λ (n : Node). id == n.id) (compare_from seed) ns))
          (u id)),
    count_of-around eligible ns rest u,
  )

  count_of-by_domain :
      (nodes : Nodes) (level : String) (eligible : List Gpu)
      → All (λ gs. count_of p gs ≤ count_of p eligible) (by_domain nodes level eligible)
  count_of-by_domain nodes level eligible =
      All-values (λ gs. count_of p gs ≤ count_of p eligible) _
        (All-sort _ (λ item. count_of p item.1 ≤ count_of p eligible) _
          (count_of-group_by p (λ (g : Gpu). domain_at nodes level g.node_id) eligible))

  pub count_of-proposals :
      (eligible : List Gpu) (ns : List Node)
      → UniqueNodes ns
      → All (λ gs. count_of p gs ≤ count_of p eligible) (proposals eligible ns)
  count_of-proposals eligible ns u =
      let nodes = nodes_by_id ns in
      let Few : List Gpu → Type 0 = λ gs. count_of p gs ≤ count_of p eligible in
      let around_seeds = map (around ns eligible) (seeds nodes eligible) in
      let zones = by_domain nodes "zone" eligible in
      let racks = by_domain nodes "rack" eligible in
      (
        omega arith,
        All-append Few (by_domain nodes "node" eligible) (racks ++ (zones ++ around_seeds))
            (count_of-by_domain nodes "node" eligible)
            (All-append Few racks (zones ++ around_seeds) (count_of-by_domain nodes "rack" eligible)
              (All-append Few zones around_seeds (count_of-by_domain nodes "zone" eligible)
                (count_of-around eligible ns (seeds nodes eligible) u))),
      )
