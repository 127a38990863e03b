-- ===== src/Schedulers/Topology/Sound.antt =====
-- What the placements of `TopologyAwareScheduler` (gpu_scheduler_lab/schedulers/topology.py) have:
-- the number of GPUs requested, drawn from those that are eligible, as local as the job requires.
use gpu_scheduler_lab.Models.Cluster.Allocation.{topologies_of}
use gpu_scheduler_lab.Schedulers.Topology.Place.{select, satisfies, filter_result}
use gpu_scheduler_lab.Models.Job.{requested_gpu_count, Job}
use gpu_scheduler_lab.Schedulers.Topology.{
  score, compare_score, sorted_ids, seeds, proposals, domain_at, nodes_by_id, around,
  add_candidates, add_candidate, by_domain, Nodes, Candidates,
}
use gpu_scheduler_lab.Models.Cluster.{Cluster, Node, Gpu}
use gpu_scheduler_lab.Prelude.{
  sym, some_eq, minimum_ind, ◌>>=◌, if◌then◌else◌, >>=-eq-ok, false, some, ok-injective, subst,
  ◌++◌, Bool, Result, ok, true, list_eq, arith, text_eq_instance, take, nat_eq, All-group_by,
  All-filter_keep, ◌==◌, Bool-cases, All-sort, ◌∷◌, insert, filter, All-values, values, map,
  flat_map, All-append, ◌≡◌, All, length, String, List, inr, inl, [], ℕ,
}

module _ {ℓ} (P : List Gpu → Type ℓ) where
  All-insert_candidate :
      (k : List String) (placement : List Gpu) (d : Candidates)
      → P placement
      → All P (values d)
      → All P (values (insert k placement d))
  All-insert_candidate k placement [] p h = (p, tt)
  All-insert_candidate k placement ((j, w) ∷ d) p h = elim (Bool-cases (k == j)) [
    | inl e ↦ rw e (p, h.1)
    | inr e ↦ rw e (h.0, All-insert_candidate k placement d p h.1)
  ]

-- A placement of a number of GPUs which has a property.
abbrev pub Drawn {ℓ} : (List Gpu → Type ℓ) → ℕ → List Gpu → Type ℓ
Drawn Q required placement = (length placement ≡ required) × Q placement

module _ {ℓ} (Q : List Gpu → Type ℓ) (required : ℕ) where
  add_candidate-Drawn :
      (items : List Gpu) (d : Candidates)
      → Q (take required items)
      → All (Drawn Q required) (values d)
      → All (Drawn Q required) (values (add_candidate required items d))
  add_candidate-Drawn items d q h =
      elim (Bool-cases (nat_eq (length (take required items)) required)) [
        | inl e ↦
            rw e (
              All-insert_candidate (Drawn Q required) _ (take required items) d (ground arith, q) h)
        | inr e ↦ rw e h
      ]

  -- The first GPUs of each list are a candidate if they are enough.
  pub add_candidates-Drawn :
      (lists : List (List Gpu)) (d : Candidates)
      → All (λ items. Q (take required items)) lists
      → All (Drawn Q required) (values d)
      → All (Drawn Q required) (values (add_candidates required lists d))
  add_candidates-Drawn [] d q h = h
  add_candidates-Drawn (items ∷ rest) d q h =
      add_candidates-Drawn rest (add_candidate required items d) q.1
        (add_candidate-Drawn items d q.0 h)

module _ {ℓ} (P : Gpu → Type ℓ) where
  All-flat_map-filter :
      (eligible : List Gpu) (ns : List Node)
      → All P eligible
      → All P (flat_map (λ n. filter (λ g. g.node_id == n.id) eligible) ns)
  All-flat_map-filter eligible [] h = tt
  All-flat_map-filter eligible (n ∷ ns) h =
      All-append P (filter (λ g. g.node_id == n.id) eligible) _
        (All-filter_keep P (λ g. g.node_id == n.id) eligible h) (All-flat_map-filter eligible ns h)

  All-around :
      (ns : List Node) (eligible : List Gpu) (seeds : List Node)
      → All P eligible
      → All (All P) (map (around ns eligible) seeds)
  All-around ns eligible [] h = tt
  All-around ns eligible (seed ∷ rest) h =
      (All-flat_map-filter eligible _ h, All-around ns eligible rest h)

  All-by_domain :
      (nodes : Nodes) (level : String) (eligible : List Gpu)
      → All P eligible
      → All (All P) (by_domain nodes level eligible)
  All-by_domain nodes level eligible h = All-values (All P) _ (
      All-sort _ (λ item. All P item.1) _
        (All-group_by P (λ g. domain_at nodes level g.node_id) eligible h))

  -- What holds of every eligible GPU holds of those in each list.
  pub All-proposals :
      (eligible : List Gpu) (ns : List Node) → All P eligible → All (All P) (proposals eligible ns)
  All-proposals eligible ns h =
      let nodes = nodes_by_id ns in
      let around_seeds = map (around ns eligible) (seeds nodes eligible) in
      let zones = by_domain nodes "zone" eligible in
      let racks = by_domain nodes "rack" eligible in
      (
        h,
        All-append (All P) (by_domain nodes "node" eligible) (racks ++ (zones ++ around_seeds))
            (All-by_domain nodes "node" eligible h)
            (All-append (All P) racks (zones ++ around_seeds)
              (All-by_domain nodes "rack" eligible h)
              (All-append (All P) zones around_seeds (All-by_domain nodes "zone" eligible h)
                (All-around ns eligible (seeds nodes eligible) h))),
      )

-- The GPUs that a placement is made of.
pub record Selected {ℓ} (Q : List Gpu → Type ℓ) (ns : List Node) (j : Job) (ids : List String)
    : Type ℓ where
  pub placement : List Gpu
  pub named : ids ≡ sorted_ids placement
  pub drawn : Drawn Q (requested_gpu_count j) placement
  pub satisfied : satisfies j (topologies_of ns) placement ≡ ok true

module _ {ℓ κ} {A : Type ℓ} (p : A → Result Bool) (P : A → Type κ) where
  All-keep :
      (x : A) (keep : Bool) (rest : List A)
      → p x ≡ ok keep
      → P x
      → All (λ y. P y × (p y ≡ ok true)) rest
      → All (λ y. P y × (p y ≡ ok true)) (if keep then x ∷ rest else rest)
  All-keep x true rest e h r = ((h, e), r)
  All-keep x false rest e h r = r

  pub All-filter_result :
      (xs : List A) {ys : List A}
      → filter_result p xs ≡ ok ys
      → All P xs
      → All (λ y. P y × (p y ≡ ok true)) ys
  All-filter_result [] {ys} e h = subst (All (λ y. P y × (p y ≡ ok true))) (ok-injective e) tt
  All-filter_result (x ∷ xs) {ys} e h =
      let (keep, kept, more) =
        >>=-eq-ok (p x)
          (λ keep. filter_result p xs >>= λ rest. ok (if keep then x ∷ rest else rest)) e in
      let (rest, made, last) =
        >>=-eq-ok (filter_result p xs) (λ rest. ok (if keep then x ∷ rest else rest)) more in
      subst (All (λ y. P y × (p y ≡ ok true))) (ok-injective last)
        (All-keep x keep rest kept h.0 (All-filter_result xs made h.1))

module _ {ℓ} (Q : List Gpu → Type ℓ) (score_cluster : Cluster) (ns : List Node) (j : Job) where
  pub select-Selected :
      (feasible : List (List Gpu)) {ids : List String}
      → All
          (λ placement.
            Drawn Q (requested_gpu_count j) placement
            × (satisfies j (topologies_of ns) placement ≡ ok true))
          feasible
      → select score_cluster ns j feasible ≡ some ids
      → Selected Q ns j ids
  select-Selected [] h e = cc
  select-Selected (first ∷ rest) h e =
      let least =
        minimum_ind (λ a b. compare_score (score score_cluster ns a j) (score score_cluster ns b j))
          (λ placement.
            Drawn Q (requested_gpu_count j) placement
            × (satisfies j (topologies_of ns) placement ≡ ok true))
          first rest h.0 h.1 in
      record { placement = _; named = some_eq (sym e); drawn = least.0; satisfied = least.1 }
