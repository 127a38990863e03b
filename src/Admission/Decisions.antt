-- ===== src/Admission/Decisions.antt =====
-- What an admitted job is known to have (gpu_scheduler_lab/admission/controller.py).
use gpu_scheduler_lab.Admission.Grouped.{feasible_gpu_sets-All, count_of-feasible_gpu_sets}
use native.Mathlib.Nat
use gpu_scheduler_lab.Models.Cluster.{Node, is_compatible, Gpu}
use gpu_scheduler_lab.Models.Job.{minimum_gpu_count, Job}
use gpu_scheduler_lab.Admission.{
  decide_feasible, compatible_on, check_mode, feasible_on, rejected_for, AdmissionDecision,
  flat_traverse, AdmissionController, decide,
}
use gpu_scheduler_lab.Prelude.{
  Within, count_of-filter, All-swap, count_of, Within, Bool, All-swap, flat_map, All-append, filter,
  elem, All-of_elem, list_eq, All-zip, length, All-filter, ◌≤◌, All, subst, ok-injective, ◌>>=◌,
  text_eq_instance, >>=-eq-ok, ◌++◌, ◌∷◌, Bool-cases, contains, arith, is_empty, ◌≡◌, String, List,
  inr, inl, ok, false, true, [],
}

-- GPUs that together could run the least replicas of a job: as many as those need, compatible with
-- it, and drawn from the GPUs on the nodes of one snapshot, which coexist: none is counted more
-- often than it stands there.
pub record IsRunnable (a : AdmissionController) (j : Job) (snapshots : List (List String))
    (gpu_set : List Gpu) : Type 0 where
  pub node_ids : List String
  pub snapshot : elem node_ids snapshots ≡ true
  pub enough : minimum_gpu_count j.spec ≤ length gpu_set
  pub drawn :
      Within gpu_set
        (flat_map (λ (n : Node). n.gpus) (filter (λ n. elem n.id node_ids) a.cluster.nodes))
  pub compatible : All (λ g. is_compatible g j ≡ true) gpu_set

module _ (a : AdmissionController) (j : Job) (snapshots : List (List String)) where
  feasible_on-IsRunnable :
      (node_ids : List String) {groups : List (List Gpu)}
      → elem node_ids snapshots ≡ true
      → feasible_on a j node_ids ≡ ok groups
      → All (IsRunnable a j snapshots) groups
  feasible_on-IsRunnable node_ids {groups} member at =
      let on_nodes : List Gpu =
        flat_map (λ (n : Node). n.gpus) (filter (λ n. elem n.id node_ids) a.cluster.nodes) in
      let compatible : List Gpu = compatible_on a.cluster j node_ids in
      let least = minimum_gpu_count j.spec in
      let within =
        All-swap (λ (p : Gpu → Bool) (gs : List Gpu). count_of p gs ≤ count_of p compatible) groups
          (λ p. count_of-feasible_gpu_sets p a.cluster j compatible least at) in
      All-zip groups
        (λ group known drawn. record {
          node_ids = node_ids;
          snapshot = member;
          enough = known.0;
          drawn = λ p. Nat.le_trans (drawn p) (count_of-filter p (λ g. is_compatible g j) on_nodes);
          compatible = known.1;
        })
        (feasible_gpu_sets-All (λ g. is_compatible g j ≡ true) a.cluster j compatible least at
          (All-filter (λ (g : Gpu). is_compatible g j ≡ true) (λ g. is_compatible g j) on_nodes
            (λ g e. e)))
        within

  All-IsRunnable :
      (xs : List (List String)) {feasible : List (List Gpu)}
      → All (λ x. elem x snapshots ≡ true) xs
      → flat_traverse (feasible_on a j) xs ≡ ok feasible
      → All (IsRunnable a j snapshots) feasible
  All-IsRunnable [] members e = subst (All (IsRunnable a j snapshots)) (ok-injective e) tt
  All-IsRunnable (x ∷ xs) members e =
      let (here, at, more) =
        >>=-eq-ok (feasible_on a j x)
          (λ here. flat_traverse (feasible_on a j) xs >>= λ rest. ok (here ++ rest)) e in
      let (rest, made, last) =
        >>=-eq-ok (flat_traverse (feasible_on a j) xs) (λ rest. ok (here ++ rest)) more in
      subst (All (IsRunnable a j snapshots)) (ok-injective last) (
        All-append (IsRunnable a j snapshots) here rest (feasible_on-IsRunnable x members.0 at)
          (All-IsRunnable xs members.1 made))

  pub feasible-IsRunnable :
      {feasible : List (List Gpu)}
      → flat_traverse (feasible_on a j) snapshots ≡ ok feasible
      → All (IsRunnable a j snapshots) feasible
  feasible-IsRunnable e =
      All-IsRunnable snapshots (All-of_elem (λ x. elem x snapshots ≡ true) snapshots (λ x m. m)) e

-- The sets that an admitted job could run on, and what its mode made of them.
pub admitted-feasible :
    (a : AdmissionController) (j : Job) (snapshots : List (List String)) {d : AdmissionDecision}
    → decide a j snapshots ≡ ok d
    → d.admitted ≡ true
    → (feasible : List (List Gpu)) × (flat_traverse (feasible_on a j) snapshots ≡ ok feasible)
      × (is_empty feasible ≡ false)
      × (check_mode a j a.mode feasible ≡ ok d)
unfolding decide
admitted-feasible a j snapshots {d} e admitted =
    elim (Bool-cases (contains j.queue_id a.hierarchy.specs)) [
      | inr unknown ↦
          let same : rejected_for "unknown_queue" ≡ d = ground arith in absurd (ground arith)
      | inl known ↦
          let (feasible, made, more) =
            >>=-eq-ok (flat_traverse (feasible_on a j) snapshots) (decide_feasible a j) {b = d}
              (ground arith) in
          elim (Bool-cases (is_empty feasible)) [
            | inl nothing ↦
                let same : rejected_for "impossible_gpu_request" ≡ d = ground arith in
                absurd (ground arith)
            | inr something ↦ (feasible, made, something, ground arith)
          ]
    ]

first_of {ℓ} :
    (P : List Gpu → Type ℓ) (groups : List (List Gpu))
    → is_empty groups ≡ false
    → All P groups
    → (group : List Gpu) × P group
first_of P [] n h = cc
first_of P (group ∷ groups) n h = (group, h.0)

-- For an admitted job there are, on the nodes of one of the snapshots, as many GPUs compatible
-- with it as its least replicas need, none of them counted more often than it stands on those
-- nodes.
pub decide-IsRunnable :
    (a : AdmissionController) (j : Job) (snapshots : List (List String)) {d : AdmissionDecision}
    → decide a j snapshots ≡ ok d
    → d.admitted ≡ true
    → (gpu_set : List Gpu) × IsRunnable a j snapshots gpu_set
decide-IsRunnable a j snapshots e admitted =
    let (feasible, made, some_set, checked) = admitted-feasible a j snapshots e admitted in
    first_of (IsRunnable a j snapshots) feasible some_set (feasible-IsRunnable a j snapshots made)
