-- ===== src/Simulator/Capacity/Lost.antt =====
-- What a fleet event leaves of the nodes and of the GPUs on a lost node
-- (gpu_scheduler_lab/simulator/engine.py).
use gpu_scheduler_lab.Simulator.Capacity.Shrunk.{lose_capacity-LosesCapacity}
use gpu_scheduler_lab.Simulator.Capacity.Steps.{
  MayBeFreed-IsVacant, freed-IsVacant, IsVacant, fleet_states, LosesCapacity,
}
use gpu_scheduler_lab.Models.Job.{Job}
use gpu_scheduler_lab.Models.Cluster.{gpus, find_gpu, Node, Gpu}
use gpu_scheduler_lab.Fleet.{FleetEventType}
use gpu_scheduler_lab.Simulator.Capacity.{
  lose_capacity, owners_on, owner_list, find_node, lose_capacity_of, capacity_loss,
}
use gpu_scheduler_lab.Simulator.{Simulator}
use gpu_scheduler_lab.Prelude.{
  elem-append, beq_refl, ◌||◌, elem-dedup, ◌++◌, dedup, some_eq, compare_text, >>=-eq-ok,
  lookup-insert, elem-sort, beq_comm, Option-cases, Bool-cases, ◌∷◌, ◌∙◌, ◌>>=◌, subst,
  ok-injective, arith, ap, sym, flat_map, ◌⊎◌, text_eq_instance, if◌then◌else◌, elem, ◌≡◌, ◌==◌,
  lookup, List, String, inr, inl, ok, false, true, some, [], ℕ,
}

-- Every job of the table stands under its own id.
abbrev pub IsKeyed : Simulator → Type 0
IsKeyed s = (id : String) (j : Job) → lookup id s.by_id ≡ some j → j.id ≡ id

step-IsKeyed :
    (node_id : String) (j : Job) (s s' : Simulator)
    → LosesCapacity node_id j s s'
    → IsKeyed s
    → IsKeyed s'
step-IsKeyed node_id j s s' step keyed id k found =
    let at : (if step.left.id == id then some step.left else lookup id s.by_id) ≡ some k =
      sym (ap (lookup id) step.table ∙ lookup-insert step.left.id id step.left s.by_id) ∙ found in
    elim (Bool-cases (step.left.id == id)) [
      | inl here ↦
          let same : step.left ≡ k = some_eq (ground arith) in
          ap (λ x. x.id) (sym same) ∙ (text_eq_instance.beq_iff step.left.id id).0 here
      | inr other ↦ keyed id k (ground arith)
    ]

-- The loop over the owners changes no node's state, and a GPU that is vacant stays so.
pub lose_capacity_of-keeps :
    (node_id : String) (now : ℕ) (kind : FleetEventType) (ids : List String) (s : Simulator)
    {s' : Simulator}
    → lose_capacity_of node_id now kind ids s ≡ ok s'
    → (fleet_states s'.cluster ≡ fleet_states s.cluster)
      × ((k : String) → IsVacant k s.cluster → IsVacant k s'.cluster)
unfolding lose_capacity_of
lose_capacity_of-keeps node_id now kind [] s h =
    let same = ok-injective h in
    (
      ap (λ x. fleet_states x.cluster) (sym same),
      λ k v. subst (λ (x : Simulator). IsVacant k x.cluster) same v,
    )
lose_capacity_of-keeps node_id now kind (i ∷ ids) s {s'} h =
    elim (Option-cases (lookup i s.by_id)) [
      | inl unknown ↦ lose_capacity_of-keeps node_id now kind ids s {s' = s'} (ground arith)
      | inr (j, known) ↦
          let (after, stepped, more) =
            >>=-eq-ok (lose_capacity node_id now kind j s) (lose_capacity_of node_id now kind ids)
              {b = s'} (ground arith) in
          let step = lose_capacity-LosesCapacity node_id now kind j s stepped in
          let rest = lose_capacity_of-keeps node_id now kind ids after more in
          (
            rest.0 ∙ step.states,
            λ k v. rest.1 k (MayBeFreed-IsVacant k s.cluster after.cluster (step.only_frees k) v),
          )
    ]

-- A GPU that a job of the table holds.
pub record IsHeld (k : String) (g : Gpu) (owner : String) (s : Simulator) : Type 0 where
  pub job : Job
  pub known : lookup owner s.by_id ≡ some job
  pub holds : elem k job.allocated_gpu_ids ≡ true
  pub found : find_gpu k (gpus s.cluster) ≡ some g

module _ (node_id : String) (now : ℕ) (kind : FleetEventType) (k owner : String) (g : Gpu)
    (on_node : (g.node_id == node_id) ≡ true) where
  -- A step for another job leaves the GPU as it was or vacant.
  other_step :
      (i : String) (j : Job) (s after : Simulator)
      → (owner == i) ≡ false
      → j.id ≡ i
      → LosesCapacity node_id j s after
      → IsHeld k g owner s
      → IsHeld k g owner after ⊎ IsVacant k after.cluster
  other_step i j s after apart named step held = elim (step.only_frees k) [
    | inr freed ↦ inr (freed-IsVacant k s.cluster after.cluster freed)
    | inl same ↦ inl (record {
      job = held.job;
      known =
          ap (lookup owner) step.table
          ∙ lookup-insert step.left.id owner step.left s.by_id
          ∙ ap (λ b. if b then some step.left else lookup owner s.by_id) elsewhere
          ∙ held.known;
      holds = held.holds;
      found = same ∙ held.found;
    })
  ]
    where
      elsewhere : (step.left.id == owner) ≡ false
      elsewhere = ap (λ x. x == owner) (step.named ∙ named) ∙ beq_comm i owner ∙ apart

  vacated :
      (ids : List String) (s : Simulator) {s' : Simulator}
      → IsKeyed s
      → lose_capacity_of node_id now kind ids s ≡ ok s'
      → elem owner ids ≡ true
      → IsHeld k g owner s
      → IsVacant k s'.cluster
  unfolding lose_capacity_of
  vacated [] s keyed h m held = absurd (ground arith)
  vacated (i ∷ ids) s {s'} keyed h m held = elim (Option-cases (lookup i s.by_id)) [
    | inl unknown ↦
        let other : (owner == i) ≡ false = elim (Bool-cases (owner == i)) [
          | inr apart ↦ apart
          | inl same ↦
              let known =
                ap (λ x. lookup x s.by_id) (sym ((text_eq_instance.beq_iff owner i).0 same))
                ∙ held.known in
              absurd (ground (arith, known))
        ] in
        vacated ids s {s' = s'} keyed (ground arith) (ground arith) held
    | inr (j, known) ↦
        let (after, stepped, more) =
          >>=-eq-ok (lose_capacity node_id now kind j s) (lose_capacity_of node_id now kind ids)
            {b = s'} (ground arith) in
        let step = lose_capacity-LosesCapacity node_id now kind j s stepped in
        let rest = lose_capacity_of-keeps node_id now kind ids after more in
        elim (Bool-cases (owner == i)) [
          | inl same ↦
              let known_here =
                ap (λ x. lookup x s.by_id) ((text_eq_instance.beq_iff owner i).0 same) ∙ known in
              let same_job : held.job ≡ j = some_eq (sym held.known ∙ known_here) in
              let holds =
                subst (λ (x : Job). elem k x.allocated_gpu_ids ≡ true) same_job held.holds in
              rest.1 k (step.frees k g holds held.found on_node)
          | inr apart ↦ elim (other_step i j s after apart (keyed i j known) step held) [
            | inr vacant ↦ rest.1 k vacant
            | inl still ↦
                vacated ids after (step-IsKeyed node_id j s after step keyed) more (ground arith)
                  still
          ]
        ]
  ]

owner_among :
    (k owner : String) (gs : List Gpu) (g : Gpu)
    → find_gpu k gs ≡ some g
    → g.owner_job_id ≡ some owner
    → elem owner (flat_map owner_list gs) ≡ true
owner_among k owner [] g found owned = cc
owner_among k owner (x ∷ gs) g found owned = elim (Bool-cases (x.id == k)) [
  | inl here ↦
      let same : x ≡ g = some_eq (ground arith) in
      let owned_x : x.owner_job_id ≡ some owner =
        subst (λ (y : Gpu). y.owner_job_id ≡ some owner) (sym same) owned in
      let listed : owner_list x ≡ owner ∷ [] = ground arith in
      ap (λ l. elem owner (l ++ flat_map owner_list gs)) listed
      ∙ ap (λ b. b || elem owner (flat_map owner_list gs)) (beq_refl owner)
  | inr later ↦
      elem-append owner (owner_list x) (flat_map owner_list gs)
      ∙ ground (arith, owner_among k owner gs g (ground arith) owned)
]

-- After the loss of a node that succeeds, no job owns a GPU of the node that a job of the table
-- owned and held: each such job has given it up, where each job stands under its own id.
pub capacity_loss-IsVacant :
    (node_id : String) (now : ℕ) (kind : FleetEventType) (s : Simulator) (k owner : String)
    {node : Node} {g : Gpu} {s' : Simulator}
    → IsKeyed s
    → find_node node_id s.cluster ≡ ok node
    → find_gpu k node.gpus ≡ some g
    → (g.node_id == node_id) ≡ true
    → g.owner_job_id ≡ some owner
    → IsHeld k g owner s
    → capacity_loss node_id now kind s ≡ ok s'
    → IsVacant k s'.cluster
unfolding capacity_loss
capacity_loss-IsVacant node_id now kind s k owner {node} {g} {s'} keyed here at on owned held h =
    let loop : lose_capacity_of node_id now kind (owners_on node) s ≡ ok s' =
      ap (λ m. m >>= λ n. lose_capacity_of node_id now kind (owners_on n) s) (sym here) ∙ h in
    vacated node_id now kind k owner g on (owners_on node) s keyed loop
      (elem-sort compare_text owner (dedup (flat_map owner_list node.gpus))
        ∙ elem-dedup owner (flat_map owner_list node.gpus)
        ∙ owner_among k owner node.gpus g at owned)
      held
