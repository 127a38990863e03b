-- ===== src/Simulator/Capacity/Steps.antt =====
-- What the handling of one job leaves where a node is lost
-- (gpu_scheduler_lab/simulator/engine.py).
use gpu_scheduler_lab.Models.Cluster.Ownership.{gpu_by_id-found}
use gpu_scheduler_lab.Simulator.Capacity.Interrupted.{IsInterrupted}
use gpu_scheduler_lab.Simulator.{Simulator}
use gpu_scheduler_lab.Models.Job.{Job}
use gpu_scheduler_lab.Models.Cluster.Allocation.{with_gpus, map_gpus, give_up}
use gpu_scheduler_lab.Models.Cluster.{gpu_by_id, gpus, find_gpu, Node, Gpu, Cluster}
use gpu_scheduler_lab.Prelude.{
  ◌||◌, subst, ◌>>=◌, >>=-eq-ok, ok-injective, arith, text_eq_instance, not, ◌==◌, filter, ◌∷◌,
  some_eq, elem, Bool-cases, ◌⊎◌, insert, ap, ◌≡◌, ◌∙◌, traverse, map, sym, List, Bool, String,
  Option, inr, inl, ok, false, true, some, none, [], refl,
}
use mathlib.Core.Option

-- The state of a node as the fleet's events set it.
pub record NodeState : Type 0 where
  pub node : String
  pub schedulable : Bool
  pub draining : Bool
  pub available : Bool

abbrev pub node_state : Node → NodeState
node_state n = record {
  node = n.id;
  schedulable = n.schedulable;
  draining = n.draining;
  available = n.available;
}

abbrev pub fleet_states : Cluster → List NodeState
fleet_states c = map node_state c.nodes

pub map_gpus-fleet_states :
    (f : Gpu → Gpu) (c : Cluster) → fleet_states (map_gpus f c) ≡ fleet_states c
map_gpus-fleet_states f c = over c.nodes
  where
    over : (ns : List Node) → map node_state (map (with_gpus (map f)) ns) ≡ map node_state ns
    over [] = refl
    over (n ∷ ns) = ap (λ states. node_state n ∷ states) (over ns)

-- No job owns the GPU of this id.
abbrev pub IsVacant : String → Cluster → Type 0
IsVacant k c = (g : Gpu) → find_gpu k (gpus c) ≡ some g → g.owner_job_id ≡ none

-- The GPU of this id is as it was, or was given up.
abbrev pub MayBeFreed : String → Cluster → Cluster → Type 0
MayBeFreed k c c' =
    (find_gpu k (gpus c') ≡ find_gpu k (gpus c))
    ⊎ (find_gpu k (gpus c') ≡ Option.map give_up (find_gpu k (gpus c)))

given_up-IsVacant :
    (o : Option Gpu) (g : Gpu) → Option.map give_up o ≡ some g → g.owner_job_id ≡ none
given_up-IsVacant none g h = cc
given_up-IsVacant (some x) g h = ap (λ y. y.owner_job_id) (sym (some_eq h))

pub freed-IsVacant :
    (k : String) (c c' : Cluster)
    → find_gpu k (gpus c') ≡ Option.map give_up (find_gpu k (gpus c))
    → IsVacant k c'
freed-IsVacant k c c' h g at = given_up-IsVacant (find_gpu k (gpus c)) g (sym h ∙ at)

pub MayBeFreed-IsVacant :
    (k : String) (c c' : Cluster) → MayBeFreed k c c' → IsVacant k c → IsVacant k c'
MayBeFreed-IsVacant k c c' (inl same) v g at = v g (sym same ∙ at)
MayBeFreed-IsVacant k c c' (inr freed) v g at = freed-IsVacant k c c' freed g at

-- What one step of the loop over the owners does.
pub record LosesCapacity (node_id : String) (j : Job) (s s' : Simulator) : Type 0 where
  pub left : Job
  pub named : left.id ≡ j.id
  pub table : s'.by_id ≡ insert left.id left s.by_id
  pub only_frees : (k : String) → MayBeFreed k s.cluster s'.cluster
  pub frees :
      (k : String) (g : Gpu)
      → elem k j.allocated_gpu_ids ≡ true
      → find_gpu k (gpus s.cluster) ≡ some g
      → (g.node_id == node_id) ≡ true
      → IsVacant k s'.cluster
  pub states : fleet_states s'.cluster ≡ fleet_states s.cluster

pub interrupted-LosesCapacity :
    (node_id : String) (j : Job) (s s' : Simulator)
    → IsInterrupted j s s'
    → LosesCapacity node_id j s s'
interrupted-LosesCapacity node_id j s s' done = record {
  left = done.left;
  named = done.named;
  table = done.table;
  only_frees = λ k. elim (Bool-cases (elem k j.allocated_gpu_ids)) [
    | inl held ↦ inr (done.freed k ∙ rw held refl)
    | inr other ↦ inl (done.freed k ∙ rw other refl)
  ];
  frees = λ k g held at on. freed-IsVacant k s.cluster s'.cluster (done.freed k ∙ rw held refl);
  states = ap fleet_states done.written.1 ∙ map_gpus-fleet_states done.written.0 s.cluster;
}

-- The GPUs that a job keeps are among those it held, and stand on other nodes.
pub kept_elsewhere :
    (c : Cluster) (node_id : String) (ids : List String) (held : List Gpu) (k : String)
    → traverse (gpu_by_id c) ids ≡ ok held
    → elem k (map (λ g. g.id) (filter (λ g. not (g.node_id == node_id)) held)) ≡ true
    → (elem k ids ≡ true)
      × ((g : Gpu) → find_gpu k (gpus c) ≡ some g → (g.node_id == node_id) ≡ false)
kept_elsewhere c node_id [] held k h m = absurd (none_kept held (ok-injective h) m)
  where
    none_kept :
        (held : List Gpu)
        → [] ≡ held
        → elem k (map (λ g. g.id) (filter (λ g. not (g.node_id == node_id)) held)) ≡ true
        → ⊥
    none_kept [] e m = ground arith
    none_kept (g ∷ held) e m = cc
kept_elsewhere c node_id (i ∷ ids) held k h m =
    let (first, found, more) =
      >>=-eq-ok (gpu_by_id c i) (λ x. traverse (gpu_by_id c) ids >>= λ xs. ok (x ∷ xs)) h in
    let (rest, looked_up, last) =
      >>=-eq-ok (traverse (gpu_by_id c) ids) (λ xs. ok (first ∷ xs)) more in
    let (at, named) = gpu_by_id-found c i found in
    let split : first ∷ rest ≡ held = ok-injective last in
    let m' =
      subst (λ gs. elem k (map (λ g. g.id) (filter (λ g. not (g.node_id == node_id)) gs)) ≡ true)
        (sym split) m in
    elim (Bool-cases (elem k (map (λ g. g.id) (filter (λ g. not (g.node_id == node_id)) rest)))) [
      | inl later ↦
          let (member, elsewhere) = kept_elsewhere c node_id ids rest k looked_up later in
          (ground arith, elsewhere)
      | inr not_later ↦
          let here : (k == first.id) ≡ true = ground arith in
          let off : (first.node_id == node_id) ≡ false = ground arith in
          let same : k ≡ i = (text_eq_instance.beq_iff k first.id).0 here ∙ named in
          (
            ap (λ b. b || elem k ids) ((text_eq_instance.beq_iff k i).1 same),
            λ g found_g.
                let at_k : find_gpu k (gpus c) ≡ some first =
                  ap (λ x. find_gpu x (gpus c)) same ∙ at in
                subst (λ x. (x.node_id == node_id) ≡ false) (some_eq (sym at_k ∙ found_g)) off,
          )
    ]
