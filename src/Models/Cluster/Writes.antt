-- ===== src/Models/Cluster/Writes.antt =====
-- What the writes of the cluster's operations (gpu_scheduler_lab/models/cluster.py) do to the GPU
-- that is found under an id, and that a run of writes is one write of all the ids.
use gpu_scheduler_lab.Models.Job.{Job}
use mathlib.Core.Option
use mathlib.Core.Path.{fun_ext}
use mathlib.Core.List.{map-append}
use gpu_scheduler_lab.Prelude.{
  Bool, Bool-cases, arith, ◌==◌, text_eq_instance, if◌then◌else◌, elem, ◌∷◌, String, ◌≡◌, List, All,
  inr, inl, [], refl, sym, ap, ◌∙◌, ◌++◌, map, flat_map,
}
use gpu_scheduler_lab.Models.Cluster.{Gpu, Node, Cluster, gpus, find_gpu}
use gpu_scheduler_lab.Models.Cluster.Allocation.{
  write_where, map_gpus, update_gpu, with_gpus, take_ownership, assign,
}

gpus-map_nodes :
    (f : Gpu → Gpu) (ns : List Node)
    → flat_map (λ (n : Node). n.gpus) (map (with_gpus (map f)) ns)
      ≡ map f (flat_map (λ n. n.gpus) ns)
gpus-map_nodes f [] = refl
gpus-map_nodes f (n ∷ ns) =
    ap (λ gs. map f n.gpus ++ gs) (gpus-map_nodes f ns)
    ∙ sym (map-append f n.gpus (flat_map (λ n. n.gpus) ns))

pub gpus-map_gpus : (f : Gpu → Gpu) (c : Cluster) → gpus (map_gpus f c) ≡ map f (gpus c)
gpus-map_gpus f c = gpus-map_nodes f c.nodes

map-map : (f g : Gpu → Gpu) (gs : List Gpu) → map f (map g gs) ≡ map (λ x. f (g x)) gs
map-map f g [] = refl
map-map f g (x ∷ gs) = ap (λ ys. f (g x) ∷ ys) (map-map f g gs)

map_nodes-map_nodes :
    (f g : Gpu → Gpu) (ns : List Node)
    → map (with_gpus (map f)) (map (with_gpus (map g)) ns) ≡ map (with_gpus (map (λ x. f (g x)))) ns
map_nodes-map_nodes f g [] = refl
map_nodes-map_nodes f g (n ∷ ns) =
    λ i. record n { gpus = map-map f g n.gpus i } ∷ map_nodes-map_nodes f g ns i

-- Two writes of every GPU are one.
pub map_gpus-map_gpus :
    (f g : Gpu → Gpu) (c : Cluster) → map_gpus f (map_gpus g c) ≡ map_gpus (λ x. f (g x)) c
map_gpus-map_gpus f g c = λ i. record { nodes = map_nodes-map_nodes f g c.nodes i }

pub map_gpus_congr :
    (f g : Gpu → Gpu) (c : Cluster) → ((x : Gpu) → f x ≡ g x) → map_gpus f c ≡ map_gpus g c
map_gpus_congr f g c h = ap (λ k. map_gpus k c) (fun_ext h)

map_id_on : (f : Gpu → Gpu) (gs : List Gpu) → All (λ g. f g ≡ g) gs → map f gs ≡ gs
map_id_on f [] h = refl
map_id_on f (g ∷ gs) h = λ i. h.0 i ∷ map_id_on f gs h.1 i

All-append_left : (P : Gpu → Type 0) (xs ys : List Gpu) → All P (xs ++ ys) → All P xs × All P ys
All-append_left P [] ys h = (tt, h)
All-append_left P (x ∷ xs) ys h =
    let (first, rest) = All-append_left P xs ys h.1 in ((h.0, first), rest)

map_nodes_id_on :
    (f : Gpu → Gpu) (ns : List Node)
    → All (λ g. f g ≡ g) (flat_map (λ (n : Node). n.gpus) ns)
    → map (with_gpus (map f)) ns ≡ ns
map_nodes_id_on f [] h = refl
map_nodes_id_on f (n ∷ ns) h =
    let (here, rest) = All-append_left (λ g. f g ≡ g) n.gpus (flat_map (λ n. n.gpus) ns) h in
    λ i. record n { gpus = map_id_on f n.gpus here i } ∷ map_nodes_id_on f ns rest i

-- A write that changes no GPU of the cluster changes nothing.
pub map_gpus_id_on : (f : Gpu → Gpu) (c : Cluster) → All (λ g. f g ≡ g) (gpus c) → map_gpus f c ≡ c
map_gpus_id_on f c h = λ i. record { nodes = map_nodes_id_on f c.nodes h i }

-- A write that leaves the id alone.
abbrev pub KeepsId : (Gpu → Gpu) → Type 0
KeepsId f = (g : Gpu) → (f g).id ≡ g.id

-- A write of the ids that pass a test, seen at the GPU that is found under `k`.
pub find_gpu-write :
    (p : String → Bool) (k : String) (f : Gpu → Gpu) (gs : List Gpu)
    → KeepsId f
    → find_gpu k (map (write_where (λ g. p g.id) f) gs)
      ≡ (if p k then Option.map f (find_gpu k gs) else find_gpu k gs)
find_gpu-write p k f [] keeps = ground arith
find_gpu-write p k f (g ∷ gs) keeps = elim (Bool-cases (g.id == k)) [
  | inl same ↦
      let e : g.id ≡ k = (text_eq_instance.beq_iff g.id k).0 same in
      let e' : p g.id ≡ p k = ap p e in ground (arith, keeps g, text_eq_instance.beq_iff (f g).id k)
  | inr other ↦ ground (
    arith,
    find_gpu-write p k f gs keeps,
    keeps g,
    text_eq_instance.beq_iff (f g).id k,
    text_eq_instance.beq_iff g.id k,
  )
]

-- `assign` writes every id of its list.
assign_twice :
    (j : Job) (i : String) (ids : List String) (g : Gpu)
    → write_where
        (λ x. elem x.id ids)
        (take_ownership j)
        (write_where (λ x. x.id == i) (take_ownership j) g)
      ≡ write_where (λ x. elem x.id (i ∷ ids)) (take_ownership j) g
assign_twice j i ids g = ground arith

pub assign-eq :
    (j : Job) (ids : List String) (c : Cluster)
    → assign j ids c ≡ map_gpus (write_where (λ g. elem g.id ids) (take_ownership j)) c
unfolding assign
assign-eq j [] c = sym (map_gpus_id_on _ c (All-refl (gpus c)))
  where
    All-refl : (gs : List Gpu) → All (λ g. g ≡ g) gs
    All-refl [] = tt
    All-refl (g ∷ gs) = (refl, All-refl gs)
assign-eq j (i ∷ ids) c =
    assign-eq j ids (update_gpu i (take_ownership j) c)
    ∙ map_gpus-map_gpus _ _ c
    ∙ map_gpus_congr _ _ c (assign_twice j i ids)
