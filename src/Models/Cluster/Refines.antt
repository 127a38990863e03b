-- ===== src/Models/Cluster/Refines.antt =====
-- The cluster's operations against a table of owners (gpu_scheduler_lab/models/cluster.py).
use gpu_scheduler_lab.Models.Cluster.Resized.{
  resize-released, resize-owners, elem-sorted_difference,
}
use gpu_scheduler_lab.Models.Cluster.Freed.{release-frees, finish_release-eq-ok}
use gpu_scheduler_lab.Models.Cluster.Writes.{find_gpu-write, gpus-map_gpus}
use gpu_scheduler_lab.Models.Cluster.Ownership.{
  WasOffered, gpu_by_id-found, allocate-owners, allocate-WasOffered,
}
use gpu_scheduler_lab.Models.Job.{Job}
use gpu_scheduler_lab.Models.Cluster.Allocation.{
  sorted_difference, resize, release, update_gpu, take_ownership, owned_by, give_up, allocate,
  release_gpus,
}
use gpu_scheduler_lab.Models.Cluster.{gpu_by_id, gpus, find_gpu, Gpu, Cluster}
use gpu_scheduler_lab.Prelude.{
  filter, elem-filter, All-elem, not-true, not, and-true, ok-injective, ◌>>◌, Result, raise, false,
  All-map_pred, Result-cases, sym, ◌==◌, All-of_elem, ap, ◌∙◌, arith, Bool-cases, text_eq_instance,
  Option-cases, elem, ◌∷◌, if◌then◌else◌, ◌≡◌, All, List, String, Option, inr, inl, ok, true, some,
  none, [], refl,
}
use mathlib.Core.Option

-- What the cluster promises, with nodes, memory and topology forgotten: who owns each GPU.
abbrev pub Owners : Type 0
Owners = String → Option String

abbrev pub owner_in : Option Gpu → Option String
owner_in o = elim o [ none ↦ none | some g ↦ g.owner_job_id ]

abbrev pub owners_of : Cluster → Owners
owners_of c k = owner_in (find_gpu k (gpus c))

-- The step of the table that a job's request is: the job owns each GPU that it gains, which nobody
-- owned; nobody owns those that it gives up, which were its own; all others keep their owner.
pub record Transfer (job_id : String) (gained dropped : List String) (t t' : Owners) : Type 0 where
  pub were_free : All (λ k. t k ≡ none) gained
  pub were_own : All (λ k. t k ≡ some job_id) dropped
  pub after :
      (k : String)
      → t' k ≡ (if elem k gained then some job_id else if elem k dropped then none else t k)

owner_in-give_up : (o : Option Gpu) → owner_in (Option.map give_up o) ≡ none
owner_in-give_up none = refl
owner_in-give_up (some g) = refl

-- A release that succeeds gave up only what the job owned.
released-owned :
    (job_id : String) (ids : List String) (c : Cluster) {u : Unit {0}} {c' : Cluster}
    → release_gpus job_id ids c ≡ (ok u, c')
    → All (λ k. owners_of c k ≡ some job_id) ids
unfolding release_gpus
released-owned job_id [] c h = tt
released-owned job_id (i ∷ ids) c {u} {c'} h = elim (Result-cases (gpu_by_id c i)) [
  | inr (e, failed) ↦ absurd (ground arith)
  | inl (g, found) ↦ elim (Bool-cases (owned_by job_id g)) [
    | inr other ↦ absurd (ground arith)
    | inl owned ↦
        let rest : release_gpus job_id ids (update_gpu i give_up c) ≡ (ok u, c') = ground arith in
        let at = (gpu_by_id-found c i found).0 in
        (
          ap owner_in at ∙ owner_of_owned g owned,
          All-map_pred _ ids (λ k later. before i k later)
              (released-owned job_id ids (update_gpu i give_up c) rest),
        )
  ]
]
  where
    owner_of_owned : (g : Gpu) → owned_by job_id g ≡ true → g.owner_job_id ≡ some job_id
    owner_of_owned g h = elim (Option-cases g.owner_job_id) [
      | inl unowned ↦ absurd (ground arith)
      | inr (owner, has) ↦
          let same : owner ≡ job_id = (text_eq_instance.beq_iff owner job_id).0 (ground arith) in
          has ∙ ap some same
    ]

    before :
        (i k : String)
        → owners_of (update_gpu i give_up c) k ≡ some job_id
        → owners_of c k ≡ some job_id
    before i k h =
        let at =
          ap (find_gpu k) (gpus-map_gpus _ c)
          ∙ find_gpu-write (λ x. x == i) k give_up (gpus c) (λ g. refl) in
        let seen = sym (ap owner_in at) ∙ h in
        elim (Bool-cases (k == i)) [
          | inr other ↦ ground (arith, other)
          | inl here ↦
              let gone = owner_in-give_up (find_gpu k (gpus c)) in absurd (ground (arith, gone))
        ]

module _ (c : Cluster) (j : Job) (ids : List String) where
  allocate-Transfer :
      {c' : Cluster} {j' : Job}
      → allocate c j ids ≡ ok (c', j')
      → Transfer j.id ids [] (owners_of c) (owners_of c')
  allocate-Transfer {c'} {j'} made =
      let owners = (allocate-owners c j ids made).3 in
      record {
        were_free = All-of_elem _ ids (λ k m.
            let was = allocate-WasOffered c j ids k made m in ap owner_in was.found ∙ was.unowned);
        were_own = tt;
        after = λ k. ap owner_in (owners k) ∙ taken k;
      }
    where
      taken :
          (k : String)
          → owner_in (
              if elem k ids
              then Option.map (take_ownership j) (find_gpu k (gpus c))
              else find_gpu k (gpus c))
            ≡ (if elem k ids then some j.id else owners_of c k)
      taken k = elim (Bool-cases (elem k ids)) [
        | inr other ↦ rw other refl
        | inl member ↦
            let was = allocate-WasOffered c j ids k made member in rw (member, was.found) refl
      ]

  release-Transfer :
      {u : Unit {0}} {c' : Cluster} {j' : Job}
      → release c j ≡ (ok u, c', j')
      → Transfer j.id [] j.allocated_gpu_ids (owners_of c) (owners_of c')
  unfolding release
  release-Transfer {u} {c'} h =
      let (done, left, job) = finish_release-eq-ok j (release_gpus j.id j.allocated_gpu_ids c) h in
      let owned =
        released-owned j.id j.allocated_gpu_ids c {u = u} {c' = c'} (λ i. (done i, left i)) in
      record {
        were_free = tt;
        were_own = owned;
        after = λ k. ap owner_in ((release-frees c j h).1 k) ∙ freed k;
      }
    where
      freed :
          (k : String)
          → owner_in (
              if elem k j.allocated_gpu_ids
              then Option.map give_up (find_gpu k (gpus c))
              else find_gpu k (gpus c))
            ≡ (if elem k j.allocated_gpu_ids then none else owners_of c k)
      freed k = elim (Bool-cases (elem k j.allocated_gpu_ids)) [
        | inr other ↦ rw other refl
        | inl held ↦ rw held (owner_in-give_up (find_gpu k (gpus c)))
      ]

  resize-Transfer :
      {u : Unit {0}} {c' : Cluster} {j' : Job}
      → resize c j ids ≡ (ok u, c', j')
      → Transfer j.id
          (sorted_difference ids j.allocated_gpu_ids)
          (sorted_difference j.allocated_gpu_ids ids)
          (owners_of c)
          (owners_of c')
  resize-Transfer {u} {c'} h =
      let (job, gains, drops, keeps) = resize-owners c j ids h in
      let gained : List String = sorted_difference ids j.allocated_gpu_ids in
      let dropped : List String = sorted_difference j.allocated_gpu_ids ids in
      record {
        were_free = All-of_elem _ gained (λ k m.
            let parts =
              and-true (elem k ids) (not (elem k j.allocated_gpu_ids))
                (sym (elem-sorted_difference k ids j.allocated_gpu_ids) ∙ m) in
            let was = (gains k parts.0 (not-true (elem k j.allocated_gpu_ids) parts.1)).0 in
            ap owner_in was.found ∙ was.unowned);
        were_own = released-owned j.id dropped c (resize-released c j ids h);
        after = λ k. moved k gains drops keeps;
      }
    where
      moved :
          (k : String)
          → ((k : String)
              → elem k ids ≡ true
              → elem k j.allocated_gpu_ids ≡ false
              → WasOffered c j k
                × (find_gpu k (gpus c') ≡ Option.map (take_ownership j) (find_gpu k (gpus c))))
          → ((k : String)
              → elem k ids ≡ false
              → elem k j.allocated_gpu_ids ≡ true
              → find_gpu k (gpus c') ≡ Option.map give_up (find_gpu k (gpus c)))
          → ((k : String)
              → elem k ids ≡ elem k j.allocated_gpu_ids
              → find_gpu k (gpus c') ≡ find_gpu k (gpus c))
          → owners_of c' k ≡ (
              if elem k (sorted_difference ids j.allocated_gpu_ids)
              then some j.id
              else if elem k (sorted_difference j.allocated_gpu_ids ids)
              then none
              else owners_of c k)
      moved k gains drops keeps =
          let up = elem-sorted_difference k ids j.allocated_gpu_ids in
          let down = elem-sorted_difference k j.allocated_gpu_ids ids in
          elim (Bool-cases (elem k ids)) [
            | inl wanted ↦ elim (Bool-cases (elem k j.allocated_gpu_ids)) [
              | inl held ↦
                  let same = ap owner_in (keeps k (wanted ∙ sym held)) in
                  ground (arith, up, down, same)
              | inr lacked ↦
                  let (was, at) = gains k wanted lacked in
                  let taken = ap owner_in (at ∙ ap (Option.map (take_ownership j)) was.found) in
                  ground (arith, up, down, taken)
            ]
            | inr unwanted ↦ elim (Bool-cases (elem k j.allocated_gpu_ids)) [
              | inl held ↦
                  let gone =
                    ap owner_in (drops k unwanted held) ∙ owner_in-give_up (find_gpu k (gpus c)) in
                  ground (arith, up, down, gone)
              | inr lacked ↦
                  let same = ap owner_in (keeps k (unwanted ∙ sym lacked)) in
                  ground (arith, up, down, same)
            ]
          ]

-- What a job may ask of the cluster.
pub data Request : Type 0 where
  claim : List String → Request
  give_back : Request
  change_to : List String → Request

abbrev pub operate : Cluster → Job → Request → Result (Cluster × Job)
operate c j (claim ids) = allocate c j ids
operate c j give_back = let out = release c j in out.0 >> ok (out.1, out.2)
operate c j (change_to target) = let out = resize c j target in out.0 >> ok (out.1, out.2)

-- What each request asks for, as sets: the GPUs that the job is to gain and to give up.
abbrev pub without : List String → List String → List String
without dropped ids = filter (λ k. not (elem k dropped)) ids

abbrev pub asks_for : Job → Request → List String
asks_for j (claim ids) = ids
asks_for j give_back = []
asks_for j (change_to target) = without j.allocated_gpu_ids target

abbrev pub gives_up : Job → Request → List String
gives_up j (claim ids) = []
gives_up j give_back = j.allocated_gpu_ids
gives_up j (change_to target) = without target j.allocated_gpu_ids

elem-without :
    (k : String) (ids other : List String)
    → elem k (sorted_difference ids other) ≡ elem k (without other ids)
elem-without k ids other =
    elem-sorted_difference k ids other ∙ sym (elem-filter (λ x. not (elem x other)) k ids)

-- A transfer depends on the sets of GPUs only.
same_sets :
    (job_id : String) (gained dropped gained' dropped' : List String) (t t' : Owners)
    → ((k : String) → elem k gained ≡ elem k gained')
    → ((k : String) → elem k dropped ≡ elem k dropped')
    → Transfer job_id gained dropped t t'
    → Transfer job_id gained' dropped' t t'
same_sets job_id gained dropped gained' dropped' t t' g d made = record {
  were_free =
      All-of_elem _ gained' (λ k m. All-elem (λ x. t x ≡ none) gained k made.were_free (g k ∙ m));
  were_own =
      All-of_elem _ dropped'
        (λ k m. All-elem (λ x. t x ≡ some job_id) dropped k made.were_own (d k ∙ m));
  after = λ k.
      made.after k
      ∙ ap (λ b. if b then some job_id else if elem k dropped then none else t k) (g k)
      ∙ ap (λ b. if elem k gained' then some job_id else if b then none else t k) (d k);
}

mutated :
    (out : Result (Unit {0}) × Cluster × Job) {made : Cluster × Job}
    → (out.0 >> ok (out.1, out.2)) ≡ ok made
    → (u : Unit {0}) × (out ≡ (ok u, made.0, made.1))
mutated (ok u, c, j) h = (u, λ i. (ok u, (ok-injective h i).0, (ok-injective h i).1))
mutated (raise e, c, j) h = cc

-- Allocation, release and resize, where they succeed, refine the table of owners. After an
-- allocation the job owns each GPU of the placement, after a release none that it held, after a
-- resize those of the target that it lacked but none that it held outside it; what it gains nobody
-- owned, what it gives up was its own, and every other GPU keeps its owner.
pub operate-Transfer :
    (c : Cluster) (j : Job) (request : Request) {made : Cluster × Job}
    → operate c j request ≡ ok made
    → Transfer j.id (asks_for j request) (gives_up j request) (owners_of c) (owners_of made.0)
operate-Transfer c j (claim ids) {made} h = allocate-Transfer c j ids {c' = made.0} {j' = made.1} h
operate-Transfer c j give_back h = release-Transfer c j [] (mutated (release c j) h).1
operate-Transfer c j (change_to target) {made} h =
    same_sets j.id (sorted_difference target j.allocated_gpu_ids)
      (sorted_difference j.allocated_gpu_ids target) (without j.allocated_gpu_ids target)
      (without target j.allocated_gpu_ids) (owners_of c) (owners_of made.0)
      (λ k. elem-without k target j.allocated_gpu_ids)
      (λ k. elem-without k j.allocated_gpu_ids target)
      (resize-Transfer c j target (mutated (resize c j target) h).1)
