-- ===== src/Schedulers/Packing/Atomic.antt =====
-- Placements are whole, whichever scheduler makes them (gpu_scheduler_lab/schedulers), and the
-- packing schedulers find one whenever the nodes have enough eligible GPUs.
use gpu_scheduler_lab.Schedulers.Topology.Sought.{place-Selected}
use gpu_scheduler_lab.Schedulers.Topology.Place.{place}
use gpu_scheduler_lab.Schedulers.Packing.Complete.{
  fill_complete, beyond-zero, spread_rounds-length, spread_rounds_complete, fill-length,
}
use gpu_scheduler_lab.Models.Topology.{is_required}
use gpu_scheduler_lab.Schedulers.Topology.Place.{Placement}
use gpu_scheduler_lab.Models.Job.{requested_gpu_count, Job}
use gpu_scheduler_lab.Schedulers.Packing.{
  compare_packing, candidates_of, available_on, fifo_ids, spread_ids, binpack_ids, spread_place,
  binpack_place, validate_atomic_placement, fifo_place,
}
use gpu_scheduler_lab.Models.Cluster.{Node, eligible_gpus, Gpu, Cluster}
use gpu_scheduler_lab.Prelude.{
  compare_text, length-sort, ap, sum_of-sort, sum_of-map, length-take, take, sort, map, length-map,
  ◌∙◌, subst, ◌≤◌, sum_of, ok-injective, ◌<◌, ltb, >>=-eq-ok, arith, length, Bool-cases, ◌≡◌,
  String, List, inr, inl, ok, false, true, some, none, [], refl,
}

atomic_of_length :
    (j : Job) (placement : Placement)
    → ((ids : List String) → placement ≡ some ids → length ids ≡ requested_gpu_count j)
    → validate_atomic_placement j placement ≡ true
unfolding validate_atomic_placement
atomic_of_length j none f = refl
atomic_of_length j (some ids) f = ground (arith, f ids refl)

place-length :
    (c : Cluster) (j : Job) {ids : List String}
    → place c j ≡ ok (some ids)
    → length ids ≡ requested_gpu_count j
place-length c j e =
    let (view, seen, chosen) = place-Selected c j e in
    ap length chosen.named
    ∙ length-sort compare_text (map (λ (g : Gpu). g.id) chosen.placement)
    ∙ length-map (λ (g : Gpu). g.id) chosen.placement
    ∙ chosen.drawn.0

-- The topology scheduler's placements pass the test of atomic placements that the simulator makes.
pub place-atomic :
    (c : Cluster) (j : Job) {placement : Placement}
    → place c j ≡ ok placement
    → validate_atomic_placement j placement ≡ true
place-atomic c j {placement} e =
    atomic_of_length j placement (λ ids same. place-length c j (e ∙ ap ok same))

-- The first-in, first-out scheduler's placements pass the test of atomic placements.
pub fifo_place-atomic :
    (c : Cluster) (j : Job) {placement : Placement}
    → fifo_place c j ≡ ok placement
    → validate_atomic_placement j placement ≡ true
unfolding fifo_place validate_atomic_placement
fifo_place-atomic c j {placement} e = elim (Bool-cases (is_required j.topology_mode)) [
  | inl required ↦ place-atomic c j (ground arith)
  | inr anywhere ↦
      let (eligible, at, more) =
        >>=-eq-ok (eligible_gpus c j) (λ eligible. ok (fifo_ids j eligible)) (ground arith) in
      subst (λ p. validate_atomic_placement j p ≡ true) (ok-injective more)
        (ground (
          arith,
          length-map (λ (g : Gpu). g.id) (take (requested_gpu_count j) eligible),
          length-take (requested_gpu_count j) eligible,
        ))
]

module _ (c : Cluster) (j : Job) where
  binpack_ids-length :
      (offered : List Gpu) (ids : List String)
      → binpack_ids c j offered ≡ some ids
      → length ids ≡ requested_gpu_count j
  binpack_ids-length offered ids e =
      elim (Bool-cases (
        ltb (sum_of (λ (item : Node × List Gpu). length item.1) (candidates_of c j offered))
          (requested_gpu_count j))) [
            | inl few ↦ absurd (ground arith)
            | inr enough ↦
                fill-length (requested_gpu_count j) []
                  (map (λ (item : Node × List Gpu). item.1)
                    (sort (compare_packing j) (candidates_of c j offered)))
                  (ground arith)
          ]

  -- The bin-packing scheduler's placements pass the test of atomic placements.
  pub binpack_place-atomic :
      {placement : Placement}
      → binpack_place c j ≡ ok placement
      → validate_atomic_placement j placement ≡ true
  unfolding binpack_place
  binpack_place-atomic {placement} e = elim (Bool-cases (is_required j.topology_mode)) [
    | inl required ↦ place-atomic c j (ground arith)
    | inr anywhere ↦
        let (offered, at, more) =
          >>=-eq-ok (eligible_gpus c j) (λ offered. ok (binpack_ids c j offered)) (ground arith) in
        atomic_of_length j placement
          (λ ids same. binpack_ids-length offered ids (ok-injective more ∙ same))
  ]

  spread_ids-length :
      (offered : List Gpu) (ids : List String)
      → spread_ids c j offered ≡ some ids
      → length ids ≡ requested_gpu_count j
  spread_ids-length offered ids e =
      elim (Bool-cases (ltb (sum_of length (available_on c j offered)) (requested_gpu_count j))) [
        | inl few ↦ absurd (ground arith)
        | inr enough ↦
            spread_rounds-length (requested_gpu_count j) (requested_gpu_count j) 0 []
              (available_on c j offered) (ground arith)
      ]

  -- The spreading scheduler's placements pass the test of atomic placements.
  pub spread_place-atomic :
      {placement : Placement}
      → spread_place c j ≡ ok placement
      → validate_atomic_placement j placement ≡ true
  unfolding spread_place
  spread_place-atomic {placement} e = elim (Bool-cases (is_required j.topology_mode)) [
    | inl required ↦ place-atomic c j (ground arith)
    | inr anywhere ↦
        let (offered, at, more) =
          >>=-eq-ok (eligible_gpus c j) (λ offered. ok (spread_ids c j offered)) (ground arith) in
        atomic_of_length j placement
          (λ ids same. spread_ids-length offered ids (ok-injective more ∙ same))
  ]

  -- Where the nodes have as many eligible GPUs as a job requests, at least one and of no required
  -- locality, bin packing places it.
  pub binpack_place_complete :
      (offered : List Gpu)
      → is_required j.topology_mode ≡ false
      → eligible_gpus c j ≡ ok offered
      → 0 < requested_gpu_count j
      → requested_gpu_count j ≤ sum_of (λ item. length item.1) (candidates_of c j offered)
      → (ids : List String) × (binpack_place c j ≡ ok (some ids))
  unfolding binpack_place
  binpack_place_complete offered anywhere at some_requested enough =
      let lists : List (List Gpu) =
        map (λ (item : Node × List Gpu). item.1)
          (sort (compare_packing j) (candidates_of c j offered)) in
      let total : sum_of length lists
          ≡ sum_of (λ (item : Node × List Gpu). length item.1) (candidates_of c j offered) =
        sum_of-map (λ (item : Node × List Gpu). item.1) length
          (sort (compare_packing j) (candidates_of c j offered))
        ∙ sum_of-sort (compare_packing j) (λ (item : Node × List Gpu). length item.1)
            (candidates_of c j offered) in
      let (ids, filled) =
        fill_complete (requested_gpu_count j) [] lists some_requested (omega (arith, total)) in
      (ids, ground arith)

  -- Where the nodes have as many eligible GPUs as a job requests, at least one and of no required
  -- locality, spreading places it: the fuel of its loop is enough.
  pub spread_place_complete :
      (offered : List Gpu)
      → is_required j.topology_mode ≡ false
      → eligible_gpus c j ≡ ok offered
      → 0 < requested_gpu_count j
      → requested_gpu_count j ≤ sum_of length (available_on c j offered)
      → (ids : List String) × (spread_place c j ≡ ok (some ids))
  unfolding spread_place
  spread_place_complete offered anywhere at some_requested enough =
      let (ids, filled) =
        spread_rounds_complete (requested_gpu_count j) (requested_gpu_count j) 0 []
          (available_on c j offered) some_requested (omega arith)
          (omega (arith, beyond-zero (available_on c j offered))) in
      (ids, ground arith)
