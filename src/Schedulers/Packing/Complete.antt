-- ===== src/Schedulers/Packing/Complete.antt =====
-- The loops of `BinPackScheduler.place` and `SpreadScheduler.place`
-- (gpu_scheduler_lab/schedulers/binpack.py and spread.py): they end with the number of GPUs
-- requested whenever the nodes have as many.
use gpu_scheduler_lab.Models.Cluster.{Gpu}
use gpu_scheduler_lab.Schedulers.Packing.{append_found, add_at, spread_rounds, spread_pass, fill}
use gpu_scheduler_lab.Prelude.{
  ◌∙◌, ap, length-take, length-map, min, take, subst, length-append, nat_eq, map, leb,
  if◌then◌else◌, ◌⊎◌, ◌≤◌, ◌∷◌, ◌-◌, ◌+◌, ◌++◌, ltb, arith, Bool-cases, ◌≡◌, ◌<◌, sum_of, length,
  get_elem?, count_of, String, List, inr, inl, suc, zero, false, some, none, [], refl, ℕ,
}

length-taken :
    (placement : List String) (n : ℕ) (gs : List Gpu)
    → length (placement ++ map (λ (g : Gpu). g.id) (take n gs))
      ≡ length placement + min n (length gs)
length-taken placement n gs = omega (
  arith,
  length-append placement (map (λ (g : Gpu). g.id) (take n gs)),
  length-map (λ (g : Gpu). g.id) (take n gs),
  length-take n gs,
)

pub fill-length :
    (required : ℕ) (placement : List String) (lists : List (List Gpu)) {ids : List String}
    → fill required placement lists ≡ some ids
    → length ids ≡ required
unfolding fill
fill-length required placement [] e = cc
fill-length required placement (gs ∷ rest) {ids} e =
    let taken : List String =
      placement ++ map (λ (g : Gpu). g.id) (take (required - length placement) gs) in
    elim (Bool-cases (nat_eq (length taken) required)) [
      | inl full ↦
          let same : taken ≡ ids = ground arith in
          subst (λ t. length t ≡ required) same (ground arith)
      | inr more ↦ fill-length required taken rest (ground arith)
    ]

pub fill_complete :
    (required : ℕ) (placement : List String) (lists : List (List Gpu))
    → length placement < required
    → required ≤ length placement + sum_of length lists
    → (ids : List String) × (fill required placement lists ≡ some ids)
unfolding fill
fill_complete required placement [] few enough = absurd (omega arith)
fill_complete required placement (gs ∷ rest) few enough =
    let taken : List String =
      placement ++ map (λ (g : Gpu). g.id) (take (required - length placement) gs) in
    let size = length-taken placement (required - length placement) gs in
    elim (Bool-cases (nat_eq (length taken) required)) [
      | inl full ↦ (taken, rw full refl)
      | inr more ↦
          let later = fill_complete required taken rest (ground arith) (ground arith) in
          (later.0, rw more later.1)
    ]

-- The lists that have an element at an index, and what all lists have from it on.
abbrev reaching : ℕ → List (List Gpu) → ℕ
reaching index lists = count_of (λ gs. ltb index (length gs)) lists

abbrev pub beyond : ℕ → List (List Gpu) → ℕ
beyond index lists = sum_of (λ gs. length gs - index) lists

beyond-suc :
    (index : ℕ) (lists : List (List Gpu))
    → beyond index lists ≡ beyond (suc index) lists + reaching index lists
beyond-suc index [] = omega arith
beyond-suc index (gs ∷ rest) = ground (arith, beyond-suc index rest)

beyond-pos :
    (index : ℕ) (lists : List (List Gpu)) → 0 < beyond index lists → 0 < reaching index lists
beyond-pos index [] h = omega arith
beyond-pos index (gs ∷ rest) h = ground (arith, beyond-pos index rest)

get_elem?-length :
    (gs : List Gpu) (index : ℕ)
    → (get_elem? gs index ≡ none) × (length gs ≤ index)
      ⊎ (g : Gpu) × (get_elem? gs index ≡ some g) × (index < length gs)
get_elem?-length [] index = inl (refl, omega arith)
get_elem?-length (g ∷ gs) zero = inr (g, refl, omega arith)
get_elem?-length (g ∷ gs) (suc index) = elim (get_elem?-length gs index) [
  | inl (gone, past) ↦ inl (gone, omega arith)
  | inr (h, there, within) ↦ inr (h, there, omega arith)
]

length-add_at :
    (index : ℕ) (gs : List Gpu) (placement : List String)
    → length (add_at index gs placement)
      ≡ length placement + (if ltb index (length gs) then 1 else 0)
length-add_at index gs placement = elim (get_elem?-length gs index) [
  | inl (gone, past) ↦ ap (λ o. length (append_found o placement)) gone ∙ ground arith
  | inr (g, there, within) ↦ rw there (ground (arith, length-append placement (g.id ∷ [])))
]

-- A pass adds an id for each list that reaches the index, or it stops at the number required.
pass-length :
    (required index : ℕ) (placement : List String) (lists : List (List Gpu))
    → length placement < required
    → (length (spread_pass required index placement lists) ≡ required)
      ⊎ (length (spread_pass required index placement lists) < required)
        × (length (spread_pass required index placement lists)
            ≡ length placement + reaching index lists)
unfolding spread_pass
pass-length required index placement [] few = inr (few, omega arith)
pass-length required index placement (gs ∷ rest) few =
    let here = add_at index gs placement in
    let size = length-add_at index gs placement in
    elim (Bool-cases (nat_eq (length here) required)) [
      | inl full ↦ rw full (inl (ground arith))
      | inr more ↦ rw more (elim (pass-length required index here rest (ground arith)) [
        | inl done ↦ inl done
        | inr (below, count) ↦ inr (below, ground arith)
      ])
    ]

pub spread_rounds-length :
    (fuel required index : ℕ) (placement : List String) (lists : List (List Gpu))
    {ids : List String}
    → spread_rounds fuel required index placement lists ≡ some ids
    → length ids ≡ required
unfolding spread_rounds
spread_rounds-length zero required index placement lists e = cc
spread_rounds-length (suc fuel) required index placement lists {ids} e =
    let after : List String = spread_pass required index placement lists in
    elim (Bool-cases (leb required (length placement))) [
      | inl over ↦ absurd (ground arith)
      | inr few ↦ elim (Bool-cases (nat_eq (length after) required)) [
        | inl full ↦
            let same : after ≡ ids = ground arith in
            subst (λ t. length t ≡ required) same (ground arith)
        | inr more ↦ elim (Bool-cases (nat_eq (length after) (length placement))) [
          | inl stuck ↦ absurd (ground arith)
          | inr progress ↦ spread_rounds-length fuel required (suc index) after lists (ground arith)
        ]
      ]
    ]

-- Fuel for each missing id is enough.
pub spread_rounds_complete :
    (fuel required index : ℕ) (placement : List String) (lists : List (List Gpu))
    → length placement < required
    → required ≤ length placement + fuel
    → required ≤ length placement + beyond index lists
    → (ids : List String) × (spread_rounds fuel required index placement lists ≡ some ids)
unfolding spread_rounds
spread_rounds_complete zero required index placement lists few fueled enough = absurd (omega arith)
spread_rounds_complete (suc fuel) required index placement lists few fueled enough =
    let after : List String = spread_pass required index placement lists in
    let started : leb required (length placement) ≡ false = ground arith in
    elim (pass-length required index placement lists few) [
      | inl full ↦ (after, ground arith)
      | inr (below, count) ↦
          let adds : 0 < reaching index lists = beyond-pos index lists (omega arith) in
          let later =
            spread_rounds_complete fuel required (suc index) after lists below (omega arith)
              (omega (arith, beyond-suc index lists)) in
          (later.0, ground (arith, later.1))
    ]

pub beyond-zero : (lists : List (List Gpu)) → beyond 0 lists ≡ sum_of length lists
beyond-zero [] = refl
beyond-zero (gs ∷ rest) = omega (arith, beyond-zero rest)
