-- ===== src/Metrics/Fragmented.antt =====
-- Bounds of the fragmentation (gpu_scheduler_lab/metrics/fragmentation.py).
use gpu_scheduler_lab.Metrics.{sum_fractions, div_fraction}
use gpu_scheduler_lab.Models.Cluster.{
  schedulable_nodes, total_gpu_count, free, free_gpu_count, Gpu, Cluster, Node,
}
use gpu_scheduler_lab.Metrics.Fragmentation.{
  partialities, occupied_gpus, node_partiality, gpu_memory_fragmentation, gpu_count_fragmentation,
  fragmentation_snapshot,
}
use gpu_scheduler_lab.Prelude.{
  count_of-le, sym, length-append, subst, is_empty, ◌≡◌, nat_eq_iff, flat_map, ◌∷◌, ◌-◌, whole,
  nat_eq, leb, sum_of, length, arith, add_fraction, Bool-cases, ◌<◌, ◌+◌, ◌≤◌, ◌*◌, List, Fraction,
  inr, inl, false, [], ℕ,
}
use native.Mathlib.Nat

-- A quotient between nought and one.
pub record IsRatio (f : Fraction) : Type 0 where
  pub den_pos : 0 < f.den
  pub at_most_one : f.num ≤ f.den

-- Four times the product of two parts is at most the square of the whole.
parts_le : (f k : ℕ) → 4 * (f * k) ≤ (f + k) * (f + k)
parts_le f k = elim (Bool-cases (leb f k)) [
  | inl below ↦
      let split : f + (k - f) ≡ k = ground arith in
      subst (λ c. 4 * (f * c) ≤ (f + c) * (f + c)) split (from f (k - f))
  | inr above ↦
      let split : k + (f - k) ≡ f = ground arith in
      subst (λ c. 4 * (c * k) ≤ (c + k) * (c + k)) split (from_above k (f - k))
]
  where
    from : (a d : ℕ) → 4 * (a * (a + d)) ≤ (a + (a + d)) * (a + (a + d))
    from a d = omega arith

    from_above : (a d : ℕ) → 4 * ((a + d) * a) ≤ (a + d + a) * (a + d + a)
    from_above a d = omega arith

node_partiality-le : (n : Node) → (node_partiality n).num ≤ length n.gpus * (node_partiality n).den
node_partiality-le n =
    let cap : ℕ = length n.gpus in
    let f : ℕ = free_gpu_count n in
    let le : f ≤ cap = count_of-le free n.gpus in
    let split : f + (cap - f) ≡ cap = omega (arith, le) in
    let part : 4 * (f * (cap - f)) ≤ cap * cap =
      subst (λ c. 4 * (f * (cap - f)) ≤ c * c) split (parts_le f (cap - f)) in
    Nat.mul-le-mul_left cap part

sum_step : (a d p q cap tot : ℕ) → a ≤ cap * d → p ≤ tot * q → a * q + p * d ≤ (cap + tot) * (d * q)
sum_step a d p q cap tot h k =
    let h' = Nat.mul-le-mul_right q h in let k' = Nat.mul-le-mul_right d k in omega (arith, h', k')

partialities-le :
    (ns : List Node)
    → (0 < (sum_fractions (partialities ns)).den)
      × ((sum_fractions (partialities ns)).num
          ≤ length (flat_map (λ (n : Node). n.gpus) ns) * (sum_fractions (partialities ns)).den)
partialities-le [] = (omega arith, omega arith)
partialities-le (n ∷ ns) =
    let rest = partialities-le ns in
    let s : Fraction = sum_fractions (partialities ns) in
    let total : ℕ = length (flat_map (λ (m : Node). m.gpus) ns) in
    let joined = length-append n.gpus (flat_map (λ (m : Node). m.gpus) ns) in
    elim (Bool-cases (is_empty n.gpus)) [
      | inl empty ↦
          rw empty
            (rest.0, Nat.le_trans rest.1 (Nat.mul-le-mul_right s.den (omega (arith, joined))))
      | inr filled ↦
          let cap_pos : 0 < length n.gpus = nonempty_pos n.gpus filled in
          rw filled (
            Nat.mul-pos (Nat.mul-pos cap_pos cap_pos) rest.0,
            subst
                (λ k.
                  (node_partiality n).num * s.den + s.num * (node_partiality n).den
                  ≤ k * ((node_partiality n).den * s.den))
                (sym joined)
                (sum_step (node_partiality n).num (node_partiality n).den s.num s.den
                  (length n.gpus) total (node_partiality-le n) rest.1),
          )
    ]
  where
    nonempty_pos : (gs : List Gpu) → is_empty gs ≡ false → 0 < length gs
    nonempty_pos [] h = cc
    nonempty_pos (g ∷ gs) h = omega arith

pub gpu_count_fragmentation-IsRatio : (c : Cluster) → IsRatio (gpu_count_fragmentation c)
unfolding gpu_count_fragmentation
gpu_count_fragmentation-IsRatio c = elim (Bool-cases (nat_eq (total_gpu_count c) 0)) [
  | inl none_there ↦ rw none_there (record { den_pos = omega arith; at_most_one = omega arith })
  | inr some_there ↦
      let bound = partialities-le (schedulable_nodes c) in
      let total_pos : 0 < total_gpu_count c = ground (arith, nat_eq_iff (total_gpu_count c) 0) in
      rw some_there
        (record { den_pos = Nat.mul-pos bound.0 total_pos; at_most_one = omega (arith, bound.1) })
]

stranded-le :
    (gs : List Gpu)
    → sum_of (λ (g : Gpu). g.memory_capacity_gb - g.allocated_memory_gb) gs
      ≤ sum_of (λ (g : Gpu). g.memory_capacity_gb) gs
stranded-le [] = omega arith
stranded-le (g ∷ gs) = omega (arith, stranded-le gs)

pub gpu_memory_fragmentation-IsRatio : (c : Cluster) → IsRatio (gpu_memory_fragmentation c)
unfolding gpu_memory_fragmentation
gpu_memory_fragmentation-IsRatio c =
    let capacity : ℕ = sum_of (λ (g : Gpu). g.memory_capacity_gb) (occupied_gpus c) in
    elim (Bool-cases (nat_eq capacity 0)) [
      | inl none_taken ↦ rw none_taken (record { den_pos = omega arith; at_most_one = omega arith })
      | inr some_taken ↦ rw some_taken (record {
        den_pos = ground (arith, nat_eq_iff capacity 0);
        at_most_one = stranded-le (occupied_gpus c);
      })
    ]

average-IsRatio :
    (f g : Fraction) → IsRatio f → IsRatio g → IsRatio (div_fraction (add_fraction f g) (whole 2))
average-IsRatio f g hf hg =
    let p = Nat.mul-le-mul_right g.den hf.at_most_one in
    let q = Nat.mul-le-mul_right f.den hg.at_most_one in
    let pos = Nat.mul-pos hf.den_pos hg.den_pos in
    record { den_pos = omega (arith, pos); at_most_one = omega (arith, p, q) }

-- The fragmentation of GPU counts and of memory, and their average, are quotients between nought
-- and one.
pub fragmentation_snapshot-bounds :
    (c : Cluster)
    → IsRatio (fragmentation_snapshot c).0
      × IsRatio (fragmentation_snapshot c).1
      × IsRatio (fragmentation_snapshot c).2
unfolding fragmentation_snapshot
fragmentation_snapshot-bounds c =
    let count = gpu_count_fragmentation-IsRatio c in
    let memory = gpu_memory_fragmentation-IsRatio c in
    (
      count,
      memory,
      average-IsRatio (gpu_count_fragmentation c) (gpu_memory_fragmentation c) count memory,
    )
