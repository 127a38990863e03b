-- ===== src/Metrics/Fairness.antt =====
-- Bounds of Jain's index (gpu_scheduler_lab/metrics/fairness.py).
use gpu_scheduler_lab.Metrics.{sum_squares, sum_fractions, jains_fairness_index}
use gpu_scheduler_lab.Prelude.{
  nat_eq_iff, ◌∙◌, nat_eq, ap, ◌∷◌, ◌-◌, max, length, sym, leb→le, All, subst, leb, Fraction, ◌≡◌,
  ◌<◌, List, Bool-cases, [], refl, ℕ, ◌+◌, ◌*◌, ◌≤◌, zero, suc, arith, inl, inr,
}
use native.Mathlib.Nat

square_zero : (p : ℕ) → p * p ≤ 0 → p ≡ 0
square_zero zero h = refl
square_zero (suc p) h = absurd (omega arith)

-- Twice a product is at most the sum of the squares.
am_gm_from : (a k : ℕ) → 2 * (a * (a + k)) ≤ a * a + (a + k) * (a + k)
am_gm_from a k = omega arith

am_gm : (a b : ℕ) → 2 * (a * b) ≤ a * a + b * b
am_gm a b = elim (Bool-cases (leb a b)) [
  | inl below ↦
      let le : a ≤ b = leb→le a b below in
      let split : a + (b - a) ≡ b = omega arith in
      subst (λ c. 2 * (a * c) ≤ a * a + c * c) split (am_gm_from a (b - a))
  | inr above ↦
      let split : b + (a - b) ≡ a = ground arith in
      subst (λ c. 2 * (c * b) ≤ c * c + b * b) split
        (let h = am_gm_from b (a - b) in omega (arith, h))
]

-- One step of the Cauchy–Schwarz inequality.
cauchy_step : (n x p r : ℕ) → p * p ≤ n * r → (x + p) * (x + p) ≤ suc n * (x * x + r)
cauchy_step zero x p r h =
    let none : p ≡ 0 = square_zero p (omega (arith, h)) in
    subst (λ q. (x + q) * (x + q) ≤ 1 * (x * x + r)) (sym none) (omega arith)
cauchy_step (suc m) x p r h =
    let n : ℕ = suc m in
    let doubled : n * (2 * (x * p)) ≤ n * (n * (x * x) + r) =
      let h' = am_gm (n * x) p in omega (arith, h, h') in
    let cross : 2 * (x * p) ≤ n * (x * x) + r = Nat.le_of_mul-le-mul_left doubled (omega arith) in
    omega (arith, h, cross)

-- The sum of the samples and that of their squares have one denominator.
pub squares-den :
    (fs : List Fraction) → (sum_squares fs).den ≡ (sum_fractions fs).den * (sum_fractions fs).den
squares-den [] = refl
squares-den (f ∷ fs) =
    ap (λ d. f.den * f.den * d) (squares-den fs) ∙ regroup f.den (sum_fractions fs).den
  where
    regroup : (d q : ℕ) → d * d * (q * q) ≡ d * q * (d * q)
    regroup d q = omega arith

scaled : (n p r d : ℕ) → p * p ≤ n * r → p * d * (p * d) ≤ n * (r * (d * d))
scaled n p r d h = let h' = Nat.mul-le-mul_right (d * d) h in omega (arith, h')

square-sum-le :
    (fs : List Fraction)
    → (sum_fractions fs).num * (sum_fractions fs).num ≤ length fs * (sum_squares fs).num
square-sum-le [] = omega arith
square-sum-le (f ∷ fs) =
    let s : Fraction = sum_fractions fs in
    let q : Fraction = sum_squares fs in
    subst
      (λ t. (f.num * s.den + s.num * f.den) * (f.num * s.den + s.num * f.den) ≤ suc (length fs) * t)
      (regroup f.num s.den q.num (f.den * f.den)
        ∙ ap (λ t. f.num * f.num * t + q.num * (f.den * f.den)) (sym (squares-den fs)))
      (cauchy_step (length fs) (f.num * s.den) (s.num * f.den) (q.num * (f.den * f.den))
        (scaled (length fs) s.num q.num f.den (square-sum-le fs)))
  where
    regroup : (a d r t : ℕ) → a * d * (a * d) + r * t ≡ a * a * (d * d) + r * t
    regroup a d r t = omega arith

scaled_up : (p r d : ℕ) → r ≤ p * p → r * (d * d) ≤ p * d * (p * d)
scaled_up p r d h = let h' = Nat.mul-le-mul_right (d * d) h in omega (arith, h')

squares-le-square :
    (fs : List Fraction) → (sum_squares fs).num ≤ (sum_fractions fs).num * (sum_fractions fs).num
squares-le-square [] = omega arith
squares-le-square (f ∷ fs) =
    let s : Fraction = sum_fractions fs in
    let q : Fraction = sum_squares fs in
    subst
      (λ t.
        f.num * f.num * t + q.num * (f.den * f.den)
        ≤ (f.num * s.den + s.num * f.den) * (f.num * s.den + s.num * f.den))
      (sym (squares-den fs))
      (expand (f.num) s.den (s.num * f.den) (q.num * (f.den * f.den))
        (scaled_up s.num q.num f.den (squares-le-square fs)))
  where
    expand : (a d p r : ℕ) → r ≤ p * p → a * a * (d * d) + r ≤ (a * d + p) * (a * d + p)
    expand a d p r h = omega (arith, h)

sum-den-pos : (fs : List Fraction) → All (λ f. 0 < f.den) fs → 0 < (sum_fractions fs).den
sum-den-pos [] h = omega arith
sum-den-pos (f ∷ fs) h = Nat.mul-pos h.0 (sum-den-pos fs h.1)

-- The index as a quotient of the sums.
bounded :
    (k n p r t : ℕ)
    → n ≤ k
    → 0 < t
    → 0 < n * r
    → p * p ≤ n * r
    → r ≤ p * p
    → (0 < t * (n * r)) × (p * p * t ≤ t * (n * r)) × (t * (n * r) ≤ k * (p * p * t))
bounded k n p r t more pos nonzero above below =
    let high = Nat.mul-le-mul_right t above in
    let low = Nat.mul-le-mul_right (n * t) below in
    let wide = Nat.mul-le-mul_right (p * p * t) more in
    (Nat.mul-pos pos nonzero, omega (arith, high), omega (arith, low, wide))

-- Jain's index of at least one value is a quotient between the inverse of their number and one; of
-- no value it is one.
pub jains_fairness_index-bounds :
    (samples : List Fraction)
    → All (λ f. 0 < f.den) samples
    → (0 < (jains_fairness_index samples).den)
      × ((jains_fairness_index samples).num ≤ (jains_fairness_index samples).den)
      × ((jains_fairness_index samples).den
          ≤ max 1 (length samples) * (jains_fairness_index samples).num)
unfolding jains_fairness_index
jains_fairness_index-bounds [] h = (omega arith, omega arith, omega arith)
jains_fairness_index-bounds (f ∷ fs) h =
    let n : ℕ = length (f ∷ fs) in
    let s : Fraction = sum_fractions (f ∷ fs) in
    let q : Fraction = sum_squares (f ∷ fs) in
    elim (Bool-cases (nat_eq (n * q.num) 0)) [
      | inl zero_sum ↦ rw zero_sum (omega arith, omega arith, omega arith)
      | inr positive ↦ rw positive (
          subst
            (λ t.
              (0 < s.den * s.den * (n * q.num))
              × (s.num * s.num * t ≤ s.den * s.den * (n * q.num))
              × (s.den * s.den * (n * q.num) ≤ max 1 n * (s.num * s.num * t)))
            (sym (squares-den (f ∷ fs)))
            (bounded (max 1 n) n s.num q.num (s.den * s.den) (omega arith)
              (Nat.mul-pos (sum-den-pos (f ∷ fs) h) (sum-den-pos (f ∷ fs) h))
              (ground (arith, nat_eq_iff (n * q.num) 0)) (square-sum-le (f ∷ fs))
              (squares-le-square (f ∷ fs))))
    ]
