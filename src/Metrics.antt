-- ===== src/Metrics.antt =====
-- gpu_scheduler_lab/metrics: fairness, fragmentation, percentiles and the summary of a run. The
-- source's quotients are exact here.
pub mod Fairness
pub mod Fragmentation
pub mod Fragmented
pub mod Latency
pub mod Summary
use gpu_scheduler_lab.Prelude.{
  ℕ, List, [], ◌∷◌, ◌++◌, ◌+◌, ◌*◌, Fraction, whole, add_fraction, if◌then◌else◌, nat_eq, is_empty,
  length,
}

abbrev pub square_fraction : Fraction → Fraction
square_fraction f = record { num = f.num * f.num; den = f.den * f.den }

abbrev pub sum_fractions : List Fraction → Fraction
sum_fractions [] = whole 0
sum_fractions (f ∷ fs) = add_fraction f (sum_fractions fs)

abbrev pub sum_squares : List Fraction → Fraction
sum_squares [] = whole 0
sum_squares (f ∷ fs) = add_fraction (square_fraction f) (sum_squares fs)

-- `a / b`, where `b` is positive
abbrev pub div_fraction : Fraction → Fraction → Fraction
div_fraction a b = record { num = a.num * b.den; den = a.den * b.num }

-- `jains_fairness_index`, on values that are not negative
unfoldable pub jains_fairness_index : List Fraction → Fraction
jains_fairness_index samples =
    let squares = sum_squares samples in
    let denominator : Fraction = record { num = length samples * squares.num; den = squares.den } in
    if is_empty samples
    then whole 1
    else if nat_eq denominator.num 0
    then whole 1
    else div_fraction (square_fraction (sum_fractions samples)) denominator
