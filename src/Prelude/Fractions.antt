-- ===== src/Prelude/Fractions.antt =====
-- Non-negative quotients, compared without rounding. A denominator is positive where it is used.
use Prim.Native.Nat.{ℕ, ◌+◌, ◌*◌, ◌-◌, Ordering, compare as compare_ℕ}
use gpu_scheduler_lab.Prelude.Logic.{is_gt, if◌then◌else◌}

pub record Fraction : Type 0 where
  pub num : ℕ
  pub den : ℕ

abbrev pub whole : ℕ → Fraction
whole n = record { num = n; den = 1 }

abbrev pub compare_fraction : Fraction → Fraction → Ordering
compare_fraction a b = compare_ℕ (a.num * b.den) (b.num * a.den)

abbrev pub add_fraction : Fraction → Fraction → Fraction
add_fraction a b = record { num = a.num * b.den + b.num * a.den; den = a.den * b.den }

-- `a - b`, where `b` is no more than `a`
abbrev pub sub_fraction : Fraction → Fraction → Fraction
sub_fraction a b = record { num = a.num * b.den - b.num * a.den; den = a.den * b.den }

abbrev pub max_fraction : Fraction → Fraction → Fraction
max_fraction a b = if is_gt (compare_fraction b a) then b else a
