-- ===== src/Metrics/Latency.antt =====
-- gpu_scheduler_lab/metrics/latency.py: percentiles by linear interpolation.
use gpu_scheduler_lab.Prelude.{
  length-sort, sym, ◌>>=◌, subst, nat_eq_iff, nat_eq, Bool-cases, All-sort, inr, inl, compare_ℕ,
  ◌∷◌, sort, ap, whole, index_error, arith, ◌≡◌, ◌/◌, is_empty, get_elem?, ◌+◌, or_raise, length,
  if◌then◌else◌, ◌-◌, ◌*◌, Result, All, ◌≤◌, ◌<◌, List, Fraction, suc, zero, ok, [], refl, ℕ,
}
use native.Mathlib.Nat
use Prim.Native.Nat.{◌%◌}

-- `values[i]`
abbrev pub value_at : List ℕ → ℕ → Result ℕ
value_at values i = or_raise (get_elem? values i) (index_error "list index out of range")

-- Between two neighbours, `rem` parts of `den` from the lower to the upper.
abbrev pub interpolate : ℕ → ℕ → ℕ → ℕ → Fraction
interpolate low high rem den = record { num = low * (den - rem) + high * rem; den = den }

abbrev pub percentile_of : List ℕ → Fraction → Result Fraction
percentile_of ordered quantile =
    let position = (length ordered - 1) * quantile.num in
    let lower = position / quantile.den in
    let rem = position % quantile.den in
    if nat_eq rem 0
    then (value_at ordered lower >>= λ value. ok (whole value))
    else (value_at ordered lower >>= λ low.
        value_at ordered (suc lower) >>= λ high. ok (interpolate low high rem quantile.den))

-- `percentile`. The quantile is a quotient; where the position is whole, it is both its floor and
-- its ceiling, and else the ceiling is the next number.
unfoldable pub percentile : List ℕ → Fraction → Result Fraction
percentile values quantile =
    if is_empty values then ok (whole 0) else percentile_of (sort compare_ℕ values) quantile

-- A quotient between two numbers.
pub record IsWithin (lo hi : ℕ) (f : Fraction) : Type 0 where
  pub den_pos : 0 < f.den
  pub above : lo * f.den ≤ f.num
  pub below : f.num ≤ hi * f.den

module _ (lo hi : ℕ) where
  abbrev Inside : ℕ → Type 0
  Inside v = (lo ≤ v) × (v ≤ hi)

  value_at-Inside :
      (values : List ℕ) (i : ℕ)
      → All Inside values
      → i < length values
      → (v : ℕ) × (value_at values i ≡ ok v) × Inside v
  value_at-Inside [] i h lt = absurd (omega arith)
  value_at-Inside (v ∷ values) zero h lt = (v, refl, h.0)
  value_at-Inside (v ∷ values) (suc i) h lt = value_at-Inside values i h.1 (omega arith)

  interpolate-IsWithin :
      (low high rem den : ℕ)
      → Inside low
      → Inside high
      → rem < den
      → IsWithin lo hi (interpolate low high rem den)
  interpolate-IsWithin low high rem den l h lt =
      let l0 = Nat.mul-le-mul_right (den - rem) l.0 in
      let l1 = Nat.mul-le-mul_right (den - rem) l.1 in
      let h0 = Nat.mul-le-mul_right rem h.0 in
      let h1 = Nat.mul-le-mul_right rem h.1 in
      let split : (den - rem) + rem ≡ den = omega arith in
      let split_lo : lo * (den - rem) + lo * rem ≡ lo * den =
        omega (arith, ap (λ (t : ℕ). lo * t) split) in
      let split_hi : hi * (den - rem) + hi * rem ≡ hi * den =
        omega (arith, ap (λ (t : ℕ). hi * t) split) in
      record {
        den_pos = omega arith;
        above = omega (arith, l0, h0, split_lo);
        below = omega (arith, l1, h1, split_hi);
      }

  -- The place of a quantile that is at most one, and what is left of it.
  place_bounds :
      (last num den : ℕ)
      → num ≤ den
      → 0 < den
      → (last * num / den ≤ last)
        × (last * num % den < den)
        × (0 < last * num % den → suc (last * num / den) ≤ last)
  place_bounds last num den le pos =
      let lower = last * num / den in
      let rem = last * num % den in
      let whole_of : den * lower + rem ≡ last * num = Nat.div-add-mod (last * num) den in
      let within : last * num ≤ last * den = Nat.mul-le-mul_left last le in
      let least : den * lower ≤ den * last = omega (arith, whole_of, within) in
      (
        Nat.le_of_mul-le-mul_left least pos,
        Nat.mod-lt (last * num) pos,
        λ left.
            let less : den * lower < den * last = omega (arith, whole_of, within, left) in
            Nat.lt_of_mul-lt-mul_left den less,
      )

  percentile_of-IsWithin :
      (ordered : List ℕ) (q : Fraction)
      → All Inside ordered
      → 0 < length ordered
      → q.num ≤ q.den
      → 0 < q.den
      → (f : Fraction) × (percentile_of ordered q ≡ ok f) × IsWithin lo hi f
  percentile_of-IsWithin ordered q h some_value le pos =
      let last : ℕ = length ordered - 1 in
      let rem : ℕ = last * q.num % q.den in
      let lower : ℕ = last * q.num / q.den in
      let (in_range, rem_lt, next) = place_bounds last q.num q.den le pos in
      let (low, at_low, low_in) = value_at-Inside ordered lower h (omega (arith, in_range)) in
      elim (Bool-cases (nat_eq rem 0)) [
        | inl exact ↦ (
          whole low,
          rw (exact, at_low) refl,
          record {
            den_pos = omega arith;
            above = omega (arith, low_in.0);
            below = omega (arith, low_in.1);
          },
        )
        | inr between ↦
            let left : 0 < rem = ground (arith, nat_eq_iff rem 0) in
            let (high, at_high, high_in) =
              value_at-Inside ordered (suc lower) h (omega (arith, next left)) in
            (
              interpolate low high rem q.den,
              rw (between, at_low, at_high) refl,
              interpolate-IsWithin low high rem q.den low_in high_in rem_lt,
            )
      ]

  -- A percentile of at least one value, for a quantile between nought and one, is found, and lies
  -- between any bounds of the values.
  pub percentile-IsWithin :
      (values : List ℕ) (q : Fraction)
      → All (λ v. (lo ≤ v) × (v ≤ hi)) values
      → 0 < length values
      → q.num ≤ q.den
      → 0 < q.den
      → (f : Fraction) × (percentile values q ≡ ok f) × IsWithin lo hi f
  unfolding percentile
  percentile-IsWithin [] q h some_value le pos = absurd (omega arith)
  percentile-IsWithin (v ∷ values) q h some_value le pos =
      percentile_of-IsWithin (sort compare_ℕ (v ∷ values)) q
        (All-sort compare_ℕ (λ v. (lo ≤ v) × (v ≤ hi)) (v ∷ values) h)
        (subst (λ n. 0 < n) (sym (length-sort compare_ℕ (v ∷ values))) some_value) le pos
