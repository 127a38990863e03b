-- ===== src/Fairshare/History.antt =====
-- `DecayedUsageHistory` (gpu_scheduler_lab/fairshare/history.py). What `math.exp` and `math.expm1`
-- make of a half-life and an interval is given: the factor that old service keeps, and the weight
-- of the rate over the interval.
use gpu_scheduler_lab.Fairshare.Shares.{over_weight}
use gpu_scheduler_lab.Prelude.{
  ◌++◌, keys, dedup, ◌-◌, value_error, values, text_eq_instance, ltb, leb, compare_fraction,
  raise_if, minimum, insert, get_or, ◌∷◌, ◌>>◌, ◌*◌, whole, sub_fraction, map, add_fraction, String,
  Result, List, Fraction, Dict, ok, [], ℕ,
}

pub record History : Type 0 where
  pub half_life : ℕ
  pub service : Dict String Fraction
  pub last_time : ℕ

-- `math.exp(-decay_rate * delta)` and `-math.expm1(-decay_rate * delta) / decay_rate`
pub record Decay : Type 0 where
  pub kept : ℕ → ℕ → Fraction
  pub interval_weight : ℕ → ℕ → Fraction

-- `DecayedUsageHistory.__post_init__`
unfoldable pub new_history : ℕ → Result History
new_history half_life = do
  raise_if (leb half_life 0) (value_error "fair-share half_life must be finite and positive")
  ok (record { half_life = half_life; service = []; last_time = 0 })

abbrev multiply : Fraction → Fraction → Fraction
multiply a b = record { num = a.num * b.num; den = a.den * b.den }

abbrev integrate_queue : Decay → ℕ → ℕ → Dict String ℕ → Dict String Fraction → String → Fraction
integrate_queue decay half_life delta rates service queue_id =
    add_fraction (multiply (get_or queue_id (whole 0) service) (decay.kept half_life delta))
      (multiply (whole (get_or queue_id 0 rates)) (decay.interval_weight half_life delta))

abbrev integrate_keys :
    Decay → ℕ → ℕ → Dict String ℕ → List String → Dict String Fraction → Dict String Fraction
integrate_keys decay half_life delta rates [] service = service
integrate_keys decay half_life delta rates (queue_id ∷ rest) service =
    integrate_keys decay half_life delta rates rest
      (insert queue_id (integrate_queue decay half_life delta rates service queue_id) service)

-- `integrate`
unfoldable pub integrate : Decay → ℕ → Dict String ℕ → History → Result History
integrate decay now rates h = do
  raise_if (ltb now h.last_time) (value_error "historical usage time must be finite and monotonic")
  ok (record h {
    service =
        integrate_keys decay h.half_life (now - h.last_time) rates
          (dedup (keys h.service ++ keys rates)) h.service;
    last_time = now;
  })

abbrev least_fraction : List Fraction → Fraction
least_fraction [] = whole 0
least_fraction (f ∷ fs) = minimum compare_fraction f fs

abbrev normalized : History → Dict String ℕ → Dict String Fraction
normalized h weights =
    map (λ item. (item.0, over_weight (get_or item.0 (whole 0) h.service) item.1)) weights

-- `debt` of a queue that has a weight: what it had beyond the least of its siblings
unfoldable pub debt : History → String → Dict String ℕ → Fraction
debt h queue_id weights =
    sub_fraction (get_or queue_id (whole 0) (normalized h weights))
      (least_fraction (values (normalized h weights)))
