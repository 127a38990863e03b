-- ===== src/Fairshare/Shares.antt =====
-- Dominant shares (gpu_scheduler_lab/fairshare/drf.py), as exact quotients. A weight is counted in
-- billionths.
use gpu_scheduler_lab.Models.Elastic.{unit}
use gpu_scheduler_lab.Queues.Resource.{ResourceVector}
use gpu_scheduler_lab.Prelude.{
  value_error, leb, whole, raise_if, ◌>>◌, nat_eq, ◌*◌, max_fraction, if◌then◌else◌, Result,
  Fraction, ok, ℕ,
}

-- `used / total if total else 0.0`
abbrev pub share_of : ℕ → ℕ → Fraction
share_of used total = if nat_eq total 0 then whole 0 else record { num = used; den = total }

unfoldable pub dominant_share : ResourceVector → ResourceVector → Fraction
dominant_share usage capacity =
    max_fraction (share_of usage.gpu_units capacity.gpu_units)
      (share_of usage.gpu_memory_gb capacity.gpu_memory_gb)

abbrev pub over_weight : Fraction → ℕ → Fraction
over_weight f weight = record { num = f.num * unit; den = f.den * weight }

unfoldable pub weighted_dominant_share : ResourceVector → ResourceVector → ℕ → Result Fraction
unfolding dominant_share
weighted_dominant_share usage capacity weight = do
  raise_if (leb weight 0) (value_error "DRF weight must be finite and positive")
  ok (over_weight (dominant_share usage capacity) weight)
