-- ===== src/Models/Elastic.antt =====
-- gpu_scheduler_lab/elastic/work.py: how many replicas an elastic job may have and how fast each
-- number of them works. An efficiency is counted in billionths.
use gpu_scheduler_lab.Prelude.{
  ℕ_eq, ℕ, ◌*◌, ◌&&◌, ◌||◌, not, any, ltb, leb, if◌then◌else◌, Dict, get_or, Result, ok, raise,
  value_error, ◌>>◌, raise_if,
}

-- One, in billionths.
abbrev pub unit : ℕ
unit = 1_000_000_000

pub record ElasticSpec : Type 0 where
  pub min_replicas : ℕ
  pub preferred_replicas : ℕ
  pub max_replicas : ℕ
  pub scaling_efficiency : Dict ℕ ℕ

unfoldable pub new_elastic : ElasticSpec → Result ElasticSpec
new_elastic s = do
  raise_if
      (not (
        ltb 0 s.min_replicas
        && leb s.min_replicas s.preferred_replicas
        && leb s.preferred_replicas s.max_replicas))
      (value_error "elastic replicas must satisfy 0 < min <= preferred <= max")
  raise_if (any (λ entry. leb entry.0 0 || leb entry.1 0) s.scaling_efficiency)
      (value_error "scaling efficiency entries must be finite and positive")
  ok s

unfoldable pub efficiency : ElasticSpec → ℕ → ℕ
efficiency s replicas = get_or replicas unit s.scaling_efficiency

unfoldable pub work_rate : ElasticSpec → ℕ → Result ℕ
unfolding efficiency
work_rate s replicas =
    if leb s.min_replicas replicas && leb replicas s.max_replicas
    then ok (replicas * efficiency s replicas)
    else raise (value_error "elastic replica count is outside configured bounds")
