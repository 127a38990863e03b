-- ===== src/Queues/Resource.antt =====
-- `ResourceVector` (gpu_scheduler_lab/queues/model.py). Both amounts are counted in billionths, so
-- the source's tolerance of 1e-9 is one. Being finite and non-negative holds of every number here.
use gpu_scheduler_lab.Prelude.{ℕ, ◌+◌, ◌-◌, Bool, true, ◌&&◌, ◌||◌, not, Option, none, some, leb}

pub record ResourceVector : Type 0 where
  pub gpu_units : ℕ
  pub gpu_memory_gb : ℕ

abbrev pub no_resources : ResourceVector
no_resources = record { gpu_units = 0; gpu_memory_gb = 0 }

abbrev pub tolerance : ℕ
tolerance = 1

infixl 65 ◌⊞◌ ◌⊟◌
abbrev pub ◌⊞◌ : ResourceVector → ResourceVector → ResourceVector
a ⊞ b = record {
  gpu_units = a.gpu_units + b.gpu_units;
  gpu_memory_gb = a.gpu_memory_gb + b.gpu_memory_gb;
}

-- `max(0.0, a - b)` in each component
abbrev pub ◌⊟◌ : ResourceVector → ResourceVector → ResourceVector
a ⊟ b = record {
  gpu_units = a.gpu_units - b.gpu_units;
  gpu_memory_gb = a.gpu_memory_gb - b.gpu_memory_gb;
}

abbrev pub within : ResourceVector → ResourceVector → Bool
within a limit =
    leb a.gpu_units (limit.gpu_units + tolerance)
    && leb a.gpu_memory_gb (limit.gpu_memory_gb + tolerance)

abbrev pub fits_within : ResourceVector → Option ResourceVector → Bool
fits_within a none = true
fits_within a (some limit) = within a limit

-- The two resources, by which guarantees name their dimensions.
pub data Dimension : Type 0 where
  units memory : Dimension

-- `getattr(vector, dimension)`
abbrev pub amount : Dimension → ResourceVector → ℕ
amount units a = a.gpu_units
amount memory a = a.gpu_memory_gb

-- A `frozenset` of dimensions.
pub record Dimensions : Type 0 where
  pub has_units : Bool
  pub has_memory : Bool

abbrev pub has_dimension : Dimension → Dimensions → Bool
has_dimension units d = d.has_units
has_dimension memory d = d.has_memory

abbrev pub has_any : Dimensions → Bool
has_any d = d.has_units || d.has_memory

-- `all(p(dimension) for dimension in dimensions)`, and the same for `any`
abbrev pub all_dimensions : (Dimension → Bool) → Dimensions → Bool
all_dimensions p d = (not d.has_units || p units) && (not d.has_memory || p memory)

abbrev pub any_dimension : (Dimension → Bool) → Dimensions → Bool
any_dimension p d = (d.has_units && p units) || (d.has_memory && p memory)
