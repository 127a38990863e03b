-- ===== src/Models/Job/Validation.antt =====
-- `Job.__post_init__` (gpu_scheduler_lab/models/job.py): the checks on a request, in their order.
-- That a number is finite holds of every number of the model, so those checks cannot fail.
use gpu_scheduler_lab.Prelude.{
  ◌<>◌, text_eq_instance, String, Bool, true, false, ◌&&◌, not, Option, none, some, List, ◌==◌, leb,
  ltb, any, distinct, is_empty, Result, ok, value_error, ◌>>◌, raise_if, Eq,
}
use gpu_scheduler_lab.Models.Accelerator.{Vendor, Kind, vendor_supports_kind, vendor_eq, kind_eq}
use gpu_scheduler_lab.Models.Job.{JobSpec, Job, fresh_job}

abbrev precedes_arrival : JobSpec → Bool
precedes_arrival s = elim s.sla_deadline [ none ↦ false | some d ↦ ltb d s.arrival_time ]

abbrev is_blank : Option String → Bool
is_blank none = false
is_blank (some text) = text == ""

abbrev is_given : Option String → Bool
is_given none = false
is_given (some text) = true

abbrev check_names : String → List String → Result (Unit {0})
check_names name values = do
  raise_if (any (λ v. v == "") values) (value_error (name <> " must not contain empty values"))
  raise_if (not (distinct values)) (value_error (name <> " must not contain duplicates"))

abbrev check_distinct {ℓ} : {A : Type ℓ} ⦃e : Eq A⦄ → String → List A → Result (Unit {0})
check_distinct name values =
    raise_if (not (distinct values)) (value_error (name <> " must not contain duplicates"))

abbrev has_supported_pair : List Vendor → List Kind → Bool
has_supported_pair vendors kinds = any (λ v. any (vendor_supports_kind v) kinds) vendors

abbrev check_numbers : JobSpec → Result (Unit {0})
check_numbers s = do
  raise_if (leb s.duration 0) (value_error "duration must be positive")
  raise_if (leb s.gpu_count 0) (value_error "gpu_count must be positive")
  raise_if (leb s.gpu_memory_gb 0) (value_error "gpu_memory_gb must be positive")
  raise_if (precedes_arrival s) (value_error "sla_deadline must not precede arrival_time")

abbrev check_models : JobSpec → Result (Unit {0})
check_models s = do
  raise_if (is_given s.gpu_model && not (is_empty s.allowed_gpu_models))
      (value_error "gpu_model and allowed_gpu_models are mutually exclusive")
  raise_if (is_blank s.gpu_model) (value_error "gpu_model must not be empty")
  raise_if (any (λ m. m == "") s.allowed_gpu_models)
      (value_error "allowed_gpu_models must not contain empty values")

abbrev check_accelerators : JobSpec → Result (Unit {0})
check_accelerators s = do
  check_distinct "allowed_vendors" s.allowed_vendors
  check_distinct "allowed_kinds" s.allowed_kinds
  check_names "allowed_models" s.allowed_models
  check_names "required_capabilities" s.required_capabilities
  raise_if
      (not (is_empty s.allowed_vendors)
        && not (is_empty s.allowed_kinds)
        && not (has_supported_pair s.allowed_vendors s.allowed_kinds))
      (value_error "allowed_vendors and allowed_kinds must include a supported pair")
  raise_if (is_blank s.runtime_profile) (value_error "runtime_profile must not be empty")

unfoldable pub new_job : JobSpec → Result Job
new_job s = do
  raise_if (s.id == "") (value_error "job id must not be empty")
  raise_if (s.queue_id == "") (value_error "queue_id must not be empty")
  check_numbers s
  check_models s
  check_accelerators s
  ok (fresh_job s)
