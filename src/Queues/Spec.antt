-- ===== src/Queues/Spec.antt =====
-- `QueueSpec` (gpu_scheduler_lab/queues/model.py).
use Prim.Native.String.{len, slice}
use text.Mathlib.Text.{starts_with}
use gpu_scheduler_lab.Prelude.{
  ℕ, ℤ, pos, true, ◌-◌, String, text_eq_instance, Bool, ◌&&◌, ◌||◌, not, Option, none, ◌==◌, leb,
  ltb, Result, ok, value_error, ◌>>◌, raise_if, ◌<>◌,
}
use gpu_scheduler_lab.Models.Elastic.{unit}
use gpu_scheduler_lab.Queues.Resource.{ResourceVector, Dimensions, no_resources, fits_within}

pub record QueueSpec : Type 0 where
  pub id : String
  pub parent : Option String
  pub weight : ℕ
  pub guaranteed : ResourceVector
  pub limit : Option ResourceVector
  pub borrowing_enabled : Bool
  pub reclaimable : Bool
  pub priority_offset : ℤ
  pub guaranteed_dimensions : Dimensions

abbrev ends_with : String → String → Bool
ends_with s t = leb (len t) (len s) && slice s (len s - len t) (len s) == t

-- Where no dimensions are given, those with a positive guarantee are taken.
abbrev pub positive_dimensions : ResourceVector → Dimensions
positive_dimensions g = record { has_units = ltb 0 g.gpu_units; has_memory = ltb 0 g.gpu_memory_gb }

-- `QueueSpec.__post_init__`, on a queue whose dimensions are filled in
unfoldable pub new_queue : QueueSpec → Result QueueSpec
new_queue q = do
  raise_if (q.id == "" || starts_with q.id "/" || ends_with q.id "/")
      (value_error "queue id must be a non-empty normalized path")
  raise_if (leb q.weight 0) (value_error "queue weight must be finite and positive")
  raise_if (not (fits_within q.guaranteed q.limit))
      (value_error ("queue " <> q.id <> " guarantee exceeds its limit"))
  ok q

-- `QueueSpec(id, parent)`
abbrev pub plain_queue : String → Option String → QueueSpec
plain_queue id parent = record {
  id = id;
  parent = parent;
  weight = unit;
  guaranteed = no_resources;
  limit = none;
  borrowing_enabled = true;
  reclaimable = true;
  priority_offset = pos 0;
  guaranteed_dimensions = positive_dimensions no_resources;
}
