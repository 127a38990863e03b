-- ===== src/Models/Cluster/Checks.antt =====
-- `Cluster.assert_invariants` (gpu_scheduler_lab/models/cluster.py).
use gpu_scheduler_lab.Prelude.{
  String, text_eq_instance, Bool, true, false, ◌&&◌, not, none, some, List, [], ◌∷◌, ltb, leb,
  nat_eq, length, any, elem, dedup, Dict, append_to, Result, assertion_error, ◌>>◌, raise_if, ◌<>◌,
}
use gpu_scheduler_lab.Models.Accelerator.{Vendor, vendor_eq}
use gpu_scheduler_lab.Models.Cluster.{Gpu, Cluster, gpus}

abbrev is_unowned : Gpu → Bool
is_unowned g = elim g.owner_job_id [ none ↦ true | some _ ↦ false ]

-- `vendors_by_owner.setdefault(gpu.owner_job_id, set()).add(gpu.vendor)`, with the set as a list
abbrev record_vendor : Gpu → Dict String (List Vendor) → Dict String (List Vendor)
record_vendor g vendors = elim g.owner_job_id [
  | none ↦ vendors
  | some owner ↦ append_to owner g.vendor vendors
]

abbrev mixes_vendors : Dict String (List Vendor) → Bool
mixes_vendors vendors = any (λ item. ltb 1 (length (dedup item.1))) vendors

unfoldable pub check_gpus : List String → Dict String (List Vendor) → List Gpu → Result (Unit {0})
check_gpus seen vendors [] =
    raise_if (mixes_vendors vendors)
      (assertion_error "one job owns accelerators from multiple vendors")
check_gpus seen vendors (g ∷ rest) = do
  raise_if (not (leb g.allocated_memory_gb g.memory_capacity_gb))
      (assertion_error ("memory invariant violated on " <> g.id))
  raise_if (is_unowned g && not (nat_eq g.allocated_memory_gb 0))
      (assertion_error ("unowned memory allocation on " <> g.id))
  raise_if (elem g.id seen) (assertion_error ("duplicate GPU id " <> g.id))
  check_gpus (g.id ∷ seen) (record_vendor g vendors) rest

unfoldable pub assert_invariants : Cluster → Result (Unit {0})
unfolding check_gpus
assert_invariants c = check_gpus [] [] (gpus c)
