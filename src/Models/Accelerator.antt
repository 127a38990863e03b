-- ===== src/Models/Accelerator.antt =====
-- gpu_scheduler_lab/models/accelerator.py: vendors and kinds of accelerators.
use gpu_scheduler_lab.Prelude.{
  ℕ, String, ◌≡◌, ◌↔◌, Bool, true, false, Ordering, compare_text, Eq, nat_eq, arith,
}

pub data Vendor : Type 0 where
  unknown nvidia huawei_ascend : Vendor

pub data Kind : Type 0 where
  gpu npu : Kind

pub data SelectionPolicy : Type 0 where
  any : SelectionPolicy

-- The value of the string enumeration, by which vendors are sorted.
abbrev pub vendor_value : Vendor → String
vendor_value unknown = "unknown"
vendor_value nvidia = "nvidia"
vendor_value huawei_ascend = "huawei-ascend"

abbrev pub compare_vendor : Vendor → Vendor → Ordering
compare_vendor a b = compare_text (vendor_value a) (vendor_value b)

abbrev pub vendor_supports_kind : Vendor → Kind → Bool
vendor_supports_kind nvidia gpu = true
vendor_supports_kind huawei_ascend npu = true
vendor_supports_kind _ _ = false

abbrev vendor_rank : Vendor → ℕ
vendor_rank unknown = 0
vendor_rank nvidia = 1
vendor_rank huawei_ascend = 2

abbrev kind_rank : Kind → ℕ
kind_rank gpu = 0
kind_rank npu = 1

abbrev pub vendor_beq : Vendor → Vendor → Bool
vendor_beq a b = nat_eq (vendor_rank a) (vendor_rank b)

abbrev pub kind_beq : Kind → Kind → Bool
kind_beq a b = nat_eq (kind_rank a) (kind_rank b)

pub vendor_beq_iff : (a b : Vendor) → (vendor_beq a b ≡ true) ↔ (a ≡ b)
vendor_beq_iff a b = ground arith

pub kind_beq_iff : (a b : Kind) → (kind_beq a b ≡ true) ↔ (a ≡ b)
kind_beq_iff a b = ground arith

instance abbrev pub vendor_eq : Eq Vendor
vendor_eq = record { beq = vendor_beq; beq_iff = vendor_beq_iff }

instance abbrev pub kind_eq : Eq Kind
kind_eq = record { beq = kind_beq; beq_iff = kind_beq_iff }
