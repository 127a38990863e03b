-- ===== src/Prelude/Int.antt =====
-- Integers over the native numbers, as far as the program adds and compares them.
use Prim.Native.Nat.{ℕ, suc, ◌+◌, ◌-◌, Ordering, compare as compare_ℕ}
use gpu_scheduler_lab.Prelude.Logic.{leb, if◌then◌else◌}

-- `negsuc n` is -(n + 1).
pub data ℤ : Type 0 where
  pos : ℕ → ℤ
  negsuc : ℕ → ℤ

abbrev pub pos_part : ℤ → ℕ
pos_part (pos n) = n
pos_part (negsuc n) = 0

abbrev pub neg_part : ℤ → ℕ
neg_part (pos n) = 0
neg_part (negsuc n) = suc n

abbrev sub_ℕ : ℕ → ℕ → ℤ
sub_ℕ a b = if leb b a then pos (a - b) else negsuc (b - a - 1)

infixl 65 ◌+ℤ◌
abbrev pub ◌+ℤ◌ : ℤ → ℤ → ℤ
a +ℤ b = sub_ℕ (pos_part a + pos_part b) (neg_part a + neg_part b)

abbrev pub compare_ℤ : ℤ → ℤ → Ordering
compare_ℤ a b = compare_ℕ (pos_part a + neg_part b) (pos_part b + neg_part a)
