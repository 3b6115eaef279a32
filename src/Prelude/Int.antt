-- ===== src/Prelude/Int.antt =====
-- Signed machine integers. `negsuc n` is -(n + 1).
use Prim.Native.Nat.{ℕ, suc, ◌+◌, ◌-◌}
use mathlib.Core.Bool.{Bool}
use minato.Prelude.Tests.{ltb, leb, if◌then◌else◌}

pub data ℤ : Type 0 where
  pos : ℕ → ℤ
  negsuc : ℕ → ℤ

abbrev pub pos_part : ℤ → ℕ
pos_part (pos n) = n
pos_part (negsuc n) = 0

abbrev pub neg_part : ℤ → ℕ
neg_part (pos n) = 0
neg_part (negsuc n) = suc n

-- a - b, as an integer.
abbrev pub sub_ℕ : ℕ → ℕ → ℤ
sub_ℕ a b = if leb b a then pos (a - b) else negsuc (b - a - 1)

abbrev pub ltb_ℤ : ℤ → ℤ → Bool
ltb_ℤ a b = ltb (pos_part a + neg_part b) (pos_part b + neg_part a)

infixl 65 ◌-ℤ◌
abbrev pub ◌-ℤ◌ : ℤ → ℤ → ℤ
a -ℤ b = sub_ℕ (pos_part a + neg_part b) (neg_part a + pos_part b)

-- The int32 that a sum or a difference of two int32 values wraps to.
abbrev pub wrap_i32 : ℤ → ℤ
wrap_i32 (pos n) = if ltb n 2147483648 then pos n else sub_ℕ n 4294967296
wrap_i32 (negsuc n) = if ltb n 2147483648 then negsuc n else sub_ℕ 4294967296 (suc n)

-- int32 subtraction.
abbrev pub sub_i32 : ℤ → ℤ → ℤ
sub_i32 a b = wrap_i32 (a -ℤ b)

-- The conversion `int32(len(l))`: lists of 2^31 elements and more do not fit in memory.
abbrev pub of_len : ℕ → ℤ
of_len n = pos n
