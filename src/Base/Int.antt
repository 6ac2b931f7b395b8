-- ===== src/Base/Int.antt =====
-- Integers, and the wrap-around of Go's `int32`.
use Prim.Native.Nat.{ℕ, suc, ◌+◌, ◌-◌, ◌%◌, ◌^◌, ◌≤◌, ◌<◌}
use mathlib.Core.Path.{◌≡◌}
use mathlib.Core.Bool.{Bool, false}
use native.Mathlib.Omega.{arith}
use argo_rollouts_k6_plugin.Base.Tests.{ltb, leb, eqb, if◌then◌else◌}

-- `negsuc n` is -(n + 1).
pub data ℤ : Type 0 where
  pos : ℕ → ℤ
  negsuc : ℕ → ℤ

abbrev pub pos_part : ℤ → ℕ
pos_part (pos n) = n
pos_part (negsuc n) = 0

abbrev pub neg_part : ℤ → ℕ
neg_part (pos n) = 0
neg_part (negsuc n) = suc n

-- a - b, as an integer.
abbrev pub sub_ℕ : ℕ → ℕ → ℤ
sub_ℕ a b = if leb b a then pos (a - b) else negsuc (b - a - 1)

infixl 65 ◌-ℤ◌
infix 50 ◌<ℤ◌ ◌≤ℤ◌
unfoldable pub ◌-ℤ◌ : ℤ → ℤ → ℤ
a -ℤ b = sub_ℕ (pos_part a + neg_part b) (neg_part a + pos_part b)

abbrev pub ◌<ℤ◌ : ℤ → ℤ → Type 0
a <ℤ b = pos_part a + neg_part b < pos_part b + neg_part a

abbrev pub ◌≤ℤ◌ : ℤ → ℤ → Type 0
a ≤ℤ b = pos_part a + neg_part b ≤ pos_part b + neg_part a

-- Go's `a < b` and `a == 0` on signed integers.
abbrev pub ltbℤ : ℤ → ℤ → Bool
ltbℤ a b = ltb (pos_part a + neg_part b) (pos_part b + neg_part a)

abbrev pub is_zero : ℤ → Bool
is_zero (pos n) = eqb n 0
is_zero (negsuc n) = false

-- The signed number of a 32-bit pattern, and Go's conversion `int32(a)`: the low 32 bits.
abbrev pub signed32 : ℕ → ℤ
signed32 n = if ltb n (2 ^ 31) then pos n else negsuc (2 ^ 32 - 1 - n)

unfoldable pub int32 : ℤ → ℤ
int32 (pos n) = signed32 (n % 2 ^ 32)
int32 (negsuc n) = signed32 (2 ^ 32 - 1 - n % 2 ^ 32)

pub int32_in_range : (n : ℕ) → n < 2 ^ 31 → int32 (pos n) ≡ pos n
unfolding int32
int32_in_range n h = ground arith
