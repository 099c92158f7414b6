-- ===== src/Common/Int.antt =====
-- `int` and `atomic_int`: 32-bit two's complement, as signed integers with the wrap written out.
use Prim.Native.Nat.{ℕ, zero, suc, ◌+◌, ◌-◌, ◌^◌, ◌<◌}
use mathlib.Core.Bool.{Bool, false}
use mathlib.Core.Path.{◌≡◌}
use native.Mathlib.Omega.{arith}
use nxp_imx95_building_block.Common.Tests.{ltb, leb, ◌==◌, if◌then◌else◌}

-- `negsuc n` is -(n + 1).
pub data ℤ : Type 0 where
  pos : ℕ → ℤ
  negsuc : ℕ → ℤ

abbrev pub pos_part : ℤ → ℕ
pos_part (pos n) = n
pos_part (negsuc n) = 0

abbrev pub neg_part : ℤ → ℕ
neg_part (pos n) = 0
neg_part (negsuc n) = suc n

abbrev pub ltb_ℤ : ℤ → ℤ → Bool
ltb_ℤ a b = ltb (pos_part a + neg_part b) (pos_part b + neg_part a)

abbrev pub leb_ℤ : ℤ → ℤ → Bool
leb_ℤ a b = leb (pos_part a + neg_part b) (pos_part b + neg_part a)

abbrev pub eq_ℤ : ℤ → ℤ → Bool
eq_ℤ (pos a) (pos b) = a == b
eq_ℤ (pos a) (negsuc b) = false
eq_ℤ (negsuc a) (pos b) = false
eq_ℤ (negsuc a) (negsuc b) = a == b

-- a - b, as an integer.
abbrev pub sub_ℕ : ℕ → ℕ → ℤ
sub_ℕ a b = if leb b a then pos (a - b) else negsuc (b - a - 1)

infixl 65 ◌+ℤ◌ ◌-ℤ◌
unfoldable pub ◌+ℤ◌ : ℤ → ℤ → ℤ
a +ℤ b = sub_ℕ (pos_part a + pos_part b) (neg_part a + neg_part b)

unfoldable pub ◌-ℤ◌ : ℤ → ℤ → ℤ
a -ℤ b = sub_ℕ (pos_part a + neg_part b) (neg_part a + pos_part b)

-- `INT_MAX` of the target's `int`.
abbrev pub int_max : ℕ
int_max = 2 ^ 31 - 1

-- The value of an `atomic_int` after `atomic_fetch_add(&x, 1)`: it wraps at INT_MAX, as atomic arithmetic does.
unfoldable pub fetch_inc : ℤ → ℤ
fetch_inc (pos n) = if ltb n int_max then pos (n + 1) else negsuc int_max
fetch_inc (negsuc zero) = pos 0
fetch_inc (negsuc (suc n)) = negsuc n

-- The value of an `atomic_int` after `atomic_fetch_sub(&x, 1)`: it wraps at INT_MIN.
unfoldable pub fetch_dec : ℤ → ℤ
fetch_dec (pos zero) = negsuc 0
fetch_dec (pos (suc n)) = pos n
fetch_dec (negsuc n) = if ltb n int_max then negsuc (n + 1) else pos int_max

pub fetch_inc_lt : (n : ℕ) → n < int_max → fetch_inc (pos n) ≡ pos (n + 1)
unfolding fetch_inc
fetch_inc_lt n h = ground arith

pub fetch_dec_pos : (n : ℕ) → 0 < n → fetch_dec (pos n) ≡ pos (n - 1)
unfolding fetch_dec
fetch_dec_pos zero h = absurd (omega arith)
fetch_dec_pos (suc n) h = ground arith
