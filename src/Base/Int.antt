-- ===== src/Base/Int.antt =====
-- Signed integers over the native numbers: the values of `int64` and of `time.Duration`.
use Prim.Native.Nat.{ℕ, zero, suc, ◌+◌, ◌-◌, ◌*◌, ◌%◌}
use mathlib.Core.Bool.{Bool, true, false}
use yunxiao_workflow_agent.Base.Tests.{ltb, leb, if◌then◌else◌}

-- `negsuc n` is -(n + 1).
pub data ℤ : Type 0 where
  pos : ℕ → ℤ
  negsuc : ℕ → ℤ

abbrev pub is_zero : ℤ → Bool
is_zero (pos zero) = true
is_zero _ = false

-- `x > 0`
abbrev pub is_positive : ℤ → Bool
is_positive (pos zero) = false
is_positive (pos (suc n)) = true
is_positive (negsuc n) = false

abbrev pub two_63 : ℕ
two_63 = 9223372036854775808

abbrev pub two_64 : ℕ
two_64 = 18446744073709551616

-- The values that an `int64` has.
abbrev pub in_int64 : ℤ → Bool
in_int64 (pos n) = ltb n two_63
in_int64 (negsuc n) = ltb n two_63

-- The residue modulo 2 ^ 64 of an integer, and the `int64` with that bit pattern.
abbrev pub residue : ℤ → ℕ
residue (pos n) = n % two_64
residue (negsuc n) = two_64 - 1 - n % two_64

abbrev pub signed : ℕ → ℤ
signed r = if ltb r two_63 then pos r else negsuc (two_64 - 1 - r)

-- `x + y` and `x * k` on `int64`, with wrap-around.
unfoldable pub add_int64 : ℤ → ℤ → ℤ
add_int64 x y = signed ((residue x + residue y) % two_64)

unfoldable pub mul_int64 : ℤ → ℤ → ℤ
mul_int64 x y = signed (residue x * residue y % two_64)

-- `x < y` and `x ≤ y`
abbrev pub ltb_ℤ : ℤ → ℤ → Bool
ltb_ℤ (pos a) (pos b) = ltb a b
ltb_ℤ (pos a) (negsuc b) = false
ltb_ℤ (negsuc a) (pos b) = true
ltb_ℤ (negsuc a) (negsuc b) = ltb b a

abbrev pub leb_ℤ : ℤ → ℤ → Bool
leb_ℤ (pos a) (pos b) = leb a b
leb_ℤ (pos a) (negsuc b) = false
leb_ℤ (negsuc a) (pos b) = true
leb_ℤ (negsuc a) (negsuc b) = leb b a
