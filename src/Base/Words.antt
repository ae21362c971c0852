-- ===== src/Base/Words.antt =====
-- C's integers on a 64-bit machine: `int` as a signed number, `size_t` and `uint32_t` as
-- naturals with the wrap-around written out.
use Prim.Native.Nat.{ℕ, zero, suc, ◌+◌, ◌-◌, ◌%◌, ◌^◌}
use mathlib.Core.Bool.{Bool, true, false}
use sample_code.Base.Tests.{ltb, if◌then◌else◌}

-- `negsuc n` is -(n + 1).
pub data ℤ : Type 0 where
  pos : ℕ → ℤ
  negsuc : ℕ → ℤ

abbrev pub u32_mod : ℕ
u32_mod = 2 ^ 32

abbrev pub u64_mod : ℕ
u64_mod = 2 ^ 64

-- The conversion of an unsigned value to a 32-bit `int`.
abbrev pub to_int : ℕ → ℤ
to_int n = let m = n % u32_mod in if ltb m (2 ^ 31) then pos m else negsuc (u32_mod - m - 1)

-- The conversion of an `int` to `size_t`, which extends the sign.
abbrev pub to_size : ℤ → ℕ
to_size (pos n) = n % u64_mod
to_size (negsuc n) = u64_mod - (n + 1)

-- The rounds of `for (i = 0; i < n; i++)` over an `int` bound.
abbrev pub rounds : ℤ → ℕ
rounds (pos n) = n
rounds (negsuc n) = 0

-- The conversion of an `int` to `unsigned int`.
abbrev pub to_uint : ℤ → ℕ
to_uint (pos n) = n % u32_mod
to_uint (negsuc n) = u32_mod - (n + 1)

-- `!n` of an `int`
abbrev pub is_zero : ℤ → Bool
is_zero (pos zero) = true
is_zero (pos (suc n)) = false
is_zero (negsuc n) = false

-- `if (n)` of an unsigned value
abbrev pub ne_zero : ℕ → Bool
ne_zero zero = false
ne_zero (suc n) = true
