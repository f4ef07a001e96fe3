-- ===== src/Go/Word.antt =====
-- The integer types: `uint64` wraps at 2^64; `int` is read as a signed number.
use Prim.Native.Nat.{ℕ, zero, suc, ◌%◌, ◌+◌}
use goaxon.Prelude.{◌≡◌, ◌<◌, ◌-◌, Bool, true, false, arith, ltb, if◌then◌else◌}

abbrev pub u64_mod : ℕ
u64_mod = 18446744073709551616

abbrev pub u64 : ℕ → ℕ
u64 n = n % u64_mod

-- `negsuc n` is -(n + 1). An `int` holds 64 bits; the program only compares and stores it.
pub data ℤ : Type 0 where
  pos : ℕ → ℤ
  negsuc : ℕ → ℤ

-- `cents <= 0`
abbrev pub is_not_positive : ℤ → Bool
is_not_positive (pos zero) = true
is_not_positive (pos (suc n)) = false
is_not_positive (negsuc n) = true

pub u64_small : (n : ℕ) → n < u64_mod → u64 n ≡ n
u64_small n h = omega arith

pub u64-add : (a b : ℕ) → u64 (u64 a + b) ≡ u64 (a + b)
u64-add a b = omega arith

abbrev pub i64_bound : ℕ
i64_bound = 9223372036854775808

-- `int64(n)` of a `uint64`, and `uint64(i)` of an `int64`
unfoldable pub to_i64 : ℕ → ℤ
to_i64 n = if ltb n i64_bound then pos n else negsuc (u64_mod - 1 - n)

abbrev pub from_i64 : ℤ → ℕ
from_i64 (pos n) = u64 n
from_i64 (negsuc n) = u64_mod - 1 - n

-- A `uint64` that is stored in an `int64` comes back.
pub from_i64-to_i64 : (n : ℕ) → n < u64_mod → from_i64 (to_i64 n) ≡ n
unfolding to_i64
from_i64-to_i64 n h = ground arith

pub to_i64_small : (n : ℕ) → n < i64_bound → to_i64 n ≡ pos n
unfolding to_i64
to_i64_small n h = ground arith
