-- ===== src/Base/Int.antt =====
-- Go's 64-bit integers: `int64` as an integer, `uint64` as a number, and the two conversions.
use Prim.Native.Nat.{ℕ, ◌+◌, ◌-◌, ◌%◌, ◌^◌, ◌<◌}
use mathlib.Core.Path.{◌≡◌}
use native.Mathlib.Omega.{arith}
use vire_fs.Base.Tests.{ltb, if◌then◌else◌}

-- `negsuc n` is -(n + 1).
pub data ℤ : Type 0 where
  pos : ℕ → ℤ
  negsuc : ℕ → ℤ

abbrev pub word : ℕ
word = 2 ^ 64

abbrev pub half_word : ℕ
half_word = 2 ^ 63

-- `int64(x)` of a `uint64`, in two's complement.
unfoldable pub to_int64 : ℕ → ℤ
to_int64 x = if ltb x half_word then pos x else negsuc (word - 1 - x)

-- `uint64(x)` of an `int64`.
unfoldable pub to_uint64 : ℤ → ℕ
to_uint64 (pos n) = n % word
to_uint64 (negsuc n) = (word - 1 - n) % word

pub to_uint64-to_int64 : (x : ℕ) → x < word → to_uint64 (to_int64 x) ≡ x
unfolding to_uint64 to_int64
to_uint64-to_int64 x h = ground arith

-- `n++` of an `int`, as its 64-bit pattern.
abbrev pub int_succ : ℕ → ℕ
int_succ n = (n + 1) % word
