-- ===== src/Prelude/Int.antt =====
-- Signed integers over the native numbers, under the library's names.
use Prim.Native.Nat.{ℕ}
use mathlib.Core.Bool.{Bool, false}
use tinkiva_sqllite_server.Prelude.Tests.{ltb}

-- `negsuc n` is -(n + 1).
pub data ℤ : Type 0 where
  pos : ℕ → ℤ
  negsuc : ℕ → ℤ

abbrev pub i64_bound : ℕ
i64_bound = 9_223_372_036_854_775_808

abbrev pub u64_bound : ℕ
u64_bound = 18_446_744_073_709_551_616

-- Whether the integer is one of an `i64`, or of a `u64`.
abbrev pub fits_i64 : ℤ → Bool
fits_i64 (pos n) = ltb n i64_bound
fits_i64 (negsuc n) = ltb n i64_bound

abbrev pub fits_u64 : ℤ → Bool
fits_u64 (pos n) = ltb n u64_bound
fits_u64 (negsuc n) = false
