-- ===== src/Base/Int.antt =====
-- Signed numbers over the native naturals, as far as lengths need them.
use Prim.Native.Nat.{ℕ, ◌-◌, ◌%◌, ◌^◌, ◌<◌}
use synctv.Base.Tests.{leb, ltb, if◌then◌else◌}
use mathlib.Core.Path.{◌≡◌}
use native.Mathlib.Omega.{arith}
use mathlib.Core.Bool.{Bool, true, false}

pub data ℤ : Type 0 where
  pos : ℕ → ℤ
  negsuc : ℕ → ℤ

-- The difference of two naturals.
abbrev pub diff : ℕ → ℕ → ℤ
diff a b = elim (leb b a) [ true ↦ pos (a - b) | false ↦ negsuc (b - a - 1) ]

-- How much is left to do of a length that may be negative.
abbrev pub positive_part : ℤ → ℕ
positive_part (pos n) = n
positive_part (negsuc n) = 0

-- What an `int` of 64 bits keeps of a product.
unfoldable pub int64 : ℕ → ℤ
int64 n = let k = n % 2 ^ 64 in if ltb k (2 ^ 63) then pos k else negsuc (2 ^ 64 - 1 - k)

abbrev pub lt_int : ℤ → ℤ → Bool
lt_int (pos a) (pos b) = ltb a b
lt_int (pos a) (negsuc b) = false
lt_int (negsuc a) (pos b) = true
lt_int (negsuc a) (negsuc b) = ltb b a

pub int64_small : (n : ℕ) → n < 2 ^ 63 → int64 n ≡ pos n
unfolding int64
int64_small n h = let same : n % 2 ^ 64 ≡ n = omega arith in rw same (ground arith)
