-- ===== src/Base/Bits.antt =====
-- Binary digits of the native numbers: a number as the set of its bits.
use Prim.Native.Nat.{
  ℕ, zero, suc, ◌+◌, ◌-◌, ◌*◌, ◌/◌, ◌%◌, ◌^◌, ◌≤◌, ◌<◌, min, max, digits, bitwise, bit_and, bit_or,
  bit_and-bitwise, bit_or-bitwise,
}
use mathlib.Core.Path.{◌≡◌, refl}
use mathlib.Core.Bool.{Bool, false, not, ◌&&◌, ◌||◌}
use native.Mathlib.Nat.{pow-suc, one-le-pow}
use native.Mathlib.Omega.{arith}
use synctv.Base.Tests.{◌==◌}

-- The digit of weight 2 ^ i.
pub bit_at : ℕ → ℕ → Bool
bit_at zero a = a % 2 == 1
bit_at (suc i) a = bit_at i (a / 2)

-- The fuel of the library's recursion on digits does not matter once it suffices.
module _ (z : ℕ → ℕ) (f : ℕ → ℕ → ℕ) where
  digits-enough : (n m a b : ℕ) → a ≤ n → a ≤ m → digits z f n a b ≡ digits z f m a b
  digits-enough zero zero a b p q = refl
  digits-enough zero (suc m) zero b p q = refl
  digits-enough zero (suc m) (suc a) b p q = absurd (omega arith)
  digits-enough (suc n) zero zero b p q = refl
  digits-enough (suc n) zero (suc a) b p q = absurd (omega arith)
  digits-enough (suc n) (suc m) zero b p q = refl
  digits-enough (suc n) (suc m) (suc a) b p q =
      omega (arith, digits-enough n m (suc a / 2) (b / 2) (omega arith) (omega arith))

  bitwise_step :
      (a b : ℕ)
      → bitwise z f (suc a) b ≡ bitwise z f (suc a / 2) (b / 2) * 2 + f (suc a % 2) (b % 2)
  bitwise_step a b =
      omega (arith, digits-enough a (suc a / 2) (suc a / 2) (b / 2) (omega arith) (omega arith))

bit_and_low : (a b : ℕ) → bit_and a b ≡ bit_and (a / 2) (b / 2) * 2 + min (a % 2) (b % 2)
bit_and_low zero b = omega (arith, bit_and-bitwise 0 b, bit_and-bitwise 0 (b / 2))
bit_and_low (suc a) b = simp bit_and-bitwise (bitwise_step (λ b. 0) min a b)

bit_or_low : (a b : ℕ) → bit_or a b ≡ bit_or (a / 2) (b / 2) * 2 + max (a % 2) (b % 2)
bit_or_low zero b = omega (arith, bit_or-bitwise 0 b, bit_or-bitwise 0 (b / 2))
bit_or_low (suc a) b = simp bit_or-bitwise (bitwise_step (λ b. b) max a b)

half-bit_and : (a b : ℕ) → bit_and a b / 2 ≡ bit_and (a / 2) (b / 2)
half-bit_and a b = omega (arith, bit_and_low a b)

half-bit_or : (a b : ℕ) → bit_or a b / 2 ≡ bit_or (a / 2) (b / 2)
half-bit_or a b = omega (arith, bit_or_low a b)

pub bit_at-bit_and : (i a b : ℕ) → bit_at i (bit_and a b) ≡ (bit_at i a && bit_at i b)
unfolding bit_at
bit_at-bit_and zero a b = ground (arith, bit_and_low a b)
bit_at-bit_and (suc i) a b = rw half-bit_and (bit_at-bit_and i (a / 2) (b / 2))

pub bit_at-bit_or : (i a b : ℕ) → bit_at i (bit_or a b) ≡ (bit_at i a || bit_at i b)
unfolding bit_at
bit_at-bit_or zero a b = ground (arith, bit_or_low a b)
bit_at-bit_or (suc i) a b = rw half-bit_or (bit_at-bit_or i (a / 2) (b / 2))

-- A number is determined by its bits.
bits_determine : (n a b : ℕ) → a ≤ n → b ≤ n → ((i : ℕ) → bit_at i a ≡ bit_at i b) → a ≡ b
unfolding bit_at
bits_determine zero a b p q h = omega arith
bits_determine (suc n) a b p q h =
    ground
      (arith, h 0, bits_determine n (a / 2) (b / 2) (omega arith) (omega arith) (λ i. h (suc i)))

pub bit_at_ext : (a b : ℕ) → ((i : ℕ) → bit_at i a ≡ bit_at i b) → a ≡ b
bit_at_ext a b h = bits_determine (a + b) a b (omega arith) (omega arith) h

-- The complement of a number of w bits.
pub bit_at_complement :
    (w i a : ℕ) → a < 2 ^ w → i < w → bit_at i (2 ^ w - 1 - a) ≡ not (bit_at i a)
unfolding bit_at
bit_at_complement zero i a p q = absurd (omega arith)
bit_at_complement (suc w) zero a p q = ground (arith, pow-suc 2 w, one-le-pow w 2)
bit_at_complement (suc w) (suc i) a p q =
    let half : (2 ^ suc w - 1 - a) / 2 ≡ 2 ^ w - 1 - a / 2 = omega (arith, pow-suc 2 w) in
    rw half (bit_at_complement w i (a / 2) (omega (arith, pow-suc 2 w)) (omega arith))

-- Past its width a number has no bits.
pub bit_at_above : (w i a : ℕ) → a < 2 ^ w → w ≤ i → bit_at i a ≡ false
unfolding bit_at
bit_at_above zero zero zero p q = refl
bit_at_above zero zero (suc a) p q = absurd (omega arith)
bit_at_above zero (suc i) a p q = bit_at_above zero i (a / 2) (omega arith) (omega arith)
bit_at_above (suc w) zero a p q = absurd (omega arith)
bit_at_above (suc w) (suc i) a p q =
    bit_at_above w i (a / 2) (omega (arith, pow-suc 2 w)) (omega arith)
