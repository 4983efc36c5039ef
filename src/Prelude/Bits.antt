-- ===== src/Prelude/Bits.antt =====
-- Flag words, as in `w |= m`, `w &= ~m` and `w & m`, and the laws of their single bits.
use Prim.Native.Nat.{ℕ, zero, suc, ◌+◌, ◌-◌, ◌*◌, ◌/◌, ◌%◌, ◌^◌, ◌≤◌, ◌<◌, min, max}
use Prim.Native.Nat.{bit_and, bit_or, digits, bitwise, bit_and-bitwise, bit_or-bitwise}
use mathlib.Core.Path.{◌≡◌, refl, subst}
use mathlib.Core.Bool.{Bool, not, ◌&&◌, ◌||◌}
use native.Mathlib.Nat.{pow-suc}
use native.Mathlib.Omega.{arith}
use industrial_control.Prelude.Tests.{◌==◌}

-- `w & m` as a condition.
unfoldable pub has : ℕ → ℕ → Bool
has w m = not (bit_and w m == 0)

-- `w |= m`.
unfoldable pub raise : ℕ → ℕ → ℕ
raise w m = bit_or w m

-- `w &= ~m` on an `unsigned int`; an `unsigned char` is promoted to `int` first.
unfoldable pub lower : ℕ → ℕ → ℕ
lower w m = bit_and w (0xffff_ffff - m)

-- Bit `k` of a word.
abbrev pub test_bit : ℕ → ℕ → Bool
test_bit w zero = w % 2 == 1
test_bit w (suc k) = test_bit (w / 2) k

-- The native operations stand for a recursion on binary digits. Digits beyond the first number's
-- value add nothing, whatever operation `f` joins them.
module _ (rest : ℕ → ℕ) (f : ℕ → ℕ → ℕ) where
  digits_one_more :
      (count w m : ℕ) → w ≤ count → digits rest f (suc count) w m ≡ digits rest f count w m
  digits_one_more zero zero m covered = refl
  digits_one_more (suc count) zero m covered = refl
  digits_one_more zero (suc w) m covered = absurd (omega arith)
  digits_one_more (suc count) (suc w) m covered =
      omega (arith, digits_one_more count (suc w / 2) (m / 2) (omega arith))

  digits_more :
      (extra count w m : ℕ)
      → w ≤ count
      → digits rest f (extra + count) w m ≡ digits rest f count w m
  digits_more zero count w m covered =
      subst (λ n. digits rest f n w m ≡ digits rest f count w m) (omega arith) refl
  digits_more (suc extra) count w m covered =
      subst (λ n. digits rest f n w m ≡ digits rest f count w m) counted
        (omega (
          arith,
          digits_one_more (extra + count) w m (omega arith),
          digits_more extra count w m covered,
        ))
    where
      counted : suc (extra + count) ≡ suc extra + count
      counted = omega arith

  digits_enough : (count w m : ℕ) → w ≤ count → digits rest f count w m ≡ digits rest f w w m
  digits_enough count w m covered =
      subst (λ n. digits rest f n w m ≡ digits rest f w w m) (omega arith)
        (digits_more (count - w) w w m (omega arith))

  bitwise_low :
      (w m : ℕ)
      → bitwise rest f (suc w) m ≡ f (suc w % 2) (m % 2) + 2 * bitwise rest f (suc w / 2) (m / 2)
  bitwise_low w m = omega (arith, digits_enough w (suc w / 2) (m / 2) (omega arith))

and_low : (w m : ℕ) → bit_and w m ≡ min (w % 2) (m % 2) + 2 * bit_and (w / 2) (m / 2)
and_low zero m = rw (bit_and-bitwise 0 m, bit_and-bitwise 0 (m / 2)) (omega arith)
and_low (suc w) m =
    rw (bit_and-bitwise (suc w) m, bit_and-bitwise (suc w / 2) (m / 2))
      (bitwise_low (λ b. 0) min w m)

or_low : (w m : ℕ) → bit_or w m ≡ max (w % 2) (m % 2) + 2 * bit_or (w / 2) (m / 2)
or_low zero m = rw (bit_or-bitwise 0 m, bit_or-bitwise 0 (m / 2)) (omega arith)
or_low (suc w) m =
    rw (bit_or-bitwise (suc w) m, bit_or-bitwise (suc w / 2) (m / 2)) (bitwise_low (λ b. b) max w m)

half-bit_and : (a b : ℕ) → bit_and a b / 2 ≡ bit_and (a / 2) (b / 2)
half-bit_and a b = omega (arith, and_low a b)

half-bit_or : (a b : ℕ) → bit_or a b / 2 ≡ bit_or (a / 2) (b / 2)
half-bit_or a b = omega (arith, or_low a b)

pub test_bit-bit_and : (k a b : ℕ) → test_bit (bit_and a b) k ≡ (test_bit a k && test_bit b k)
test_bit-bit_and zero a b = ground (arith, and_low a b)
test_bit-bit_and (suc k) a b = rw half-bit_and (test_bit-bit_and k (a / 2) (b / 2))

pub test_bit-bit_or : (k a b : ℕ) → test_bit (bit_or a b) k ≡ (test_bit a k || test_bit b k)
test_bit-bit_or zero a b = ground (arith, or_low a b)
test_bit-bit_or (suc k) a b = rw half-bit_or (test_bit-bit_or k (a / 2) (b / 2))

-- Nothing is common with the empty word.
bit_and-zero_below : (bound w : ℕ) → w < bound → bit_and w 0 ≡ 0
bit_and-zero_below (suc bound) (suc w) below =
    ground (arith, and_low (suc w) 0, bit_and-zero_below bound (suc w / 2) (omega arith))
bit_and-zero_below bound zero below = bit_and-bitwise 0 0
bit_and-zero_below zero w below = absurd (omega arith)

bit_and-zero : (w : ℕ) → bit_and w 0 ≡ 0
bit_and-zero w = bit_and-zero_below (suc w) w (omega arith)

has-test_bit : (k w : ℕ) → has w (2 ^ k) ≡ test_bit w k
unfolding has
has-test_bit zero w = ground (arith, and_low w 1, bit_and-zero (w / 2))
has-test_bit (suc k) w = ground (arith, pow-suc 2 k, and_low w (2 ^ suc k), has-test_bit k (w / 2))

-- Masks are the single bits of a byte.
abbrev pub mask : ℕ → ℕ
mask k = 2 ^ k

-- After `w |= m` the flag `m` is set and any other flag is as it was.
pub has-raise : (k j w : ℕ) → has (raise w (2 ^ j)) (2 ^ k) ≡ (has w (2 ^ k) || test_bit (2 ^ j) k)
unfolding raise
has-raise k j w =
    rw (has-test_bit k (bit_or w (2 ^ j)), has-test_bit k w) (test_bit-bit_or k w (2 ^ j))

-- After `w |= m` for a mask of several bits.
pub has-raise_mask : (k w m : ℕ) → has (raise w m) (2 ^ k) ≡ (has w (2 ^ k) || test_bit m k)
unfolding raise
has-raise_mask k w m = rw (has-test_bit k (bit_or w m), has-test_bit k w) (test_bit-bit_or k w m)

-- After `w &= ~m` the flag `m` is clear and any other flag is as it was.
pub has-lower :
    (k w m : ℕ) → has (lower w m) (2 ^ k) ≡ (has w (2 ^ k) && test_bit (0xffff_ffff - m) k)
unfolding lower
has-lower k w m =
    rw (has-test_bit k (bit_and w (0xffff_ffff - m)), has-test_bit k w)
      (test_bit-bit_and k w (0xffff_ffff - m))

-- `w & m` as a number.
abbrev pub masked : ℕ → ℕ → ℕ
masked w m = bit_and w m
