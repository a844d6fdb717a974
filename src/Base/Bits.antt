-- ===== src/Base/Bits.antt =====
-- `&` with the mask of a byte and `|` of fields that do not overlap, as arithmetic. The laws come
-- from the digit recursion that the native operations stand for.
use Prim.Native.Nat.{ℕ, zero, suc, ◌+◌, ◌*◌, ◌/◌, ◌%◌, ◌^◌, ◌≤◌, ◌<◌, min, max}
use Prim.Native.Nat.{bit_and, bit_or, digits, bit_and-bitwise, bit_or-bitwise}
use mathlib.Core.Path.{◌≡◌, refl, ap}
use native.Mathlib.Omega.{arith}
use native.Mathlib.Nat.{pow-suc}

-- Fuel past the number of digits changes nothing.
module _ (z : ℕ → ℕ) (f : ℕ → ℕ → ℕ) where
  digits_enough : (n m : ℕ) (a b : ℕ) → a ≤ n → a ≤ m → digits z f n a b ≡ digits z f m a b
  digits_enough zero zero a b p q = refl
  digits_enough zero (suc m) zero b p q = refl
  digits_enough (suc n) zero zero b p q = refl
  digits_enough (suc n) (suc m) zero b p q = refl
  digits_enough zero (suc m) (suc a) b p q = absurd (omega arith)
  digits_enough (suc n) zero (suc a) b p q = absurd (omega arith)
  digits_enough (suc n) (suc m) (suc a) b p q =
      let half = digits_enough n m (suc a / 2) (b / 2) (omega arith) (omega arith) in
      ap (λ (t : ℕ). t * 2 + f (suc a % 2) (b % 2)) half

  lowest_digit :
      (a b : ℕ)
      → digits z f (suc a) (suc a) b
        ≡ digits z f (suc a / 2) (suc a / 2) (b / 2) * 2 + f (suc a % 2) (b % 2)
  lowest_digit a b =
      let half = digits_enough a (suc a / 2) (suc a / 2) (b / 2) (omega arith) (omega arith) in
      ap (λ (t : ℕ). t * 2 + f (suc a % 2) (b % 2)) half

bit_and_lowest : (a b : ℕ) → bit_and a b ≡ bit_and (a / 2) (b / 2) * 2 + min (a % 2) (b % 2)
bit_and_lowest zero b = omega (arith, bit_and-bitwise 0 b, bit_and-bitwise 0 (b / 2))
bit_and_lowest (suc a) b = simp bit_and-bitwise (lowest_digit (λ y. 0) min a b)

bit_or_lowest : (a b : ℕ) → bit_or a b ≡ bit_or (a / 2) (b / 2) * 2 + max (a % 2) (b % 2)
bit_or_lowest zero b = omega (arith, bit_or-bitwise 0 b, bit_or-bitwise 0 (b / 2))
bit_or_lowest (suc a) b = simp bit_or-bitwise (lowest_digit (λ y. y) max a b)

bit_and-zero_below : (n a : ℕ) → a ≤ n → bit_and a 0 ≡ 0
bit_and-zero_below n zero h = refl
bit_and-zero_below zero (suc a) h = absurd (omega arith)
bit_and-zero_below (suc n) (suc a) h =
    omega (arith, bit_and_lowest (suc a) 0, bit_and-zero_below n (suc a / 2) (omega arith))

bit_and-three : (a : ℕ) → bit_and a 3 ≡ a % 4
bit_and-three a = omega (
  arith,
  bit_and_lowest a 3,
  bit_and_lowest (a / 2) 1,
  bit_and-zero_below (a / 2 / 2) (a / 2 / 2) (omega arith),
)

bit_and-nibble : (a : ℕ) → bit_and a 15 ≡ a % 16
bit_and-nibble a =
    omega (arith, bit_and_lowest a 15, bit_and_lowest (a / 2) 7, bit_and-three (a / 2 / 2))

-- `v & 0xFF`
pub bit_and-mask : (a : ℕ) → bit_and a 0xff ≡ a % 256
bit_and-mask a = omega (
  arith,
  bit_and_lowest a 255,
  bit_and_lowest (a / 2) 127,
  bit_and_lowest (a / 2 / 2) 63,
  bit_and_lowest (a / 2 / 2 / 2) 31,
  bit_and-nibble (a / 2 / 2 / 2 / 2),
)

double : (k y : ℕ) → y * 2 ^ suc k ≡ y * 2 ^ k * 2
double k y = omega (arith, ap (λ (t : ℕ). y * t) (pow-suc 2 k))

-- `x | (y << k)`, where `x` has no bit from `k` on.
pub bit_or-shifted : (k x y : ℕ) → x < 2 ^ k → bit_or x (y * 2 ^ k) ≡ x + y * 2 ^ k
bit_or-shifted zero x y h =
    let none_left : x ≡ 0 = omega arith in rw (none_left, bit_or-bitwise) (omega arith)
bit_or-shifted (suc k) x y h = rw double (
    omega (
      arith,
      pow-suc 2 k,
      bit_or_lowest x (y * 2 ^ k * 2),
      ap (λ (t : ℕ). bit_or (x / 2) t) half_again,
      bit_or-shifted k (x / 2) y (omega (arith, pow-suc 2 k)),
    ))
  where
    half_again : y * 2 ^ k * 2 / 2 ≡ y * 2 ^ k
    half_again = omega arith
