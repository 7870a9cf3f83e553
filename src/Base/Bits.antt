-- ===== src/Base/Bits.antt =====
-- Masks, shifts and disjoint fields on machine words, from the digit recursion of the native `&`
-- and `|`.
use Prim.Native.Nat.{
  ℕ, zero, suc, ◌+◌, ◌-◌, ◌*◌, ◌/◌, ◌%◌, ◌^◌, ◌≤◌, ◌<◌, min, max, bit_and, bit_or, digits, bitwise,
  bit_and-bitwise, bit_or-bitwise,
}
use mathlib.Core.Path.{◌≡◌, refl}
use native.Mathlib.Omega.{arith}
use native.Mathlib.Nat.{pow-suc}

-- Enough digits are enough.
digits_enough :
    (z : ℕ → ℕ) (f : ℕ → ℕ → ℕ) (n m a b : ℕ) → a ≤ n → a ≤ m → digits z f n a b ≡ digits z f m a b
digits_enough z f zero zero a b p q = refl
digits_enough z f zero (suc m) zero b p q = refl
digits_enough z f zero (suc m) (suc a) b p q = absurd (omega arith)
digits_enough z f (suc n) zero zero b p q = refl
digits_enough z f (suc n) zero (suc a) b p q = absurd (omega arith)
digits_enough z f (suc n) (suc m) zero b p q = refl
digits_enough z f (suc n) (suc m) (suc a) b p q =
    omega (arith, digits_enough z f n m (suc a / 2) (b / 2) (omega arith) (omega arith))

-- One digit at a time, where running out of the first number agrees with its digit zero.
bitwise-halves :
    (z : ℕ → ℕ) (f : ℕ → ℕ → ℕ)
    → ((b : ℕ) → z b ≡ z (b / 2) * 2 + f 0 (b % 2))
    → (a b : ℕ) → bitwise z f a b ≡ bitwise z f (a / 2) (b / 2) * 2 + f (a % 2) (b % 2)
bitwise-halves z f even zero b = even b
bitwise-halves z f even (suc a) b =
    omega (arith, digits_enough z f a (suc a / 2) (suc a / 2) (b / 2) (omega arith) (omega arith))

and_halves : (a b : ℕ) → bit_and a b ≡ bit_and (a / 2) (b / 2) * 2 + min (a % 2) (b % 2)
and_halves a b = omega (
  arith,
  bit_and-bitwise a b,
  bit_and-bitwise (a / 2) (b / 2),
  bitwise-halves (λ b. 0) min (λ b. omega arith) a b,
)

or_halves : (a b : ℕ) → bit_or a b ≡ bit_or (a / 2) (b / 2) * 2 + max (a % 2) (b % 2)
or_halves a b = omega (
  arith,
  bit_or-bitwise a b,
  bit_or-bitwise (a / 2) (b / 2),
  bitwise-halves (λ b. b) max (λ b. omega arith) a b,
)

and_zero_below : (n a : ℕ) → a < n → bit_and a 0 ≡ 0
and_zero_below zero a h = elim h [ ]
and_zero_below (suc n) zero h = refl
and_zero_below (suc n) (suc a) h =
    omega (arith, and_halves (suc a) 0, and_zero_below n (suc a / 2) (omega arith))

or_zero_below : (n a : ℕ) → a < n → bit_or a 0 ≡ a
or_zero_below zero a h = elim h [ ]
or_zero_below (suc n) zero h = refl
or_zero_below (suc n) (suc a) h =
    omega (arith, or_halves (suc a) 0, or_zero_below n (suc a / 2) (omega arith))

double_field : (k q : ℕ) → q * 2 ^ suc k ≡ 2 * (q * 2 ^ k)
double_field k q = rw (pow-suc 2 k) (omega arith)

-- `(q << k) | r` with the fields apart is their sum.
pub or_fields : (k q r : ℕ) → r < 2 ^ k → bit_or (q * 2 ^ k) r ≡ q * 2 ^ k + r
or_fields zero q r h = ground (arith, or_zero_below (suc q) q (omega arith))
or_fields (suc k) q r h =
    let small : r / 2 < 2 ^ k = omega (arith, pow-suc 2 k) in
    ground (arith, or_halves (q * 2 ^ suc k) r, double_field k q, or_fields k q (r / 2) small)

mask_of_fields : (k q r : ℕ) → r < 2 ^ k → bit_and (q * 2 ^ k + r) (2 ^ k - 1) ≡ r
mask_of_fields zero q r h =
    rw (and_zero_below (suc (q * 1 + r)) (q * 1 + r) (omega arith)) (omega arith)
mask_of_fields (suc k) q r h =
    let small : r / 2 < 2 ^ k = omega (arith, pow-suc 2 k) in
    ground (
      arith,
      and_halves (q * 2 ^ suc k + r) (2 ^ suc k - 1),
      double_field k q,
      pow-suc 2 k,
      mask_of_fields k q (r / 2) small,
    )

-- `x & (2^k - 1)` is the remainder.
pub and_mask : (k x : ℕ) → 0 < 2 ^ k → bit_and x (2 ^ k - 1) ≡ x % 2 ^ k
and_mask k x h = ground (arith, mask_of_fields k (x / 2 ^ k) (x % 2 ^ k))

-- `x & (m << k)` is the field above bit k, masked.
pub and_field :
    (k q r m : ℕ) → r < 2 ^ k → bit_and (q * 2 ^ k + r) (m * 2 ^ k) ≡ bit_and q m * 2 ^ k
and_field zero q r m h =
    let none_below : q * 1 + r ≡ q = omega arith in
    let one : m * 1 ≡ m = omega arith in rw (none_below, one) (omega arith)
and_field (suc k) q r m h =
    let small : r / 2 < 2 ^ k = omega (arith, pow-suc 2 k) in
    ground (
      arith,
      and_halves (q * 2 ^ suc k + r) (m * 2 ^ suc k),
      double_field k q,
      double_field k m,
      double_field k (bit_and q m),
      and_field k q (r / 2) m small,
    )
