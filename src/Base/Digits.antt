-- ===== src/Base/Digits.antt =====
-- `&` and `|` of C digit by digit: both split at any bit position.
use Prim.Native.Nat.{ℕ, zero, suc, ◌+◌, ◌-◌, ◌*◌, ◌/◌, ◌%◌, ◌^◌, ◌≤◌, ◌<◌, min, max}
use Prim.Native.Nat.{digits, bit_and, bit_or, bit_and-bitwise, bit_or-bitwise}
use mathlib.Core.Path.{◌≡◌, refl, ap, ◌∙◌}
use mathlib.Core.Logic.{◌↔◌}
use native.Mathlib.Nat.{pow-suc, one-le-pow}
use native.Mathlib.Omega.{arith}

-- The count of digits to go does not matter once it reaches the first number.
module _ (z : ℕ → ℕ) (f : ℕ → ℕ → ℕ) where
  digits_count : (n m a b : ℕ) → a ≤ n → a ≤ m → digits z f n a b ≡ digits z f m a b
  digits_count zero zero a b p q = refl
  digits_count zero (suc m) zero b p q = refl
  digits_count zero (suc m) (suc a) b p q = absurd (omega arith)
  digits_count (suc n) zero zero b p q = refl
  digits_count (suc n) zero (suc a) b p q = absurd (omega arith)
  digits_count (suc n) (suc m) zero b p q = refl
  digits_count (suc n) (suc m) (suc a) b p q =
      omega (arith, digits_count n m (suc a / 2) (b / 2) (omega arith) (omega arith))

pub bit_and_last : (a b : ℕ) → bit_and a b ≡ bit_and (a / 2) (b / 2) * 2 + min (a % 2) (b % 2)
bit_and_last zero b = omega (arith, bit_and-bitwise 0 b, bit_and-bitwise 0 (b / 2))
bit_and_last (suc a) b = omega (
  arith,
  bit_and-bitwise (suc a) b,
  bit_and-bitwise (suc a / 2) (b / 2),
  digits_count (λ y. zero) min a (suc a / 2) (suc a / 2) (b / 2) (omega arith) (omega arith),
)

pub bit_or_last : (a b : ℕ) → bit_or a b ≡ bit_or (a / 2) (b / 2) * 2 + max (a % 2) (b % 2)
bit_or_last zero b = omega (arith, bit_or-bitwise 0 b, bit_or-bitwise 0 (b / 2))
bit_or_last (suc a) b = omega (
  arith,
  bit_or-bitwise (suc a) b,
  bit_or-bitwise (suc a / 2) (b / 2),
  digits_count (λ y. y) max a (suc a / 2) (suc a / 2) (b / 2) (omega arith) (omega arith),
)

-- Both operations split at bit `k`.
double_shift : (c k : ℕ) → c * 2 ^ suc k ≡ 2 * (c * 2 ^ k)
double_shift c k = omega (arith, ap (λ (t : ℕ). c * t) (pow-suc 2 k))

pub bit_and_split :
    (k c d a b : ℕ)
    → a < 2 ^ k
    → b < 2 ^ k
    → bit_and (c * 2 ^ k + a) (d * 2 ^ k + b) ≡ bit_and c d * 2 ^ k + bit_and a b
bit_and_split zero c d zero zero p q = ground arith
bit_and_split zero c d (suc a) b p q = absurd (omega arith)
bit_and_split zero c d zero (suc b) p q = absurd (omega arith)
bit_and_split (suc k) c d a b p q = ground (
  arith,
  bit_and_last (c * 2 ^ suc k + a) (d * 2 ^ suc k + b),
  bit_and_last a b,
  double_shift c k,
  double_shift d k,
  double_shift (bit_and c d) k,
  pow-suc 2 k,
  bit_and_split k c d (a / 2) (b / 2),
)

pub bit_or_split :
    (k c d a b : ℕ)
    → a < 2 ^ k
    → b < 2 ^ k
    → bit_or (c * 2 ^ k + a) (d * 2 ^ k + b) ≡ bit_or c d * 2 ^ k + bit_or a b
bit_or_split zero c d zero zero p q = ground arith
bit_or_split zero c d (suc a) b p q = absurd (omega arith)
bit_or_split zero c d zero (suc b) p q = absurd (omega arith)
bit_or_split (suc k) c d a b p q = ground (
  arith,
  bit_or_last (c * 2 ^ suc k + a) (d * 2 ^ suc k + b),
  bit_or_last a b,
  double_shift c k,
  double_shift d k,
  double_shift (bit_or c d) k,
  pow-suc 2 k,
  bit_or_split k c d (a / 2) (b / 2),
)

and_nothing : (n a : ℕ) → digits (λ y. zero) min n a 0 ≡ 0
and_nothing zero a = refl
and_nothing (suc n) zero = refl
and_nothing (suc n) (suc a) = omega (arith, and_nothing n (suc a / 2))

or_nothing : (n a : ℕ) → a ≤ n → digits (λ y. y) max n a 0 ≡ a
or_nothing zero zero p = refl
or_nothing zero (suc a) p = absurd (omega arith)
or_nothing (suc n) zero p = refl
or_nothing (suc n) (suc a) p = omega (arith, or_nothing n (suc a / 2) (omega arith))

pub bit_and-zero : (a : ℕ) → bit_and a 0 ≡ 0
bit_and-zero a = bit_and-bitwise a 0 ∙ and_nothing a a

pub zero-bit_and : (b : ℕ) → bit_and 0 b ≡ 0
zero-bit_and b = bit_and-bitwise 0 b

pub bit_or-zero : (a : ℕ) → bit_or a 0 ≡ a
bit_or-zero a = bit_or-bitwise a 0 ∙ or_nothing a a (omega arith)

pub zero-bit_or : (b : ℕ) → bit_or 0 b ≡ b
zero-bit_or b = bit_or-bitwise 0 b

-- `(q << k) | r` is a sum when `r` fits `k` bits.
pub bit_or_join : (k q r : ℕ) → r < 2 ^ k → bit_or (q * 2 ^ k) r ≡ q * 2 ^ k + r
bit_or_join k q r p =
    ground (arith, bit_or_split k q 0 0 r, zero-bit_or r, bit_or-zero q, one-le-pow k 2)

bit_and-ones : (k r : ℕ) → r < 2 ^ k → bit_and r (2 ^ k - 1) ≡ r
bit_and-ones zero zero p = refl
bit_and-ones zero (suc r) p = absurd (omega arith)
bit_and-ones (suc k) r p =
    ground
      (arith, bit_and_last r (2 ^ suc k - 1), pow-suc 2 k, one-le-pow k 2, bit_and-ones k (r / 2))

-- A mask of the `k` low bits is the remainder by `2 ^ k`.
pub bit_and_low : (k a : ℕ) → bit_and a (2 ^ k - 1) ≡ a % 2 ^ k
bit_and_low k a = ground (
  arith,
  one-le-pow k 2,
  bit_and_split k (a / 2 ^ k) 0 (a % 2 ^ k) (2 ^ k - 1),
  bit_and-zero (a / 2 ^ k),
  bit_and-ones k (a % 2 ^ k),
)

-- A mask whose `k` low bits are clear looks only at the bits above them.
pub bit_and_high : (k a m : ℕ) → bit_and a (m * 2 ^ k) ≡ bit_and (a / 2 ^ k) m * 2 ^ k
bit_and_high k a m =
    ground
      (arith, one-le-pow k 2, bit_and_split k (a / 2 ^ k) m (a % 2 ^ k) 0, bit_and-zero (a % 2 ^ k))

-- A mask misses `a | b` exactly when it misses both.
or_and_upto :
    (n a b m : ℕ)
    → a ≤ n
    → b ≤ n
    → (bit_and (bit_or a b) m ≡ 0) ↔ ((bit_and a m ≡ 0) × (bit_and b m ≡ 0))
or_and_upto zero zero zero m p q = ground (arith, zero-bit_and m, zero-bit_or 0)
or_and_upto zero (suc a) b m p q = absurd (omega arith)
or_and_upto zero zero (suc b) m p q = absurd (omega arith)
or_and_upto (suc n) a b m p q = ground (
  arith,
  bit_or_last a b,
  bit_and_last (bit_or a b) m,
  bit_and_last a m,
  bit_and_last b m,
  or_and_upto n (a / 2) (b / 2) (m / 2),
)

pub bit_or_misses :
    (a b m : ℕ) → (bit_and (bit_or a b) m ≡ 0) ↔ ((bit_and a m ≡ 0) × (bit_and b m ≡ 0))
bit_or_misses a b m = or_and_upto (a + b) a b m (omega arith) (omega arith)
