-- ===== src/Base/Bits.antt =====
-- The bits of a number, and what `bit_and` and `bit_or` do to them, for every width.
use Prim.Native.Nat.{
  ℕ, zero, suc, ◌+◌, ◌-◌, ◌*◌, ◌/◌, ◌%◌, ◌^◌, ◌≤◌, ◌<◌, min, max, bit_and, bit_or, digits,
  bit_and-bitwise, bit_or-bitwise,
}
use mathlib.Core.Path.{◌≡◌, refl, ap, sym, ◌∙◌}
use native.Mathlib.Omega.{arith}
use native.Mathlib.Nat.{pow-suc, mul_assoc}
use longhorn.Base.Tests.{◌==◌, if◌then◌else◌}

-- Bit `j` of `a`, 0 or 1.
abbrev pub bit : ℕ → ℕ → ℕ
bit a zero = a % 2
bit a (suc j) = bit (a / 2) j

-- The native operations are `digits` run on their first argument; more fuel gives the same.
digits_same :
    (z : ℕ → ℕ) (f : ℕ → ℕ → ℕ) (a b n m : ℕ) → a ≤ n → a ≤ m → digits z f n a b ≡ digits z f m a b
digits_same z f zero b zero zero h k = refl
digits_same z f zero b zero (suc m) h k = refl
digits_same z f zero b (suc n) zero h k = refl
digits_same z f zero b (suc n) (suc m) h k = refl
digits_same z f (suc a) b zero m h k = absurd (omega arith)
digits_same z f (suc a) b (suc n) zero h k = absurd (omega arith)
digits_same z f (suc a) b (suc n) (suc m) h k =
    ap (λ t. t * 2 + f (suc a % 2) (b % 2))
      (digits_same z f (suc a / 2) (b / 2) n m (omega arith) (omega arith))

-- One digit more.
digits_step :
    (z : ℕ → ℕ) (f : ℕ → ℕ → ℕ) (a b : ℕ)
    → digits z f (suc a) (suc a) b
      ≡ digits z f (suc a / 2) (suc a / 2) (b / 2) * 2 + f (suc a % 2) (b % 2)
digits_step z f a b =
    ap (λ t. t * 2 + f (suc a % 2) (b % 2))
      (digits_same z f (suc a / 2) (b / 2) a (suc a / 2) (omega arith) (omega arith))

-- The last digit of `bit_or`, and of `bit_and`.
pub bit_or-last : (x y : ℕ) → bit_or x y ≡ 2 * bit_or (x / 2) (y / 2) + max (x % 2) (y % 2)
bit_or-last zero y = omega (arith, bit_or-bitwise 0 y, bit_or-bitwise 0 (y / 2))
bit_or-last (suc x) y =
    rw (bit_or-bitwise (suc x) y, bit_or-bitwise (suc x / 2) (y / 2))
      (omega (arith, digits_step (λ t. t) max x y))

pub bit_and-last : (x y : ℕ) → bit_and x y ≡ 2 * bit_and (x / 2) (y / 2) + min (x % 2) (y % 2)
bit_and-last zero y = omega (arith, bit_and-bitwise 0 y, bit_and-bitwise 0 (y / 2))
bit_and-last (suc x) y =
    rw (bit_and-bitwise (suc x) y, bit_and-bitwise (suc x / 2) (y / 2))
      (omega (arith, digits_step (λ t. 0) min x y))

half-bit_and : (a b : ℕ) → bit_and a b / 2 ≡ bit_and (a / 2) (b / 2)
half-bit_and a b = omega (arith, bit_and-last a b)

half-bit_or : (a b : ℕ) → bit_or a b / 2 ≡ bit_or (a / 2) (b / 2)
half-bit_or a b = omega (arith, bit_or-last a b)

pub bit-bit_and : (j a b : ℕ) → bit (bit_and a b) j ≡ min (bit a j) (bit b j)
bit-bit_and zero a b = omega (arith, bit_and-last a b)
bit-bit_and (suc j) a b = rw (half-bit_and a b) (bit-bit_and j (a / 2) (b / 2))

pub bit-bit_or : (j a b : ℕ) → bit (bit_or a b) j ≡ max (bit a j) (bit b j)
bit-bit_or zero a b = omega (arith, bit_or-last a b)
bit-bit_or (suc j) a b = rw (half-bit_or a b) (bit-bit_or j (a / 2) (b / 2))

pub bit-le-one : (j a : ℕ) → bit a j ≤ 1
bit-le-one zero a = omega arith
bit-le-one (suc j) a = bit-le-one j (a / 2)

pub bit-zero : (j : ℕ) → bit 0 j ≡ 0
bit-zero zero = refl
bit-zero (suc j) = bit-zero j

half-pow : (k : ℕ) → 2 ^ suc k / 2 ≡ 2 ^ k
half-pow k = omega (arith, pow-suc 2 k)

pub bit-pow : (k j : ℕ) → bit (2 ^ k) j ≡ (if k == j then 1 else 0)
bit-pow zero zero = refl
bit-pow zero (suc j) = ground (arith, bit-zero j)
bit-pow (suc k) zero = ground (arith, pow-suc 2 k)
bit-pow (suc k) (suc j) = ground (arith, half-pow k, bit-pow k j)

-- The complement in `n` bits flips every bit below `n`.
pub bit-complement : (n j a : ℕ) → j < n → a < 2 ^ n → bit (2 ^ n - 1 - a) j ≡ 1 - bit a j
bit-complement zero j a h k = absurd (omega arith)
bit-complement (suc n) zero a h k = omega (arith, pow-suc 2 n)
bit-complement (suc n) (suc j) a h k =
    rw half (bit-complement n j (a / 2) (omega arith) (omega (arith, pow-suc 2 n)))
  where
    half : (2 ^ suc n - 1 - a) / 2 ≡ 2 ^ n - 1 - a / 2
    half = omega (arith, pow-suc 2 n)

pub bit_and-zero : (n a : ℕ) → a ≤ n → bit_and a 0 ≡ 0
bit_and-zero zero zero h = refl
bit_and-zero zero (suc a) h = absurd (omega arith)
bit_and-zero (suc n) a h = grind (arith, bit_and-last a 0, bit_and-zero n (a / 2))

-- Masking by one bit gives that bit's weight, or 0.
pub bit_and-pow : (k a : ℕ) → bit_and a (2 ^ k) ≡ bit a k * 2 ^ k
bit_and-pow zero a = omega (arith, bit_and-last a 1, bit_and-zero (a / 2) (a / 2) (omega arith))
bit_and-pow (suc k) a = omega (
  arith,
  pow-suc 2 k,
  bit_and-last a (2 ^ suc k),
  ap (bit_and (a / 2)) (half-pow k),
  bit_and-pow k (a / 2),
  ap (λ (t : ℕ). bit (a / 2) k * t) (pow-suc 2 k),
)

-- `bit_or` and `bit_and` stay within a width.
pub bit_or-lt : (n a b : ℕ) → a < 2 ^ n → b < 2 ^ n → bit_or a b < 2 ^ n
bit_or-lt zero a b h k = ground (arith, bit_or-bitwise a b)
bit_or-lt (suc n) a b h k = omega (
  arith,
  pow-suc 2 n,
  bit_or-last a b,
  bit_or-lt n (a / 2) (b / 2) (omega (arith, pow-suc 2 n)) (omega (arith, pow-suc 2 n)),
)

pub bit_and-le : (n a b : ℕ) → a ≤ n → bit_and a b ≤ a
bit_and-le zero zero b h = omega (arith, bit_and-bitwise 0 b)
bit_and-le zero (suc a) b h = absurd (omega arith)
bit_and-le (suc n) zero b h = omega (arith, bit_and-bitwise 0 b)
bit_and-le (suc n) (suc a) b h =
    omega (arith, bit_and-last (suc a) b, bit_and-le n (suc a / 2) (b / 2) (omega arith))

pub pow-pos : (k : ℕ) → 0 < 2 ^ k
pow-pos zero = omega arith
pow-pos (suc k) = omega (arith, pow-suc 2 k, pow-pos k)

pub pow-lt : (k n : ℕ) → k < n → 2 ^ k < 2 ^ n
pow-lt k zero h = absurd (omega arith)
pow-lt zero (suc n) h = omega (arith, pow-suc 2 n, pow-pos n)
pow-lt (suc k) (suc n) h = omega (arith, pow-suc 2 n, pow-suc 2 k, pow-lt k n (omega arith))

double-pow : (b k : ℕ) → b * 2 ^ suc k ≡ b * 2 ^ k * 2
double-pow b k = ap (λ (t : ℕ). b * t) (pow-suc 2 k) ∙ sym (mul_assoc b (2 ^ k) 2)

-- Numbers without a common bit are added.
pub bit_or-shift : (k a b : ℕ) → a < 2 ^ k → bit_or a (b * 2 ^ k) ≡ a + b * 2 ^ k
bit_or-shift zero zero b h = omega (arith, bit_or-bitwise 0 (b * 2 ^ 0))
bit_or-shift zero (suc a) b h = absurd (omega arith)
bit_or-shift (suc k) a b h =
    let half : b * 2 ^ suc k / 2 ≡ b * 2 ^ k = omega (arith, double-pow b k) in
    omega (
      arith,
      double-pow b k,
      bit_or-last a (b * 2 ^ suc k),
      ap (bit_or (a / 2)) half,
      bit_or-shift k (a / 2) b (omega (arith, pow-suc 2 k)),
    )

-- A mask without the lowest `k` bits leaves a multiple of `2 ^ k`.
pub bit_and-shift : (k a b : ℕ) → (c : ℕ) × (bit_and a (b * 2 ^ k) ≡ c * 2 ^ k)
bit_and-shift zero a b = (bit_and a b, ap (bit_and a) {y = b} (omega arith) ∙ omega arith)
bit_and-shift (suc k) a b =
    let (c, e) = bit_and-shift k (a / 2) b in
    let half : b * 2 ^ suc k / 2 ≡ b * 2 ^ k = omega (arith, double-pow b k) in
    (
      c,
      omega (
        arith,
        double-pow b k,
        double-pow c k,
        bit_and-last a (b * 2 ^ suc k),
        ap (bit_and (a / 2)) half,
        e,
      ),
    )

bit_and-odd : (a m : ℕ) → bit_and a (2 * m + 1) ≡ 2 * bit_and (a / 2) m + a % 2
bit_and-odd a m = omega (
  arith,
  bit_and-last a (2 * m + 1),
  ap (bit_and (a / 2)) {x = (2 * m + 1) / 2} {y = m} (omega arith),
)

-- The mask of the lowest byte.
pub bit_and-byte : (a : ℕ) → bit_and a 255 ≡ a % 256
bit_and-byte a = omega (
  arith,
  bit_and-odd a 127,
  bit_and-odd (a / 2) 63,
  bit_and-odd (a / 2 / 2) 31,
  bit_and-odd (a / 2 / 2 / 2) 15,
  bit_and-odd (a / 2 / 2 / 2 / 2) 7,
  bit_and-odd (a / 2 / 2 / 2 / 2 / 2) 3,
  bit_and-odd (a / 2 / 2 / 2 / 2 / 2 / 2) 1,
  bit_and-odd (a / 2 / 2 / 2 / 2 / 2 / 2 / 2) 0,
  bit_and-zero (a / 2 / 2 / 2 / 2 / 2 / 2 / 2 / 2) (a / 2 / 2 / 2 / 2 / 2 / 2 / 2 / 2)
      (omega arith),
)
