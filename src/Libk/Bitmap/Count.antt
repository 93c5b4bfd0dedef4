-- ===== src/Libk/Bitmap/Count.antt =====
-- libk/bitmap.c: bitmap_count_range.
use longhorn.Base.{ℕ, zero, suc, ◌+◌, ◌^◌, ◌<◌, ◌≤◌, ◌≡◌, refl, true, some, if◌then◌else◌, arith}
use native.Mathlib.Decide.{ℕ_discrete}
use longhorn.Libk.Bitmap.{Bitmap, count_from, bitmap_count_range, rounds_of}
use longhorn.Libk.Bitmap.Element.{holds, Fits, bitmap_test-holds}

-- How many of the `n` bits from `i` on are set.
abbrev pub set_bits : Bitmap → ℕ → ℕ → ℕ
set_bits m i zero = 0
set_bits m i (suc n) = (if holds m i then 1 else 0) + set_bits m (i + 1) n

count_from_lem :
    (i rounds cnt : ℕ) (m : Bitmap)
    → Fits m (i + rounds)
    → count_from i rounds cnt m ≡ some (cnt + set_bits m i rounds)
unfolding count_from
count_from_lem i zero cnt m h = ground arith
count_from_lem i (suc rounds) cnt m h = ground (
  arith,
  bitmap_test-holds m i,
  count_from_lem (i + 1) rounds (if holds m i then cnt + 1 else cnt) m,
)

-- For a range within the map's memory and below 2^32, bitmap_count_range returns how many bits of
-- [start, start + len) are set.
pub bitmap_count_range-set_bits :
    (m : Bitmap) (start len : ℕ)
    → start + len < 2 ^ 32
    → Fits m (start + len)
    → bitmap_count_range m start len ≡ some (set_bits m start len)
unfolding bitmap_count_range
bitmap_count_range-set_bits m start len h k =
    let exact : rounds_of start len ≡ len = omega arith in
    rw exact (ground (arith, count_from_lem start len 0 m))

pub set_bits-le : (m : Bitmap) (i n : ℕ) → set_bits m i n ≤ n
set_bits-le m i zero = omega arith
set_bits-le m i (suc n) = ground (arith, set_bits-le m (i + 1) n)

pub Run_of_set_bits :
    (m : Bitmap) (i n : ℕ) → set_bits m i n ≡ n → (k : ℕ) → i ≤ k → k < i + n → holds m k ≡ true
Run_of_set_bits m i zero e k lo hi = absurd (omega arith)
Run_of_set_bits m i (suc n) e k lo hi = elim (ℕ_discrete i k) [
  | yes p ↦ ground (arith, set_bits-le m (i + 1) n)
  | no p ↦
      let rest : set_bits m (i + 1) n ≡ n = ground (arith, set_bits-le m (i + 1) n) in
      Run_of_set_bits m (i + 1) n rest k (omega arith) (omega arith)
]

pub set_bits_of_Run :
    (m : Bitmap) (i n : ℕ) → ((k : ℕ) → i ≤ k → k < i + n → holds m k ≡ true) → set_bits m i n ≡ n
set_bits_of_Run m i zero r = refl
set_bits_of_Run m i (suc n) r = ground (
  arith,
  r i (omega arith) (omega arith),
  set_bits_of_Run m (i + 1) n (λ k lo hi. r k (omega arith) (omega arith)),
)
