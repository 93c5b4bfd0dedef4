-- ===== src/Libk/Bitmap/Element.antt =====
-- libk/bitmap.c: bitmap_set, bitmap_reset, bitmap_test and bitmap_set_val on one bit.
use longhorn.Base.{
  ℕ, ◌-◌, ◌*◌, ◌/◌, ◌%◌, ◌^◌, ◌<◌, ◌≤◌, ◌≡◌, refl, Bool, true, false, some, ◌==◌, if◌then◌else◌,
  arith, get_or, set, length, get_elem?-eq-get_or, get_or-set, length-set, bit, bit-bit_and,
  bit-bit_or, bit-pow, bit-complement, bit_and-pow, bit-le-one, pow-pos, pow-lt, bit_or, bit_and,
}
use longhorn.Libk.Bitmap.{Bitmap, bitmap_test, bitmap_set_val}

-- Bit `j` of the map.
abbrev pub holds : Bitmap → ℕ → Bool
holds m j = bit (get_or m.map_p (j / 32) 0) (j % 32) == 1

-- The map's memory holds the bits below `n`.
abbrev pub Fits : Bitmap → ℕ → Type 0
Fits m n = n ≤ 32 * length m.map_p

-- The map with one bit changed.
abbrev pub with_bit : Bitmap → ℕ → Bool → Bitmap
with_bit m i v = record m {
  map_p = set m.map_p (i / 32) (
      if v
      then bit_or (get_or m.map_p (i / 32) 0) (2 ^ (i % 32))
      else bit_and (get_or m.map_p (i / 32) 0) (2 ^ 32 - 1 - 2 ^ (i % 32)));
}

bit-or_mask : (e k j : ℕ) → bit (bit_or e (2 ^ k)) j ≡ (if k == j then 1 else bit e j)
bit-or_mask e k j = ground (arith, bit-bit_or j e (2 ^ k), bit-pow k j, bit-le-one j e)

bit-and_mask :
    (e k j : ℕ)
    → k < 32
    → j < 32
    → bit (bit_and e (2 ^ 32 - 1 - 2 ^ k)) j ≡ (if k == j then 0 else bit e j)
bit-and_mask e k j hk hj = ground (
  arith,
  bit-bit_and j e (2 ^ 32 - 1 - 2 ^ k),
  bit-complement 32 j (2 ^ k) hj (pow-lt k 32 hk),
  bit-pow k j,
  bit-le-one j e,
)

-- bitmap_test reads the bit.
pub bitmap_test-holds :
    (m : Bitmap) (j : ℕ) → j < 32 * length m.map_p → bitmap_test m j ≡ some (holds m j)
unfolding bitmap_test
bitmap_test-holds m j h = ground (
  arith,
  get_elem?-eq-get_or m.map_p (j / 32) 0,
  bit_and-pow (j % 32) (get_or m.map_p (j / 32) 0),
  bit-le-one (j % 32) (get_or m.map_p (j / 32) 0),
  pow-pos (j % 32),
)

-- bitmap_set_val stays in the map's memory.
pub bitmap_set_val-with_bit :
    (m : Bitmap) (i : ℕ) (v : Bool)
    → i < 32 * length m.map_p
    → bitmap_set_val m i v ≡ some (with_bit m i v)
unfolding bitmap_set_val
bitmap_set_val-with_bit m i v h = ground (arith, get_elem?-eq-get_or m.map_p (i / 32) 0)

-- A changed bit reads as it was written, and the others as before.
pub holds-with_bit :
    (m : Bitmap) (i j : ℕ) (v : Bool)
    → i < 32 * length m.map_p
    → holds (with_bit m i v) j ≡ (if i == j then v else holds m j)
holds-with_bit m i j true h = ground (
  arith,
  get_or-set m.map_p (i / 32) (j / 32) (bit_or (get_or m.map_p (i / 32) 0) (2 ^ (i % 32))) 0,
  bit-or_mask (get_or m.map_p (i / 32) 0) (i % 32) (j % 32),
)
holds-with_bit m i j false h = ground (
  arith,
  get_or-set m.map_p (i / 32) (j / 32)
      (bit_and (get_or m.map_p (i / 32) 0) (2 ^ 32 - 1 - 2 ^ (i % 32))) 0,
  bit-and_mask (get_or m.map_p (i / 32) 0) (i % 32) (j % 32),
)

-- bitmap_set_val succeeds within the map's memory, and bitmap_test then reads the value at that
-- bit and what it read before at every other.
pub bitmap_set_val_lem :
    (m : Bitmap) (i : ℕ) (v : Bool)
    → i < 32 * length m.map_p
    → (m' : Bitmap) × (bitmap_set_val m i v ≡ some m')
      × (m'.bits ≡ m.bits)
      × (length m'.map_p ≡ length m.map_p)
      × ((j : ℕ)
          → j < 32 * length m.map_p
          → bitmap_test m' j ≡ some (if i == j then v else holds m j))
bitmap_set_val_lem m i v h = (
  with_bit m i v,
  bitmap_set_val-with_bit m i v h,
  refl,
  keep,
  λ j k. ground (arith, bitmap_test-holds (with_bit m i v) j, holds-with_bit m i j v, keep),
)
  where
    keep : length (with_bit m i v).map_p ≡ length m.map_p
    keep = length-set m.map_p _ _
