-- ===== src/Libk/Bitmap/Range.antt =====
-- libk/bitmap.c: bitmap_set_range.
use longhorn.Base.{
  ℕ, zero, suc, ◌+◌, ◌^◌, ◌<◌, ◌≡◌, refl, Bool, some, leb, ltb, ◌&&◌, if◌then◌else◌, arith, length,
  length-set, ◌∙◌,
}
use longhorn.Libk.Bitmap.{Bitmap, set_from, bitmap_set_range, rounds_of}
use longhorn.Libk.Bitmap.Element.{holds, Fits, with_bit, bitmap_set_val-with_bit, holds-with_bit}

-- `m'` is `m` with the bits from `start` to `end` set to `val`.
pub record IsRangeSet (m m' : Bitmap) (start end : ℕ) (val : Bool) : Type 0 where
  pub same_bits : m'.bits ≡ m.bits
  pub same_size : length m'.map_p ≡ length m.map_p
  pub reads : (j : ℕ) → holds m' j ≡ (if leb start j && ltb j end then val else holds m j)

set_from_lem :
    (i rounds : ℕ) (val : Bool) (m : Bitmap)
    → Fits m (i + rounds)
    → (m' : Bitmap) × (set_from i rounds val m ≡ some (i + rounds, m'))
      × IsRangeSet m m' i (i + rounds) val
unfolding set_from
set_from_lem i zero val m h =
    (m, ground arith, record { same_bits = refl; same_size = refl; reads = λ j. ground arith })
set_from_lem i (suc rounds) val m h =
    let (m', run, done) =
      set_from_lem (i + 1) rounds val (with_bit m i val) (omega (arith, keep)) in
    (
      m',
      ground (arith, run, bitmap_set_val-with_bit m i val),
      record {
        same_bits = done.same_bits;
        same_size = done.same_size ∙ keep;
        reads = λ j. ground (arith, done.reads j, holds-with_bit m i j val);
      },
    )
  where
    keep : length (with_bit m i val).map_p ≡ length m.map_p
    keep = length-set m.map_p _ _

-- For a range within the map's memory and below 2^32, bitmap_set_range sets the bits of [start,
-- start + len) and no other, and returns start + len.
pub bitmap_set_range-IsRangeSet :
    (m : Bitmap) (start len : ℕ) (val : Bool)
    → start + len < 2 ^ 32
    → Fits m (start + len)
    → (m' : Bitmap) × (bitmap_set_range m start len val ≡ some (start + len, m'))
      × IsRangeSet m m' start (start + len) val
unfolding bitmap_set_range
bitmap_set_range-IsRangeSet m start len val h k =
    let exact : rounds_of start len ≡ len = omega arith in rw exact (set_from_lem start len val m k)
