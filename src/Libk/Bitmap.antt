-- ===== src/Libk/Bitmap.antt =====
-- libk/bitmap.c and include/libk/bitmap.h: a map of bits in an array of 32-bit elements.
-- `map_p` is the memory from the map's address on. An access outside it is `none`.
pub mod Element
pub mod Range
pub mod Count
pub mod Find
pub mod Size
mod Tests
use longhorn.Base.{
  ℕ, zero, suc, ◌+◌, ◌-◌, ◌*◌, ◌/◌, ◌%◌, ◌^◌, Bool, true, false, not, Option, none, some, List,
  ◌==◌, ltb, bool_eq, if◌then◌else◌, ◌>>=◌, get_elem?, set, length, add_u32, sub_u32, mul_u32,
  bit_and, bit_or,
}

pub record Bitmap : Type 0 where
  pub map_p : List ℕ
  pub bits : ℕ

-- ELEM_BITS and ELEM_SIZE
abbrev pub elem_bits : ℕ
elem_bits = 32

abbrev pub elem_size : ℕ
elem_size = 4

-- `1 << (idx % ELEM_BITS)` in the 32 bits of an element.
abbrev pub bit_mask : ℕ → ℕ
bit_mask idx = 2 ^ (idx % elem_bits)

-- `~x` on an element.
abbrev pub complement : ℕ → ℕ
complement x = 2 ^ 32 - 1 - x

abbrev pub elem_idx : ℕ → ℕ
elem_idx map_idx = map_idx / elem_bits

unfoldable pub num_elems : ℕ → ℕ
num_elems num_bits = add_u32 num_bits (sub_u32 num_bits (num_bits % elem_bits)) / elem_bits

pub num_bytes : ℕ → ℕ
unfolding num_elems
num_bytes num_bits = mul_u32 elem_size (num_elems num_bits)

-- `mem` is the page that palloc returned.
pub bitmap_init : List ℕ → ℕ → Bitmap
bitmap_init mem bits = record { map_p = mem; bits = bits }

unfoldable pub bitmap_init_s : List ℕ → ℕ → Bitmap
bitmap_init_s map_p bits = record { map_p = map_p; bits = bits }

abbrev pub store : Bitmap → ℕ → ℕ → Option Bitmap
store m i e = if ltb i (length m.map_p) then some (record m { map_p = set m.map_p i e }) else none

unfoldable pub bitmap_set : Bitmap → ℕ → Option Bitmap
bitmap_set m idx = do
  e ← get_elem? m.map_p (elem_idx idx)
  store m (elem_idx idx) (bit_or e (bit_mask idx))

unfoldable pub bitmap_reset : Bitmap → ℕ → Option Bitmap
bitmap_reset m idx = do
  e ← get_elem? m.map_p (elem_idx idx)
  store m (elem_idx idx) (bit_and e (complement (bit_mask idx)))

unfoldable pub bitmap_test : Bitmap → ℕ → Option Bool
bitmap_test m idx = do
  e ← get_elem? m.map_p (elem_idx idx)
  some (not (bit_and e (bit_mask idx) == 0))

unfoldable pub bitmap_set_val : Bitmap → ℕ → Bool → Option Bitmap
unfolding bitmap_set bitmap_reset
bitmap_set_val m idx val = if val then bitmap_set m idx else bitmap_reset m idx

-- `for (i = 0; i < num_elems(m->bits); i++) m->map_p[i] = new_val`, with the rounds left.
unfoldable pub fill_from : ℕ → ℕ → ℕ → Bitmap → Option Bitmap
fill_from i zero new_val m = some m
fill_from i (suc rounds) new_val m = do m' ← store m i new_val; fill_from (i + 1) rounds new_val m'

unfoldable pub bitmap_set_all : Bitmap → Bool → Option Bitmap
unfolding num_elems fill_from
bitmap_set_all m val = fill_from 0 (num_elems m.bits) (if val then complement 0 else 0) m

-- How often `for (i = start; i < start + len; i++)` runs: the sum wraps round, and is then below
-- `start`. The index stays below the sum, so `i++` does not wrap.
abbrev pub rounds_of : ℕ → ℕ → ℕ
rounds_of start len = add_u32 start len - start

unfoldable pub set_from : ℕ → ℕ → Bool → Bitmap → Option (ℕ × Bitmap)
set_from i zero val m = some (i, m)
set_from i (suc rounds) val m = do m' ← bitmap_set_val m i val; set_from (i + 1) rounds val m'

-- The result is the index at which the loop ends.
unfoldable pub bitmap_set_range : Bitmap → ℕ → ℕ → Bool → Option (ℕ × Bitmap)
unfolding set_from
bitmap_set_range m start len val = set_from start (rounds_of start len) val m

-- `cnt` counts rounds, so `cnt++` does not wrap.
unfoldable pub count_from : ℕ → ℕ → ℕ → Bitmap → Option ℕ
count_from i zero cnt m = some cnt
count_from i (suc rounds) cnt m = do
  is_set ← bitmap_test m i
  count_from (i + 1) rounds (if is_set then cnt + 1 else cnt) m

unfoldable pub bitmap_count_range : Bitmap → ℕ → ℕ → Option ℕ
unfolding count_from
bitmap_count_range m start len = count_from start (rounds_of start len) 0 m

unfoldable pub find_from : ℕ → ℕ → ℕ → ℕ → ℕ → Bool → Bitmap → Option ℕ
find_from i zero begin cnt count val m = some (add_u32 m.bits 1)
find_from i (suc rounds) begin cnt count val m = do
  is_set ← bitmap_test m i
  let cnt' = if bool_eq is_set val then cnt + 1 else 0
  let begin' = if bool_eq is_set val then begin else i + 1
  let rest = find_from (i + 1) rounds begin' cnt' count val m
  if cnt' == count then some begin' else rest

unfoldable pub bitmap_find_range : Bitmap → ℕ → ℕ → ℕ → Bool → Option ℕ
unfolding find_from
bitmap_find_range m start len count val = find_from start (rounds_of start len) start 0 count val m

unfoldable pub bitmap_get_size : Bitmap → ℕ
bitmap_get_size m = m.bits
