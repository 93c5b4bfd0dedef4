-- ===== src/Libk/Bitmap/Tests.antt =====
-- A map of 64 bits over two elements, and the theorems at it. Bits 0, 1 and 33 are set.
use longhorn.Base.{ℕ, ◌≡◌, refl, true, false, some, none, [], ◌∷◌, arith}
use longhorn.Libk.Bitmap.{
  Bitmap, bitmap_init_s, bitmap_test, bitmap_set_range, bitmap_find_range, bitmap_set_all,
  fill_from, num_elems,
}
use longhorn.Libk.Bitmap.Range.{IsRangeSet, bitmap_set_range-IsRangeSet}
use longhorn.Libk.Bitmap.Find.{Found, bitmap_find_range-Found}

abbrev small : Bitmap
small = record { map_p = 3 ∷ 2 ∷ []; bits = 64 }

abbrev roomy : Bitmap
roomy = record { map_p = 3 ∷ 2 ∷ 7 ∷ 7 ∷ []; bits = 64 }

bitmap_set_range_example :
    (m' : Bitmap) × (bitmap_set_range small 30 5 true ≡ some (35, m'))
    × IsRangeSet small m' 30 35 true
bitmap_set_range_example = bitmap_set_range-IsRangeSet small 30 5 true (omega arith) (omega arith)

bitmap_find_range_example :
    (r : ℕ) × (bitmap_find_range small 0 64 4 false ≡ some r) × Found small 0 64 4 false r
bitmap_find_range_example =
    bitmap_find_range-Found small 0 64 4 false (omega arith) (omega arith) (omega arith)
      (omega arith)

set_all_run : bitmap_set_all small true ≡ none
unfolding bitmap_set_all fill_from num_elems
set_all_run = refl

found_run : bitmap_find_range (bitmap_init_s (3 ∷ 2 ∷ []) 64) 0 64 4 false ≡ some 2
unfolding bitmap_find_range bitmap_test bitmap_init_s
found_run = refl

not_found_run : bitmap_find_range small 0 64 32 false ≡ some 65
unfolding bitmap_find_range bitmap_test
not_found_run = refl
