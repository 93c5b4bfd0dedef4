-- ===== src/Drivers/Bmp.antt =====
-- drivers/bmp.c and drivers/bmp.h: images in memory. A file is the bytes from its pointer on; `data` is
-- the place of the pixels in them, and NULL is none. An access behind the bytes is `none`.
pub mod Header
pub mod Pixels
pub mod Picture
pub mod Paint
pub mod Draw
mod Tests
use longhorn.Base.{
  ℕ, zero, suc, ◌+◌, ◌-◌, ◌*◌, ◌/◌, ◌%◌, ◌^◌, Bool, true, false, not, ◌&&◌, ltb, leb, Option, none,
  some, List, [], ◌∷◌, ◌==◌, if◌then◌else◌, ◌>>=◌, ℤ, pos, neg, get_elem?, store, add_u32, mul_u32,
  bit_and, bit_or,
}
use longhorn.Libk.Stream.{StdStream, std_stream_size, put_std}
use longhorn.Drivers.Vesa.{Vesa, vesa_draw}

pub record BmpHeader : Type 0 where
  pub signature : ℕ
  pub file_size : ℕ
  pub reserved : ℕ
  pub data_offset : ℕ

pub record BmpInfoHeader : Type 0 where
  pub size : ℕ
  pub width : ℕ
  pub height : ℕ
  pub planes : ℕ
  pub bpp : ℕ
  pub compression : ℕ
  pub image_size : ℕ
  pub x_pixels_pm : ℕ
  pub y_pixels_pm : ℕ
  pub colors_used : ℕ
  pub important_colors : ℕ

pub record BmpFileHeader : Type 0 where
  pub header : BmpHeader
  pub info_header : BmpInfoHeader
  pub color_table : Option ℕ
  pub image : Option ℕ

-- HEADER_SIZE and HEADER_INFO_SIZE: the compiler aligns `file_size` to 4 bytes.
abbrev pub header_size : ℕ
header_size = 16

abbrev pub header_info_size : ℕ
header_info_size = 40

-- `*((uint16_t *) file)` and `*((uint32_t *) file)` on this little-endian machine.
unfoldable pub get_u16 : List ℕ → ℕ → Option ℕ
get_u16 file p = do lo ← get_elem? file p; hi ← get_elem? file (p + 1); some (lo + 256 * hi)

unfoldable pub get_u32 : List ℕ → ℕ → Option ℕ
unfolding get_u16
get_u32 file p = do lo ← get_u16 file p; hi ← get_u16 file (p + 2); some (lo + 65536 * hi)

unfoldable pub read_first : List ℕ → BmpHeader → Option BmpHeader
unfolding get_u16 get_u32
read_first file h = do
  signature ← get_u16 file 0
  file_size ← get_u32 file 2
  data_offset ← get_u32 file 10
  some (record h { signature = signature; file_size = file_size; data_offset = data_offset })

unfoldable pub read_info : List ℕ → Option BmpInfoHeader
unfolding get_u16 get_u32
read_info file = do
  size ← get_u32 file 14
  width ← get_u32 file 18
  height ← get_u32 file 22
  planes ← get_u16 file 26
  bpp ← get_u16 file 28
  compression ← get_u32 file 30
  image_size ← get_u32 file 34
  x_pixels_pm ← get_u32 file 38
  y_pixels_pm ← get_u32 file 42
  colors_used ← get_u32 file 46
  important_colors ← get_u32 file 50
  some (record {
    size = size;
    width = width;
    height = height;
    planes = planes;
    bpp = bpp;
    compression = compression;
    image_size = image_size;
    x_pixels_pm = x_pixels_pm;
    y_pixels_pm = y_pixels_pm;
    colors_used = colors_used;
    important_colors = important_colors;
  })

unfoldable pub read_bmp_header : List ℕ → BmpFileHeader → Option (ℤ × BmpFileHeader)
unfolding read_first read_info
read_bmp_header file buf = do
  h ← read_first file buf.header
  if ltb h.file_size (header_size + header_info_size)
      then some (neg 1, record buf { header = h; image = none })
      else (do
        info ← read_info file
        if ltb info.bpp 24
            then some (neg 1, record buf { header = h; info_header = info; image = none })
            else some (
              pos (header_size + header_info_size + 1),
              record buf { header = h; info_header = info; color_table = none; image = some 54 },
            ))

-- The two static variables of read_bmp_data.
pub record ReadState : Type 0 where
  pub start_pos : Option ℕ
  pub img_size : ℕ

abbrev pub image_bits : BmpInfoHeader → ℕ
image_bits info = mul_u32 (mul_u32 info.width info.height) info.bpp

-- `header->data - start_pos < (int) img_size`, where an `img_size` from 2 ^ 31 on is negative.
abbrev pub is_before_end : ℕ → ℕ → ℕ → Bool
is_before_end p start img_size =
    if ltb img_size (2 ^ 31) then ltb p (start + img_size) else ltb (p + 2 ^ 32) (start + img_size)

-- `for (i = 0; i < STD_STREAM_SIZE && ...; i++)` at the pointer `p`, with the rounds left; the result of
-- put_std is dropped.
unfoldable pub read_from : List ℕ → ℕ → ℕ → ℕ → ℕ → ℕ → StdStream → Option (ℕ × (ℕ × StdStream))
unfolding put_std
read_from file start img_size num_read p zero s = some (num_read, (p, s))
read_from file start img_size num_read p (suc rounds) s =
    if is_before_end p start img_size
    then (do
      c ← get_elem? file p
      (_, s') ← put_std s c
      read_from file start img_size (num_read + 1) (p + 1) rounds s')
    else some (num_read, (p, s))

-- `if (start_pos == NULL)`
unfoldable pub start_read : BmpInfoHeader → ℕ → ReadState → ℕ × ℕ
start_read info image st = elim st.start_pos [
  | none ↦ (image, image_bits info)
  | some start ↦ (start, st.img_size)
]

-- One call, for a `header->data` that is not NULL, whose value behind the call comes back.
unfoldable pub read_bmp_data :
    List ℕ → BmpInfoHeader → ℕ → ReadState → StdStream → Option (ℕ × (ℕ × (ReadState × StdStream)))
unfolding read_from start_read
read_bmp_data file info image st s = do
  let (start, img_size) = start_read info image st
  (num_read, (p, s')) ← read_from file start img_size 0 image std_stream_size s
  some (
      if ltb num_read std_stream_size
      then (num_read, (start, (record { start_pos = none; img_size = img_size }, s')))
      else (num_read, (p, (record { start_pos = some start; img_size = img_size }, s'))))

-- The bytes of a pixel as a 24 bit color.
unfoldable pub read_pixel : List ℕ → ℕ → Option ℕ
read_pixel file p = do
  blue ← get_elem? file p
  green ← get_elem? file (p + 1)
  red ← get_elem? file (p + 2)
  some (bit_or (bit_or blue (green * 2 ^ 8)) (red * 2 ^ 16))

unfoldable pub write_pixel : ℕ → ℕ → ℕ → List ℕ → ℕ → Option (List ℕ)
write_pixel blue green red file p = do
  file₁ ← store file p blue
  file₂ ← store file₁ (p + 1) green
  store file₂ (p + 2) red

-- `pixel += 4 - (width * (bpp / 8)) % 4` at the end of a row.
abbrev pub row_padding : BmpInfoHeader → ℕ
row_padding info = 4 - mul_u32 info.width (info.bpp / 8) % 4

-- The loops over the columns and the rows that the three functions share, with the rounds left: `step`
-- is the body at column `j` and row `i`, and the pointer comes back.
module _ {A : Type 0} (step : ℕ → ℕ → ℕ → A → Option A) where
  unfoldable pub over_cols : ℕ → ℕ → ℕ → ℕ → A → Option (ℕ × A)
  over_cols i j zero p a = some (p, a)
  over_cols i j (suc rounds) p a = do a' ← step i j p a; over_cols i (j + 1) rounds (p + 3) a'

  unfoldable pub over_rows : ℕ → ℕ → ℕ → ℕ → A → Option A
  unfolding over_cols
  over_rows width padding zero p a = some a
  over_rows width padding (suc i) p a = do
    (p', a') ← over_cols (suc i) 0 width p a
    over_rows width padding i (p' + padding) a'

unfoldable pub draw_bmp_data : List ℕ → BmpFileHeader → ℕ → ℕ → Vesa → Option Vesa
unfolding read_pixel vesa_draw over_rows
draw_bmp_data file b x y screen = elim b.image [
  | none ↦ some screen
  | some p ↦
      over_rows (λ i j p v. do col ← read_pixel file p; vesa_draw (add_u32 x j) (add_u32 y i) col v)
        b.info_header.width (row_padding b.info_header) b.info_header.height p screen
]

unfoldable pub change_pixel : ℕ → ℕ → ℕ → List ℕ → Option (List ℕ)
unfolding read_pixel write_pixel
change_pixel old new p file = do
  col ← read_pixel file p
  if col == old
      then write_pixel (bit_and new 255 % 256) (bit_and new (255 * 2 ^ 8) % 256)
          (bit_and new (255 * 2 ^ 16) % 256) file p
      else some file

unfoldable pub bmp_change_color : BmpFileHeader → ℕ → ℕ → List ℕ → Option (List ℕ)
unfolding change_pixel over_rows
bmp_change_color b old new file = elim b.image [
  | none ↦ some file
  | some p ↦
      over_rows (λ i j. change_pixel old new) b.info_header.width (row_padding b.info_header)
        b.info_header.height p file
]

unfoldable pub remove_pixel : ℕ → ℕ → List ℕ → Option (List ℕ)
unfolding read_pixel write_pixel
remove_pixel color p file = do
  col ← read_pixel file p
  if col == color then some file else write_pixel 0 0 0 file p

unfoldable pub bmp_remove_all : BmpFileHeader → ℕ → List ℕ → Option (List ℕ)
unfolding remove_pixel over_rows
bmp_remove_all b color file = elim b.image [
  | none ↦ some file
  | some p ↦
      over_rows (λ i j. remove_pixel color) b.info_header.width (row_padding b.info_header)
        b.info_header.height p file
]
