-- ===== src/Drivers/Bmp/Tests.antt =====
-- An image of one row with two pixels, and the theorems at it.
use longhorn.Base.{◌≡◌, refl, some, none, List, [], ◌∷◌, ◌++◌, arith, pos, replicate}
use longhorn.Drivers.Vesa.{Vesa}
use longhorn.Drivers.Bmp.{
  BmpHeader, BmpInfoHeader, BmpFileHeader, read_bmp_header, draw_bmp_data, bmp_change_color,
  bmp_remove_all,
}
use longhorn.Drivers.Bmp.Header.{file_of, read_bmp_header-file_of}
use longhorn.Drivers.Bmp.Picture.{
  Row, put_rows, no_pixel, next_pixel, AreRows, no_row, next_row, bmp_change_color-recolored,
  bmp_remove_all-blackened,
}
use longhorn.Drivers.Bmp.Draw.{draw_bmp_data-painted}

abbrev first_header : BmpHeader
first_header = record { signature = 19778; file_size = 62; reserved = 0; data_offset = 54 }

abbrev two_wide : BmpInfoHeader
two_wide = record {
  size = 40;
  width = 2;
  height = 1;
  planes = 1;
  bpp = 24;
  compression = 0;
  image_size = 8;
  x_pixels_pm = 2835;
  y_pixels_pm = 2835;
  colors_used = 0;
  important_colors = 0;
}

abbrev no_file : BmpFileHeader
no_file = record { header = first_header; info_header = two_wide; color_table = none; image = none }

abbrev two_file : BmpFileHeader
two_file = record no_file { image = some 1 }

-- A red pixel, a gray one, and the padding.
abbrev red_gray : List Row
red_gray =
    record {
      pixels =
          record { blue = 0; green = 0; red = 255 } ∷ record { blue = 9; green = 9; red = 9 } ∷ [];
      padding = 0 ∷ 0 ∷ [];
    }
    ∷ []

red_gray-AreRows : AreRows 2 2 red_gray
red_gray-AreRows =
    next_row
      (next_pixel (record { blue_byte = omega arith; green_byte = omega arith })
        (next_pixel (record { blue_byte = omega arith; green_byte = omega arith }) no_pixel))
      refl refl no_row

read_bmp_header-file_of_example :
    read_bmp_header (file_of first_header two_wide (0 ∷ 0 ∷ [])) no_file
    ≡ some (pos 57, record no_file { image = some 54 })
read_bmp_header-file_of_example = read_bmp_header-file_of first_header two_wide (0 ∷ 0 ∷ []) no_file

-- Red becomes white, as far as the program goes: blue.
bmp_change_color-recolored_example :
    bmp_change_color two_file 16711680 16777215 ((7 ∷ []) ++ put_rows red_gray (8 ∷ []))
    ≡ some (7 ∷ 255 ∷ 0 ∷ 0 ∷ 9 ∷ 9 ∷ 9 ∷ 0 ∷ 0 ∷ 8 ∷ [])
bmp_change_color-recolored_example =
    bmp_change_color-recolored two_file 16711680 16777215 (7 ∷ []) (8 ∷ []) red_gray refl refl refl
      (omega arith) red_gray-AreRows

bmp_remove_all-blackened_example :
    bmp_remove_all two_file 16711680 ((7 ∷ []) ++ put_rows red_gray (8 ∷ []))
    ≡ some (7 ∷ 0 ∷ 0 ∷ 255 ∷ 0 ∷ 0 ∷ 0 ∷ 0 ∷ 0 ∷ 8 ∷ [])
bmp_remove_all-blackened_example =
    bmp_remove_all-blackened two_file 16711680 (7 ∷ []) (8 ∷ []) red_gray refl refl refl
      (omega arith) red_gray-AreRows

abbrev dark_screen : Vesa
dark_screen = record {
  framebuffer = replicate 12 0;
  font = [];
  width = 4;
  height = 3;
  pitch = 16;
  bpp = 32;
  red_mask = 0;
  green_mask = 0;
  blue_mask = 255;
  num_rows = 0;
  num_cols = 0;
  cursor_x = 0;
  cursor_y = 0;
  cursor_on = 0;
  current_x = 0;
  current_y = 0;
  bg_color = 0;
  fg_color = 16777215;
}

-- The picture lands in row 2 of the screen when it is drawn at row 1.
draw_bmp_data-painted_example :
    draw_bmp_data ((7 ∷ []) ++ put_rows red_gray (8 ∷ [])) two_file 0 1 dark_screen
    ≡ some (record dark_screen { framebuffer = replicate 8 0 ++ 16711680 ∷ 592137 ∷ 0 ∷ 0 ∷ [] })
draw_bmp_data-painted_example =
    draw_bmp_data-painted two_file 0 1 (7 ∷ []) (8 ∷ []) red_gray dark_screen refl refl refl
      (omega arith) red_gray-AreRows (omega arith, omega arith) (omega arith) (omega arith)
      (omega arith) (omega arith)
