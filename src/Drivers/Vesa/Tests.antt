-- ===== src/Drivers/Vesa/Tests.antt =====
-- A screen of two lines of five characters, and the theorems at it.
use longhorn.Base.{
  ℕ, ◌+◌, ◌-◌, ◌*◌, ◌<◌, ◌≡◌, ◌≢◌, refl, some, none, List, [], ◌∷◌, arith, if◌then◌else◌, get_or,
  length, replicate, length-replicate,
}
use longhorn.Drivers.Vesa.{Vesa, is_set, vesa_print, vesa_print_char, vesa_print_backspace, scroll}
use longhorn.Drivers.Vesa.Cursor.{IsScreen}
use longhorn.Drivers.Vesa.Lines.{scroll-overrun}
use longhorn.Drivers.Vesa.Print.{done, more, vesa_print-IsScreen, vesa_print_char-glyph}
use longhorn.Drivers.Vesa.Backspace.{vesa_print_backspace_lem}

abbrev pixels : List ℕ
pixels = replicate 2000 0

abbrev glyphs : List ℕ
glyphs = replicate 4096 1

length-pixels : length pixels ≡ 2000
length-pixels = length-replicate {A = ℕ} 2000 0

length-glyphs : length glyphs ≡ 4096
length-glyphs = length-replicate {A = ℕ} 4096 1

abbrev small_screen : Vesa
small_screen = record {
  framebuffer = pixels;
  font = glyphs;
  width = 40;
  height = 32;
  pitch = 160;
  bpp = 32;
  red_mask = 0;
  green_mask = 0;
  blue_mask = 255;
  num_rows = 2;
  num_cols = 5;
  cursor_x = 0;
  cursor_y = 0;
  cursor_on = 1;
  current_x = 0;
  current_y = 0;
  bg_color = 0;
  fg_color = 16777215;
}

small_screen-IsScreen : IsScreen small_screen
small_screen-IsScreen = (
  record {
    some_cols = omega arith;
    some_rows = omega arith;
    cols_fit = omega arith;
    rows_fit = omega arith;
    has_font = length-glyphs;
    has_memory = omega (arith, length-pixels);
    small = omega (arith, length-pixels);
    width_small = omega arith;
    height_small = omega arith;
  },
  record { in_cols = omega arith; in_rows = omega arith; at_x = refl; at_y = refl },
)

-- An "a", a tab, and a newline.
vesa_print-IsScreen_example :
    (s' : Vesa) × (vesa_print (97 ∷ 9 ∷ 10 ∷ 0 ∷ []) small_screen ≡ some s') × IsScreen s'
vesa_print-IsScreen_example =
    vesa_print-IsScreen (97 ∷ 9 ∷ 10 ∷ 0 ∷ []) small_screen
      (more (omega arith) (omega arith)
        (more (omega arith) (omega arith) (more (omega arith) (omega arith) done)))
      small_screen-IsScreen

vesa_print_backspace_lem_example :
    (fb : List ℕ) × (on : ℕ) × (vesa_print_backspace small_screen
      ≡ some (record small_screen {
        framebuffer = fb;
        cursor_on = on;
        current_x = 8 * (0 - 1);
        cursor_x = 0 - 1;
        current_y = 16 * 1;
        cursor_y = 1;
      }))
    × (length fb ≡ length pixels)
vesa_print_backspace_lem_example =
    vesa_print_backspace_lem small_screen small_screen-IsScreen (omega arith)

vesa_print_char-glyph_example :
    (fb : List ℕ) × (vesa_print_char 97 small_screen
      ≡ some (record small_screen { framebuffer = fb; current_x = 0 + 8; cursor_x = 0 + 1 }))
    × ((r j k : ℕ)
        → r < 16
        → j < 8
        → k ≡ 0 * 40 + 0 + r * 40 + (8 - j)
        → get_or fb k 0 ≡ (if is_set (get_or glyphs (97 * 16 + r) 0) j then 16777215 else 0))
    × ((k : ℕ)
        → ((r j : ℕ) → r < 16 → j < 8 → k ≢ 0 * 40 + 0 + r * 40 + (8 - j))
        → get_or fb k 0 ≡ get_or pixels k 0)
vesa_print_char-glyph_example =
    vesa_print_char-glyph small_screen 97 (omega arith) (omega arith) (omega arith)
      small_screen-IsScreen (omega arith)

scroll-overrun_example :
    scroll (record small_screen { framebuffer = replicate 1280 0; cursor_y = 2 }) ≡ none
scroll-overrun_example =
    scroll-overrun (record small_screen { framebuffer = replicate 1280 0; cursor_y = 2 })
      (length-replicate {A = ℕ} 1280 0) (omega arith) (omega arith) (omega arith) (omega arith)
      (omega arith) (omega arith)
