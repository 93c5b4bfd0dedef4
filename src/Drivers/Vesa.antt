-- ===== src/Drivers/Vesa.antt =====
-- drivers/vesa.c and drivers/vesa.h: the text screen and the single pixels of the framebuffer.
-- `framebuffer` is the memory from framebuffer_addr on, one element for each uint32_t, and an access
-- behind it is `none`. `font` is the table of drivers/vga_font.h, sixteen bytes for each character.
-- A character is the byte that it is stored as: `char` is signed, so that one from 128 on indexes
-- before the table, which is `none` too.
pub mod Cells
pub mod Cursor
pub mod Scroll
pub mod Lines
pub mod Pens
pub mod Backspace
pub mod Clear
pub mod Print
mod Tests
use longhorn.Base.{
  ℕ, zero, suc, ◌+◌, ◌-◌, ◌*◌, ◌/◌, ◌%◌, ◌^◌, Bool, true, false, not, ◌||◌, ◌&&◌, ltb, leb, Option,
  none, some, List, [], ◌∷◌, ◌==◌, if◌then◌else◌, ◌>>=◌, get_elem?, store, add_u32, sub_u32,
  mul_u32, bit_and,
}

-- FONT_WIDTH, FONT_HEIGHT, BLACK and WHITE
abbrev pub font_width : ℕ
font_width = 8

abbrev pub font_height : ℕ
font_height = 16

abbrev pub black : ℕ
black = 0

abbrev pub white : ℕ
white = 16777215

abbrev pub full_block : ℕ
full_block = 219

pub record Vesa : Type 0 where
  pub framebuffer : List ℕ
  pub font : List ℕ
  pub width : ℕ
  pub height : ℕ
  pub pitch : ℕ
  pub bpp : ℕ
  pub red_mask : ℕ
  pub green_mask : ℕ
  pub blue_mask : ℕ
  pub num_rows : ℕ
  pub num_cols : ℕ
  pub cursor_x : ℕ
  pub cursor_y : ℕ
  pub cursor_on : ℕ
  pub current_x : ℕ
  pub current_y : ℕ
  pub bg_color : ℕ
  pub fg_color : ℕ

-- What init_vesa reads of the `multiboot_info_t`; `framebuffer_addr` is the memory at that address.
pub record MultibootInfo : Type 0 where
  pub framebuffer_addr : List ℕ
  pub framebuffer_width : ℕ
  pub framebuffer_height : ℕ
  pub framebuffer_pitch : ℕ
  pub framebuffer_bpp : ℕ
  pub framebuffer_type : ℕ
  pub framebuffer_red_field_position : ℕ
  pub framebuffer_green_field_position : ℕ
  pub framebuffer_blue_field_position : ℕ

-- MULTIBOOT_FRAMEBUFFER_TYPE_RGB
abbrev pub framebuffer_type_rgb : ℕ
framebuffer_type_rgb = 1

-- `0xff << position`, stored in a uint8_t.
abbrev pub color_mask : ℕ → ℕ
color_mask position = 255 * 2 ^ position % 256

-- Whether init_vesa writes the shutdown command to port 0x604; the driver goes on when it comes back.
abbrev pub shuts_down : MultibootInfo → Bool
shuts_down mbi =
    not (mbi.framebuffer_bpp == 32) || not (mbi.framebuffer_type == framebuffer_type_rgb)

unfoldable pub init_vesa : MultibootInfo → Vesa → Vesa
init_vesa mbi s = record s {
  framebuffer = mbi.framebuffer_addr;
  width = mbi.framebuffer_width;
  height = mbi.framebuffer_height;
  pitch = mbi.framebuffer_pitch;
  bpp = mbi.framebuffer_bpp;
  red_mask = color_mask mbi.framebuffer_red_field_position;
  green_mask = color_mask mbi.framebuffer_green_field_position;
  blue_mask = color_mask mbi.framebuffer_blue_field_position;
  num_cols = mbi.framebuffer_width / font_width;
  num_rows = mbi.framebuffer_height / font_height;
  cursor_x = 0;
  cursor_y = 0;
  current_x = 0;
  current_y = 0;
  bg_color = black;
  fg_color = white;
}

unfoldable pub vesa_set_cursor : ℕ → ℕ → Vesa → Vesa
vesa_set_cursor x y s =
    if leb y s.num_rows && leb x s.num_cols
    then record s {
      current_x = mul_u32 font_width x;
      cursor_x = x;
      current_y = mul_u32 font_height y;
      cursor_y = y;
    }
    else s

abbrev pub vesa_get_cursor_x : Vesa → ℕ
vesa_get_cursor_x s = s.cursor_x

abbrev pub vesa_get_cursor_y : Vesa → ℕ
vesa_get_cursor_y s = s.cursor_y

abbrev pub vesa_get_cursor_vis : Vesa → ℕ
vesa_get_cursor_vis s = s.cursor_on

abbrev pub vesa_get_num_cols : Vesa → ℕ
vesa_get_num_cols s = s.num_cols

abbrev pub vesa_get_num_rows : Vesa → ℕ
vesa_get_num_rows s = s.num_rows

-- Moving a `uint32_t *` by `n` elements: the addresses wrap after 2 ^ 30 elements.
abbrev pub move : ℕ → ℕ → ℕ
move p n = (p + n) % 2 ^ 30

-- `framebuffer_addr + (current_y * width) + current_x`
abbrev pub pixel_pos : Vesa → ℕ
pixel_pos s = move (mul_u32 s.current_y s.width) s.current_x

-- `for (j = 0; j < FONT_WIDTH; j++)` at the pixel `pos`, with the rounds left: `pen j` is what is
-- written for bit `j`, or none when the pixel is left.
unfoldable pub draw_cols : (ℕ → Option ℕ) → ℕ → ℕ → ℕ → List ℕ → Option (List ℕ)
draw_cols pen pos j zero fb = some fb
draw_cols pen pos j (suc rounds) fb = do
  fb' ← elim (pen j) [ none ↦ some fb | some col ↦ store fb (move pos (font_width - j)) col ]
  draw_cols pen pos (j + 1) rounds fb'

-- `for (i = 0; i < FONT_HEIGHT; i++)` with `pixel_pos += width`; `pens i` is the pen of row `i`, and
-- none when the font cannot be read.
unfoldable pub draw_rows : (ℕ → Option (ℕ → Option ℕ)) → ℕ → ℕ → ℕ → ℕ → List ℕ → Option (List ℕ)
unfolding draw_cols
draw_rows pens width pos i zero fb = some fb
draw_rows pens width pos i (suc rounds) fb = do
  pen ← pens i
  fb' ← draw_cols pen pos 0 font_width fb
  draw_rows pens width (move pos width) (i + 1) rounds fb'

-- `vga_font[(c * FONT_HEIGHT) + i] & (1 << j)` as a test, for a `c` that is not negative.
abbrev pub is_set : ℕ → ℕ → Bool
is_set c_font j = not (bit_and c_font (2 ^ j) == 0)

abbrev pub cursor_pens : Vesa → ℕ → Option (ℕ → Option ℕ)
cursor_pens s i = do
  c_font ← get_elem? s.font (full_block * font_height + i)
  some (λ j. if is_set c_font j then some s.fg_color else none)

abbrev pub blank_pens : Vesa → ℕ → Option (ℕ → Option ℕ)
blank_pens s i = some (λ j. some s.bg_color)

abbrev pub char_pens : Vesa → ℕ → ℕ → Option (ℕ → Option ℕ)
char_pens s c i =
    if ltb c 128
    then (do
      c_font ← get_elem? s.font (c * font_height + i)
      some (λ j. some (if is_set c_font j then s.fg_color else s.bg_color)))
    else none

-- The drawing of one character cell at the current place.
unfoldable pub draw_cell : (ℕ → Option (ℕ → Option ℕ)) → Vesa → Option Vesa
unfolding draw_rows
draw_cell pens s = do
  fb ← draw_rows pens s.width (pixel_pos s) 0 font_height s.framebuffer
  some (record s { framebuffer = fb })

unfoldable pub vesa_show_cursor : Vesa → Option Vesa
unfolding draw_cell
vesa_show_cursor s = do s' ← draw_cell (cursor_pens s) s; some (record s' { cursor_on = 1 })

unfoldable pub vesa_hide_cursor : Vesa → Option Vesa
unfolding draw_cell
vesa_hide_cursor s = do s' ← draw_cell (blank_pens s) s; some (record s' { cursor_on = 0 })

unfoldable pub vesa_set_cursor_vis : ℕ → Vesa → Option Vesa
unfolding vesa_show_cursor vesa_hide_cursor
vesa_set_cursor_vis state s = if state == 1 then vesa_show_cursor s else vesa_hide_cursor s

-- `for (x = 0; x < width; x++)` of scroll in row `y`, with the rounds left.
unfoldable pub copy_cols : ℕ → ℕ → ℕ → ℕ → List ℕ → Option (List ℕ)
copy_cols width y x zero fb = some fb
copy_cols width y x (suc rounds) fb = do
  col ← get_elem? fb (add_u32 (mul_u32 (add_u32 y font_height) width) x % 2 ^ 30)
  fb' ← store fb (add_u32 (mul_u32 y width) x % 2 ^ 30) col
  copy_cols width y (x + 1) rounds fb'

-- `for (y = 0; y < height - 1; y++)`, with the rounds left.
unfoldable pub copy_rows : ℕ → ℕ → ℕ → List ℕ → Option (List ℕ)
unfolding copy_cols
copy_rows width y zero fb = some fb
copy_rows width y (suc rounds) fb = do
  fb' ← copy_cols width y 0 width fb
  copy_rows width (y + 1) rounds fb'

-- The first `if` of scroll: a new line when the cursor is behind the last column.
unfoldable pub wrap_line : Vesa → Vesa
wrap_line s =
    if leb s.num_cols s.cursor_x
    then record s {
      current_y = add_u32 s.current_y font_height;
      cursor_y = add_u32 s.cursor_y 1;
      current_x = 0;
      cursor_x = 0;
    }
    else s

-- The second one.
unfoldable pub move_up : Vesa → Option Vesa
unfolding copy_rows vesa_set_cursor
move_up s =
    if leb s.num_rows s.cursor_y
    then (do
      fb ← copy_rows s.width 0 (sub_u32 s.height 1) s.framebuffer
      some (vesa_set_cursor 0 (sub_u32 s.num_rows 1) (record s { framebuffer = fb })))
    else some s

unfoldable pub scroll : Vesa → Option Vesa
unfolding wrap_line move_up
scroll s = move_up (wrap_line s)

unfoldable pub print_newline : Vesa → Option Vesa
unfolding vesa_hide_cursor vesa_set_cursor scroll
print_newline s = do s' ← vesa_hide_cursor s; scroll (vesa_set_cursor 0 (add_u32 s'.cursor_y 1) s')

unfoldable pub print_tab : Vesa → Option Vesa
unfolding vesa_hide_cursor vesa_set_cursor
print_tab s = do
  s' ← vesa_hide_cursor s
  some (
      if leb s'.cursor_x (sub_u32 s'.num_cols 4)
      then vesa_set_cursor (add_u32 s'.cursor_x 4) s'.cursor_y s'
      else vesa_set_cursor (add_u32 s'.cursor_x (sub_u32 s'.num_cols 4)) s'.cursor_y s')

unfoldable pub print_glyph : ℕ → Vesa → Option Vesa
unfolding draw_cell scroll
print_glyph c s = do
  s' ← draw_cell (char_pens s c) s
  scroll
      (record s' { current_x = add_u32 s'.current_x font_width; cursor_x = add_u32 s'.cursor_x 1 })

unfoldable pub vesa_print_char : ℕ → Vesa → Option Vesa
unfolding print_newline print_tab print_glyph
vesa_print_char c s =
    if c == 10 then print_newline s else (if c == 9 then print_tab s else print_glyph c s)

-- What vesa_print_backspace does when it has moved the cursor.
unfoldable pub erase_cell : ℕ → Vesa → Option Vesa
unfolding draw_cell vesa_set_cursor_vis scroll
erase_cell old_vis s = do
  s₁ ← draw_cell (blank_pens s) s
  s₂ ← vesa_set_cursor_vis old_vis s₁
  scroll s₂

unfoldable pub vesa_print_backspace : Vesa → Option Vesa
unfolding vesa_hide_cursor vesa_set_cursor erase_cell
vesa_print_backspace s = do
  let old_vis = vesa_get_cursor_vis s % 256
  s₁ ← vesa_hide_cursor s
  let x = sub_u32 s₁.cursor_x 1
  erase_cell old_vis (vesa_set_cursor x s₁.cursor_y (record s₁ { cursor_x = x }))

-- A string is the bytes from its pointer on; the end of the list before a terminator is `none`.
unfoldable pub vesa_print : List ℕ → Vesa → Option Vesa
unfolding vesa_print_char
vesa_print [] s = none
vesa_print (c ∷ str) s = if c == 0 then some s else (do s' ← vesa_print_char c s; vesa_print str s')

unfoldable pub vesa_println : List ℕ → Vesa → Option Vesa
unfolding vesa_print vesa_print_char
vesa_println str s = do s' ← vesa_print str s; vesa_print_char 10 s'

unfoldable pub vesa_draw : ℕ → ℕ → ℕ → Vesa → Option Vesa
vesa_draw x y col s = do
  fb ← store s.framebuffer (move (mul_u32 y s.width) x) col
  some (record s { framebuffer = fb })

-- The two loops of vesa_clear_screen, with the rounds left.
unfoldable pub clear_cols : ℕ → ℕ → ℕ → ℕ → ℕ → List ℕ → Option (List ℕ)
clear_cols bg width y x zero fb = some fb
clear_cols bg width y x (suc rounds) fb = do
  fb' ← store fb (add_u32 (mul_u32 y width) x % 2 ^ 30) bg
  clear_cols bg width y (x + 1) rounds fb'

unfoldable pub clear_rows : ℕ → ℕ → ℕ → ℕ → List ℕ → Option (List ℕ)
unfolding clear_cols
clear_rows bg width y zero fb = some fb
clear_rows bg width y (suc rounds) fb = do
  fb' ← clear_cols bg width y 0 width fb
  clear_rows bg width (y + 1) rounds fb'

unfoldable pub vesa_clear_screen : Vesa → Option Vesa
unfolding clear_rows vesa_set_cursor
vesa_clear_screen s = do
  fb ← clear_rows s.bg_color s.width 0 s.height s.framebuffer
  some (vesa_set_cursor 0 0 (record s { framebuffer = fb }))

abbrev pub vesa_set_color : ℕ → ℕ → Vesa → Vesa
vesa_set_color fg bg s = record s { fg_color = fg; bg_color = bg }

abbrev pub vesa_set_fg_color : ℕ → Vesa → Vesa
vesa_set_fg_color fg s = record s { fg_color = fg }

abbrev pub vesa_set_bg_color : ℕ → Vesa → Vesa
vesa_set_bg_color bg s = record s { bg_color = bg }

abbrev pub vesa_set_default_color : Vesa → Vesa
vesa_set_default_color s = record s { fg_color = white; bg_color = black }
