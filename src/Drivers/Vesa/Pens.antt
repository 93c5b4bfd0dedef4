-- ===== src/Drivers/Vesa/Pens.antt =====
-- drivers/vesa.c: the cursor, a blank and a character drawn in the current cell, and vesa_set_cursor.
use longhorn.Base.{
  ℕ, ◌+◌, ◌*◌, ◌^◌, ◌≤◌, ◌<◌, ◌≡◌, refl, leb, lt→ltb, le→leb, Option, none, some, false, List,
  arith, if◌then◌else◌, length, get_elem?, get_or, get_elem?-eq-get_or, Bool-cases, inl, inr,
  mul_u32,
}
use longhorn.Drivers.Vesa.{
  Vesa, is_set, cursor_pens, blank_pens, char_pens, draw_cell, vesa_show_cursor, vesa_hide_cursor,
  vesa_set_cursor,
}
use longhorn.Drivers.Vesa.Cells.{IsDrawn}
use longhorn.Drivers.Vesa.Cursor.{IsSized, IsScreen, IsInside, cell_pos, draw_cell-IsDrawn}

module _ (s : Vesa) (z : IsSized s) (inside : IsInside s) where
  pub hide-run :
      (fb : List ℕ) × (vesa_hide_cursor s ≡ some (record s { framebuffer = fb; cursor_on = 0 }))
      × (length fb ≡ length s.framebuffer)
  unfolding vesa_hide_cursor
  hide-run =
      let (fb, run, d) =
        draw_cell-IsDrawn s z inside (blank_pens s) (λ i j. some s.bg_color) (λ i h. refl) in
      (fb, rw run refl, d.same_length)

  font_byte : (n : ℕ) → n < 4096 → get_elem? s.font n ≡ some (get_or s.font n 0)
  font_byte n h = get_elem?-eq-get_or s.font n 0 (omega (arith, z.has_font))

  pub show-run :
      (fb : List ℕ) × (vesa_show_cursor s ≡ some (record s { framebuffer = fb; cursor_on = 1 }))
      × (length fb ≡ length s.framebuffer)
  unfolding vesa_show_cursor
  show-run =
      let (fb, run, d) =
        draw_cell-IsDrawn s z inside (cursor_pens s)
          (λ i j. if is_set (get_or s.font (219 * 16 + i) 0) j then some s.fg_color else none)
          (λ i h. rw (font_byte (219 * 16 + i) (omega arith)) refl) in
      (fb, rw run refl, d.same_length)

  -- The glyph of an ASCII character in the two colors.
  abbrev pub glyph : ℕ → ℕ → ℕ → Option ℕ
  glyph c i j = some (if is_set (get_or s.font (c * 16 + i) 0) j then s.fg_color else s.bg_color)

  pub glyph-run :
      (c : ℕ)
      → c < 128
      → (fb : List ℕ) × (draw_cell (char_pens s c) s ≡ some (record s { framebuffer = fb }))
        × IsDrawn (glyph c) s.width (cell_pos s) 0 16 s.framebuffer fb
  glyph-run c h =
      draw_cell-IsDrawn s z inside (char_pens s c) (glyph c)
        (λ i hi. rw (lt→ltb _ _ h, font_byte (c * 16 + i) (omega arith)) refl)

pub set-run :
    (x y : ℕ) (s : Vesa)
    → x ≤ s.num_cols
    → y ≤ s.num_rows
    → 8 * s.num_cols ≤ 2 ^ 20
    → 16 * s.num_rows ≤ 2 ^ 20
    → vesa_set_cursor x y s
      ≡ record s { current_x = 8 * x; cursor_x = x; current_y = 16 * y; cursor_y = y }
unfolding vesa_set_cursor
set-run x y s hx hy hc hr =
    let across : mul_u32 8 x ≡ 8 * x = omega arith in
    let down : mul_u32 16 y ≡ 16 * y = omega arith in
    rw (le→leb _ _ hy, le→leb _ _ hx, across, down) refl

pub set-refused : (x y : ℕ) (s : Vesa) → leb x s.num_cols ≡ false → vesa_set_cursor x y s ≡ s
unfolding vesa_set_cursor
set-refused x y s e = ground (arith, e)

-- Moving the cursor within its row keeps it on the screen, also when the column is refused.
pub set-IsScreen : (x : ℕ) (s : Vesa) → IsScreen s → IsScreen (vesa_set_cursor x s.cursor_y s)
set-IsScreen x s screen =
    let z = screen.0 in
    let p = screen.1 in
    elim (Bool-cases (leb x s.num_cols)) [
      | inl e ↦
          let placed =
            set-run x s.cursor_y s (ground (arith, e)) (omega (arith, p.in_rows))
              (omega (arith, z.cols_fit, z.width_small))
              (omega (arith, z.rows_fit, z.height_small)) in
          rw placed (
            z,
            record { in_cols = ground (arith, e); in_rows = p.in_rows; at_x = refl; at_y = refl },
          )
      | inr e ↦ rw (set-refused x s.cursor_y s e) screen
    ]
