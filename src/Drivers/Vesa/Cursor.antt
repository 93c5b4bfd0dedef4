-- ===== src/Drivers/Vesa/Cursor.antt =====
-- drivers/vesa.c: where the cursor is, and the cell that is drawn there.
use longhorn.Base.{
  ℕ, ◌+◌, ◌*◌, ◌^◌, ◌≤◌, ◌<◌, ◌≡◌, ◌∙◌, ap, Option, some, List, arith, ◌>>=◌, length,
}
use native.Mathlib.Nat.{add-mul, mul-le-mul_right}
use longhorn.Drivers.Vesa.{Vesa, pixel_pos, draw_rows, draw_cell}
use longhorn.Drivers.Vesa.Cells.{IsDrawn, draw_rows-IsDrawn}

-- The sizes that the driver works with: whole character cells that fit on the screen, a font of 256
-- characters, and memory behind the screen for the sixteen rows that scroll reads past it.
pub record HasSizes (fb font : List ℕ) (width height num_rows num_cols : ℕ) : Type 0 where
  pub some_cols : 5 ≤ num_cols
  pub some_rows : 1 ≤ num_rows
  pub cols_fit : 8 * num_cols ≤ width
  pub rows_fit : 16 * num_rows ≤ height
  pub has_font : length font ≡ 4096
  pub has_memory : (height + 16) * width + 8 < length fb
  pub small : length fb ≤ 2 ^ 30
  pub width_small : width ≤ 2 ^ 20
  pub height_small : height ≤ 2 ^ 20

-- The pixel coordinates follow the character coordinates. A tab may leave the cursor behind the last
-- column; the row is one of the screen, or the one below it until scroll has run.
pub record IsPlaced (num_rows num_cols limit cursor_x cursor_y current_x current_y : ℕ)
    : Type 0 where
  pub in_cols : cursor_x ≤ num_cols
  pub in_rows : cursor_y < num_rows + limit
  pub at_x : current_x ≡ 8 * cursor_x
  pub at_y : current_y ≡ 16 * cursor_y

abbrev pub IsSized : Vesa → Type 0
IsSized s = HasSizes s.framebuffer s.font s.width s.height s.num_rows s.num_cols

abbrev pub IsAt : ℕ → Vesa → Type 0
IsAt limit s = IsPlaced s.num_rows s.num_cols limit s.cursor_x s.cursor_y s.current_x s.current_y

-- A screen between two calls.
abbrev pub IsScreen : Vesa → Type 0
IsScreen s = IsSized s × IsAt 0 s

-- A write to the framebuffer keeps its size.
pub resized :
    {fb fb' font : List ℕ} {width height num_rows num_cols : ℕ}
    → length fb' ≡ length fb
    → HasSizes fb font width height num_rows num_cols
    → HasSizes fb' font width height num_rows num_cols
resized e z = record {
  some_cols = z.some_cols;
  some_rows = z.some_rows;
  cols_fit = z.cols_fit;
  rows_fit = z.rows_fit;
  has_font = z.has_font;
  has_memory = omega (arith, e, z.has_memory);
  small = omega (arith, e, z.small);
  width_small = z.width_small;
  height_small = z.height_small;
}

-- The pixel of the upper left corner of the current cell.
abbrev pub cell_pos : Vesa → ℕ
cell_pos s = s.current_y * s.width + s.current_x

draw_cell-run :
    (pens : ℕ → Option (ℕ → Option ℕ)) (s : Vesa) (pos : ℕ) (fb' : List ℕ)
    → pixel_pos s ≡ pos
    → draw_rows pens s.width pos 0 16 s.framebuffer ≡ some fb'
    → draw_cell pens s ≡ some (record s { framebuffer = fb' })
unfolding draw_cell
draw_cell-run pens s pos fb' e run =
    ap (λ q. draw_rows pens s.width q 0 16 s.framebuffer >>= put) e ∙ ap (λ o. o >>= put) run
  where
    put : List ℕ → Option Vesa
    put fb = some (record s { framebuffer = fb })

-- The pixels of the current cell are on the screen.
abbrev pub IsInside : Vesa → Type 0
IsInside s = (s.current_x ≤ s.width) × (s.current_y + 16 ≤ s.height)

pub IsScreen-IsInside : (s : Vesa) → IsScreen s → IsInside s
IsScreen-IsInside s (z, p) =
    (omega (arith, p.at_x, p.in_cols, z.cols_fit), omega (arith, p.at_y, p.in_rows, z.rows_fit))

module _ (s : Vesa) (z : IsSized s) (inside : IsInside s) where
  -- The pixels of a character cell lie in memory.
  cell-in : cell_pos s + 16 * s.width + 8 < length s.framebuffer
  cell-in =
      let low : (s.current_y + 16) * s.width ≤ s.height * s.width =
        mul-le-mul_right s.width (inside.1) in
      omega (
        arith,
        low,
        add-mul s.current_y 16 s.width,
        inside.0,
        z.has_memory,
        add-mul s.height 16 s.width,
      )

  pub is_wide : 8 ≤ s.width
  is_wide = omega (arith, z.cols_fit, z.some_cols)

  -- Whatever pens are available for all rows draw the cell.
  pub draw_cell-IsDrawn :
      (pens : ℕ → Option (ℕ → Option ℕ)) (pen : ℕ → ℕ → Option ℕ)
      → ((i : ℕ) → i < 16 → pens i ≡ some (pen i))
      → (fb' : List ℕ) × (draw_cell pens s ≡ some (record s { framebuffer = fb' }))
        × IsDrawn pen s.width (cell_pos s) 0 16 s.framebuffer fb'
  unfolding draw_cell
  draw_cell-IsDrawn pens pen has_pens =
      let at_cell : pixel_pos s ≡ cell_pos s = omega (arith, cell-in, z.small) in
      let (fb', run, d) =
        draw_rows-IsDrawn pens pen has_pens s.width is_wide 16 0 (cell_pos s) s.framebuffer
          (omega arith) cell-in z.small in
      (fb', draw_cell-run pens s (cell_pos s) fb' at_cell run, d)
