-- ===== src/Drivers/Vesa/Backspace.antt =====
-- drivers/vesa.c: vesa_print_backspace.
use longhorn.Base.{
  ℕ, ◌+◌, ◌-◌, ◌*◌, ◌^◌, ◌%◌, ◌≤◌, ◌<◌, ◌≡◌, refl, ◌∙◌, le→leb, lt→leb, Option, some, List, arith,
  ◌==◌, if◌then◌else◌, length, Bool-cases, inl, inr, add_u32, sub_u32,
}
use longhorn.Drivers.Vesa.{
  Vesa, blank_pens, draw_cell, vesa_hide_cursor, vesa_set_cursor_vis, vesa_set_cursor,
  vesa_print_backspace, erase_cell, wrap_line, move_up, scroll,
}
use longhorn.Drivers.Vesa.Cursor.{
  IsSized, IsScreen, IsScreen-IsInside, IsInside, resized, draw_cell-IsDrawn,
}
use longhorn.Drivers.Vesa.Lines.{scroll-inside}
use longhorn.Drivers.Vesa.Pens.{hide-run, show-run, set-run, set-refused}

-- The visibility that is restored, with the cell drawn again.
vis-run :
    (state : ℕ) (s : Vesa)
    → IsSized s
    → IsInside s
    → (fb : List ℕ) × (on : ℕ) × (vesa_set_cursor_vis state s
        ≡ some (record s { framebuffer = fb; cursor_on = on }))
      × (length fb ≡ length s.framebuffer)
unfolding vesa_set_cursor_vis
vis-run state s z inside = elim (Bool-cases (state == 1)) [
  | inl e ↦ let (fb, run, len) = show-run s z inside in (fb, 1, rw e run, len)
  | inr e ↦ let (fb, run, len) = hide-run s z inside in (fb, 0, rw e run, len)
]

blank-run :
    (s : Vesa)
    → IsSized s
    → IsInside s
    → (fb : List ℕ) × (draw_cell (blank_pens s) s ≡ some (record s { framebuffer = fb }))
      × (length fb ≡ length s.framebuffer)
blank-run s z inside =
    let (fb, run, d) =
      draw_cell-IsDrawn s z inside (blank_pens s) (λ i j. some s.bg_color) (λ i h. refl) in
    (fb, run, d.same_length)

erase-run :
    (old_vis : ℕ) (s : Vesa)
    → IsSized s
    → IsInside s
    → (fb : List ℕ) × (on : ℕ) × (erase_cell old_vis s
        ≡ scroll (record s { framebuffer = fb; cursor_on = on }))
      × (length fb ≡ length s.framebuffer)
unfolding erase_cell
erase-run old_vis s z inside =
    let (fb, run, len) = blank-run s z inside in
    let (fb', on, run', len') =
      vis-run old_vis (record s { framebuffer = fb }) (resized len z) inside in
    (fb', on, rw (run, run') refl, len' ∙ len)

-- A cursor behind the last column goes to the next line.
scroll-wraps :
    (s : Vesa)
    → s.num_cols ≤ s.cursor_x
    → s.cursor_y + 1 < s.num_rows
    → s.num_rows ≤ 2 ^ 20
    → s.current_y ≡ 16 * s.cursor_y
    → scroll s
      ≡ some (record s {
        current_y = 16 * (s.cursor_y + 1);
        cursor_y = s.cursor_y + 1;
        current_x = 0;
        cursor_x = 0;
      })
unfolding scroll wrap_line move_up
scroll-wraps s hx hy small at_y =
    let next : add_u32 s.cursor_y 1 ≡ s.cursor_y + 1 = omega arith in
    let down : add_u32 s.current_y 16 ≡ 16 * (s.cursor_y + 1) = omega (arith, at_y) in
    rw (le→leb _ _ hx, next, down, lt→leb _ _ hy) refl

-- The parts of vesa_print_backspace put together.
back-run :
    (s s₁ s₂ : Vesa) (x : ℕ) (o : Option Vesa)
    → vesa_hide_cursor s ≡ some s₁
    → sub_u32 s₁.cursor_x 1 ≡ x
    → vesa_set_cursor x s₁.cursor_y (record s₁ { cursor_x = x }) ≡ s₂
    → erase_cell (s.cursor_on % 256) s₂ ≡ o
    → vesa_print_backspace s ≡ o
unfolding vesa_print_backspace
back-run s s₁ s₂ x o run back placed erased = rw (run, back, placed) erased

-- vesa_print_backspace on a screen whose last row the cursor is not in: it moves the cursor one column
-- back in its row; from the first column, it moves it to the first column of the next row.
pub vesa_print_backspace_lem :
    (s : Vesa)
    → IsScreen s
    → s.cursor_y + 1 < s.num_rows
    → (fb : List ℕ) × (on : ℕ) × (vesa_print_backspace s
        ≡ some (record s {
          framebuffer = fb;
          cursor_on = on;
          current_x = 8 * (s.cursor_x - 1);
          cursor_x = s.cursor_x - 1;
          current_y = 16 * (if s.cursor_x == 0 then s.cursor_y + 1 else s.cursor_y);
          cursor_y = if s.cursor_x == 0 then s.cursor_y + 1 else s.cursor_y;
        }))
      × (length fb ≡ length s.framebuffer)
vesa_print_backspace_lem s screen above =
    let (fb, run, len) = hide-run s (screen.0) (IsScreen-IsInside s screen) in
    let z = screen.0 in
    let p = screen.1 in
    let hidden : Vesa = record s { framebuffer = fb; cursor_on = 0 } in
    let rows : s.num_rows ≤ 2 ^ 20 = omega (arith, z.rows_fit, z.height_small) in
    elim (Bool-cases (s.cursor_x == 0)) [
      | inl e ↦
          let (fb', on, run', len') =
            erase-run (s.cursor_on % 256) (record hidden { cursor_x = 4294967295 }) (resized len z)
              (IsScreen-IsInside s screen) in
          let back : sub_u32 s.cursor_x 1 ≡ 4294967295 = ground (arith, e) in
          let none_left : s.cursor_x - 1 ≡ 0 = ground (arith, e) in
          let refused =
            set-refused 4294967295 s.cursor_y (record hidden { cursor_x = 4294967295 })
              (lt→leb _ _ (omega (arith, z.cols_fit, z.width_small))) in
          (
            fb',
            on,
            rw (e, none_left)
                (back-run s hidden (record hidden { cursor_x = 4294967295 }) 4294967295 _ run back
                  refused
                  (run'
                    ∙ scroll-wraps
                        (record hidden { framebuffer = fb'; cursor_on = on; cursor_x = 4294967295 })
                        (omega (arith, z.cols_fit, z.width_small)) above rows p.at_y)),
            len' ∙ len,
          )
      | inr e ↦
          let back : sub_u32 s.cursor_x 1 ≡ s.cursor_x - 1 =
            ground (arith, e, p.in_cols, z.cols_fit, z.width_small) in
          let moved : Vesa = record hidden {
            current_x = 8 * (s.cursor_x - 1);
            cursor_x = s.cursor_x - 1;
            current_y = 16 * s.cursor_y;
          } in
          let placed =
            set-run (s.cursor_x - 1) s.cursor_y (record hidden { cursor_x = s.cursor_x - 1 })
              (omega (arith, p.in_cols)) (omega (arith, p.in_rows))
              (omega (arith, z.cols_fit, z.width_small))
              (omega (arith, z.rows_fit, z.height_small)) in
          let (fb', on, run', len') =
            erase-run (s.cursor_on % 256) moved (resized len z)
              (omega (arith, p.in_cols, z.cols_fit), omega (arith, p.in_rows, z.rows_fit)) in
          (
            fb',
            on,
            rw e (
                back-run s hidden moved (s.cursor_x - 1) _ run back placed (
                  run'
                  ∙ scroll-inside (record moved { framebuffer = fb'; cursor_on = on })
                      (ground (arith, e, p.in_cols)) (omega (arith, p.in_rows)))),
            len' ∙ len,
          )
    ]
