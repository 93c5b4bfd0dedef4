-- ===== src/Drivers/Vesa/Print.antt =====
-- drivers/vesa.c: printing characters and strings.
use longhorn.Base.{
  ℕ, ◌+◌, ◌-◌, ◌*◌, ◌<◌, ◌≡◌, refl, ◌∙◌, ap, leb, some, [], ◌∷◌, ◌≢◌, false, List, arith, ◌==◌,
  if◌then◌else◌, get_or, Bool-cases, inl, inr, add_u32, sub_u32, ==_ne,
}
use longhorn.Drivers.Vesa.{
  Vesa, is_set, vesa_set_cursor, print_newline, print_tab, print_glyph, vesa_print_char, vesa_print,
}
use longhorn.Drivers.Vesa.Cursor.{IsScreen, IsScreen-IsInside, resized}
use longhorn.Drivers.Vesa.Lines.{scroll-IsScreen, scroll-inside}
use longhorn.Drivers.Vesa.Pens.{hide-run, glyph-run, set-run, set-IsScreen}

print_newline-IsScreen :
    (s : Vesa) → IsScreen s → (s' : Vesa) × (print_newline s ≡ some s') × IsScreen s'
unfolding print_newline
print_newline-IsScreen s screen =
    let (fb, run, len) = hide-run s (screen.0) (IsScreen-IsInside s screen) in
    let z = screen.0 in
    let p = screen.1 in
    let next : add_u32 s.cursor_y 1 ≡ s.cursor_y + 1 =
      omega (arith, p.in_rows, z.rows_fit, z.height_small) in
    let at_start =
      set-run 0 (s.cursor_y + 1) (record s { framebuffer = fb; cursor_on = 0 }) (omega arith)
        (omega (arith, p.in_rows)) (omega (arith, z.cols_fit, z.width_small))
        (omega (arith, z.rows_fit, z.height_small)) in
    rw (run, next, at_start)
      (scroll-IsScreen
        (record s {
          framebuffer = fb;
          cursor_on = 0;
          current_x = 0;
          cursor_x = 0;
          current_y = 16 * (s.cursor_y + 1);
          cursor_y = s.cursor_y + 1;
        })
        (resized len z)
        (record {
          near = omega (arith, p.in_rows);
          at_x = λ h. refl;
          wraps = λ h. absurd (omega (arith, z.some_cols));
          at_y = refl;
        }))

print_tab-IsScreen : (s : Vesa) → IsScreen s → (s' : Vesa) × (print_tab s ≡ some s') × IsScreen s'
unfolding print_tab
print_tab-IsScreen s screen =
    let (fb, run, len) = hide-run s (screen.0) (IsScreen-IsInside s screen) in
    let hidden : Vesa = record s { framebuffer = fb; cursor_on = 0 } in
    let on_screen : IsScreen hidden = (resized len screen.0, screen.1) in
    elim (Bool-cases (leb s.cursor_x (sub_u32 s.num_cols 4))) [
      | inl e ↦ (
        vesa_set_cursor (add_u32 s.cursor_x 4) s.cursor_y hidden,
        rw (run, e) refl,
        set-IsScreen (add_u32 s.cursor_x 4) hidden on_screen,
      )
      | inr e ↦ (
        vesa_set_cursor (add_u32 s.cursor_x (sub_u32 s.num_cols 4)) s.cursor_y hidden,
        rw (run, e) refl,
        set-IsScreen (add_u32 s.cursor_x (sub_u32 s.num_cols 4)) hidden on_screen,
      )
    ]

print_glyph-IsScreen :
    (c : ℕ) (s : Vesa)
    → c < 128
    → IsScreen s
    → (s' : Vesa) × (print_glyph c s ≡ some s') × IsScreen s'
unfolding print_glyph
print_glyph-IsScreen c s h screen =
    let (fb, run, d) = glyph-run s (screen.0) (IsScreen-IsInside s screen) c h in
    let z = screen.0 in
    let p = screen.1 in
    let right : add_u32 s.current_x 8 ≡ s.current_x + 8 =
      omega (arith, p.at_x, p.in_cols, z.cols_fit, z.width_small) in
    let next : add_u32 s.cursor_x 1 ≡ s.cursor_x + 1 =
      omega (arith, p.in_cols, z.cols_fit, z.width_small) in
    rw (run, right, next)
      (scroll-IsScreen
        (record s { framebuffer = fb; current_x = s.current_x + 8; cursor_x = s.cursor_x + 1 })
        (resized d.same_length z)
        (record {
          near = omega (arith, p.in_rows);
          at_x = λ _. omega (arith, p.at_x);
          wraps = λ _. omega (arith, p.in_rows);
          at_y = p.at_y;
        }))

print_char-IsScreen :
    (c : ℕ) (s : Vesa)
    → c < 128
    → IsScreen s
    → (s' : Vesa) × (vesa_print_char c s ≡ some s') × IsScreen s'
unfolding vesa_print_char
print_char-IsScreen c s h screen = elim (Bool-cases (c == 10)) [
  | inl e ↦ rw e (print_newline-IsScreen s screen)
  | inr e ↦ elim (Bool-cases (c == 9)) [
    | inl e' ↦ rw (e, e') (print_tab-IsScreen s screen)
    | inr e' ↦ rw (e, e') (print_glyph-IsScreen c s h screen)
  ]
]

-- A string of ASCII characters with its terminator.
pub data AsciiText : List ℕ → Type 0 where
  done : {rest : List ℕ} → AsciiText (0 ∷ rest)
  more : {c : ℕ} {rest : List ℕ} → 0 < c → c < 128 → AsciiText rest → AsciiText (c ∷ rest)

-- vesa_print of any terminated string of ASCII characters, tabs and newlines included, comes to its
-- end on a screen of the sizes of `IsSized` (at least five columns and one row, a framebuffer with
-- sixteen rows of memory behind the screen): it accesses no memory outside, and leaves the cursor in
-- one of the rows, at most one column behind the last.
pub vesa_print-IsScreen :
    (str : List ℕ) (s : Vesa)
    → AsciiText str
    → IsScreen s
    → (s' : Vesa) × (vesa_print str s ≡ some s') × IsScreen s'
unfolding vesa_print
vesa_print-IsScreen [] s t screen = elim t [ ]
vesa_print-IsScreen (_ ∷ rest) s done screen = (s, refl, screen)
vesa_print-IsScreen (c ∷ rest) s (more p q t) screen =
    let (s₁, run₁, screen₁) = print_char-IsScreen c s q screen in
    let (s₂, run₂, screen₂) = vesa_print-IsScreen rest s₁ t screen₁ in
    let printable : (c == 0) ≡ false = ==_ne _ _ (λ e. omega (arith, e, p)) in
    (s₂, rw (printable, run₁) run₂, screen₂)

-- vesa_print_char of an ASCII character that is neither a newline nor a tab, before the last two
-- columns: for every row `r` and bit `j` of the glyph it writes the pixel of the cell's row `r` and
-- column `8 - j` with the foreground or the background color, and no other pixel, and the cursor goes
-- one column on.
pub vesa_print_char-glyph :
    (s : Vesa) (c : ℕ)
    → c < 128
    → c ≢ 10
    → c ≢ 9
    → IsScreen s
    → s.cursor_x + 1 < s.num_cols
    → (fb : List ℕ) × (vesa_print_char c s
        ≡ some
            (record s { framebuffer = fb; current_x = s.current_x + 8; cursor_x = s.cursor_x + 1 }))
      × ((r j k : ℕ)
          → r < 16
          → j < 8
          → k ≡ s.current_y * s.width + s.current_x + r * s.width + (8 - j)
          → get_or fb k 0
            ≡ (if is_set (get_or s.font (c * 16 + r) 0) j then s.fg_color else s.bg_color))
      × ((k : ℕ)
          → ((r j : ℕ)
              → r < 16
              → j < 8
              → k ≢ s.current_y * s.width + s.current_x + r * s.width + (8 - j))
          → get_or fb k 0 ≡ get_or s.framebuffer k 0)
unfolding vesa_print_char print_glyph
vesa_print_char-glyph s c h no_line no_tab screen inside =
    let (fb, run, d) = glyph-run s (screen.0) (IsScreen-IsInside s screen) c h in
    let z = screen.0 in
    let p = screen.1 in
    let right : add_u32 s.current_x 8 ≡ s.current_x + 8 =
      omega (arith, p.at_x, p.in_cols, z.cols_fit, z.width_small) in
    let next : add_u32 s.cursor_x 1 ≡ s.cursor_x + 1 =
      omega (arith, p.in_cols, z.cols_fit, z.width_small) in
    let still =
      scroll-inside
        (record s { framebuffer = fb; current_x = s.current_x + 8; cursor_x = s.cursor_x + 1 })
        inside (omega (arith, p.in_rows)) in
    (
      fb,
      rw (==_ne _ _ no_line, ==_ne _ _ no_tab, run, right, next) still,
      λ r j k hr hj e. d.dots r j k hr hj e ∙ same_row r j,
      d.others,
    )
  where
    same_row :
        (r j : ℕ)
        → (if is_set (get_or s.font (c * 16 + (r + 0)) 0) j then s.fg_color else s.bg_color)
          ≡ (if is_set (get_or s.font (c * 16 + r) 0) j then s.fg_color else s.bg_color)
    same_row r j =
        ap (λ (t : ℕ). if is_set (get_or s.font t 0) j then s.fg_color else s.bg_color)
          (omega arith)
