-- ===== src/Drivers/Vesa/Lines.antt =====
-- drivers/vesa.c: scroll, with the cursor that it finds and leaves.
use longhorn.Base.{
  ℕ, ◌+◌, ◌-◌, ◌*◌, ◌^◌, ◌≤◌, ◌<◌, ◌≡◌, refl, ap, leb, le→leb, lt→leb, none, some, true, List,
  arith, length, get_or, Bool-cases, inl, inr, ◌&&◌, sub_u32, mul_u32,
}
use native.Mathlib.Nat.{mul-le-mul_right}
use longhorn.Drivers.Vesa.{Vesa, vesa_set_cursor, wrap_line, move_up, scroll}
use longhorn.Drivers.Vesa.Scroll.{copy_rows-total, copy_rows-fault}
use longhorn.Drivers.Vesa.Cursor.{IsSized, IsAt, IsScreen, resized}

-- The cursor before scroll has run: it may stand on the row below the screen, or behind the last
-- column, with pixel coordinates that belong to another column.
pub record IsLoose (num_rows num_cols cursor_x cursor_y current_x current_y : ℕ) : Type 0 where
  pub near : cursor_y ≤ num_rows
  pub at_x : cursor_x < num_cols → current_x ≡ 8 * cursor_x
  pub wraps : num_cols ≤ cursor_x → cursor_y < num_rows
  pub at_y : current_y ≡ 16 * cursor_y

abbrev pub IsBefore : Vesa → Type 0
IsBefore s = IsLoose s.num_rows s.num_cols s.cursor_x s.cursor_y s.current_x s.current_y

wrap_line-IsAt :
    (s : Vesa) → IsSized s → IsBefore s → (IsSized (wrap_line s)) × (IsAt 1 (wrap_line s))
unfolding wrap_line
wrap_line-IsAt s z p = elim (Bool-cases (leb s.num_cols s.cursor_x)) [
  | inl e ↦
      let inside : s.cursor_y < s.num_rows = p.wraps (ground (arith, e)) in
      rw e (
        z,
        record {
          in_cols = omega arith;
          in_rows = omega (arith, z.rows_fit, z.height_small);
          at_x = omega arith;
          at_y = omega (arith, p.at_y, z.rows_fit, z.height_small);
        },
      )
  | inr e ↦ rw e (
    z,
    record {
      in_cols = ground (arith, e);
      in_rows = omega (arith, p.near);
      at_x = p.at_x (ground (arith, e));
      at_y = p.at_y;
    },
  )
]

-- The state that move_up leaves when the cursor is on the row below the screen.
abbrev moved_up : List ℕ → Vesa → Vesa
moved_up fb s = record s {
  framebuffer = fb;
  current_x = 0;
  cursor_x = 0;
  current_y = 16 * (s.num_rows - 1);
  cursor_y = s.num_rows - 1;
}

home-run :
    (s : Vesa)
    → 1 ≤ s.num_rows
    → s.num_rows ≤ 2 ^ 20
    → vesa_set_cursor 0 (sub_u32 s.num_rows 1) s ≡ moved_up s.framebuffer s
unfolding vesa_set_cursor
home-run s h k =
    let last : sub_u32 s.num_rows 1 ≡ s.num_rows - 1 = omega arith in
    let row : mul_u32 16 (s.num_rows - 1) ≡ 16 * (s.num_rows - 1) = omega arith in
    let test : leb (s.num_rows - 1) s.num_rows && leb 0 s.num_cols ≡ true = ground arith in
    rw (last, test, row) refl

-- On the row below the screen: the rows move up by the height of a character.
pub move_up-rows :
    (s : Vesa)
    → IsSized s
    → s.num_rows ≤ s.cursor_y
    → (fb : List ℕ) × (move_up s ≡ some (moved_up fb s))
      × (length fb ≡ length s.framebuffer)
      × ((k : ℕ)
          → k < (s.height - 1) * s.width
          → get_or fb k 0 ≡ get_or s.framebuffer (k + 16 * s.width) 0)
unfolding move_up
move_up-rows s z h =
    let tall : 16 ≤ s.height = omega (arith, z.rows_fit, z.some_rows) in
    let room : (0 + (s.height - 1) + 16) * s.width ≤ length s.framebuffer = omega (
      arith,
      z.has_memory,
      mul-le-mul_right {m = 0 + (s.height - 1) + 16} {n = s.height + 16} s.width (omega arith),
    ) in
    let (fb, run, len, cells) =
      copy_rows-total s.width 0 (s.height - 1) s.framebuffer room z.small
        (omega (arith, z.height_small)) (omega (arith, z.cols_fit, z.some_cols)) in
    let rows : sub_u32 s.height 1 ≡ s.height - 1 = omega (arith, z.height_small) in
    let home =
      home-run (record s { framebuffer = fb }) z.some_rows
        (omega (arith, z.rows_fit, z.height_small)) in
    (fb, rw (le→leb _ _ h, rows, run) (ap some home), len, λ k hk. ground (arith, cells k))

move_up-IsScreen :
    (s : Vesa) → IsSized s → IsAt 1 s → (s' : Vesa) × (move_up s ≡ some s') × IsScreen s'
unfolding move_up
move_up-IsScreen s z p = elim (Bool-cases (leb s.num_rows s.cursor_y)) [
  | inl e ↦
      let (fb, run, len, _) = move_up-rows s z (ground (arith, e)) in
      (
        moved_up fb s,
        run,
        (
          resized len z,
          record {
            in_cols = omega arith;
            in_rows = omega (arith, z.some_rows);
            at_x = omega arith;
            at_y = refl;
          },
        ),
      )
  | inr e ↦ (
    s,
    rw e refl,
    (z, record { in_cols = p.in_cols; in_rows = ground (arith, e); at_x = p.at_x; at_y = p.at_y }),
  )
]

-- scroll brings the cursor back to the screen.
pub scroll-IsScreen :
    (s : Vesa) → IsSized s → IsBefore s → (s' : Vesa) × (scroll s ≡ some s') × IsScreen s'
unfolding scroll
scroll-IsScreen s z p = let (z', p') = wrap_line-IsAt s z p in move_up-IsScreen (wrap_line s) z' p'

-- Before the last column there is nothing to scroll.
pub scroll-inside :
    (s : Vesa) → s.cursor_x < s.num_cols → s.cursor_y < s.num_rows → scroll s ≡ some s
unfolding scroll wrap_line move_up
scroll-inside s hx hy = rw (lt→leb _ _ hx, lt→leb _ _ hy) refl

-- scroll on the row below the screen, with a framebuffer that has the screen's pixels and no memory
-- behind them, reads behind it: the copying goes on to rows that lie below the screen.
pub scroll-overrun :
    (s : Vesa)
    → length s.framebuffer ≡ s.height * s.width
    → (s.height + 16) * s.width < 2 ^ 30
    → 0 < s.width
    → 2 ≤ s.height
    → s.height ≤ 2 ^ 20
    → s.cursor_x < s.num_cols
    → s.num_rows ≤ s.cursor_y
    → scroll s ≡ none
unfolding scroll wrap_line move_up
scroll-overrun s len small hw hh tall hx hy =
    let rows : sub_u32 s.height 1 ≡ s.height - 1 = omega arith in
    let fault =
      copy_rows-fault s.width s.height 0 (s.height - 1) s.framebuffer len small hw (omega arith)
        tall (omega arith) (omega arith) in
    rw (lt→leb _ _ hx, le→leb _ _ hy, rows, fault) refl
