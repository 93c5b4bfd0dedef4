-- ===== src/Drivers/Vesa/Clear.antt =====
-- drivers/vesa.c: vesa_clear_screen.
use longhorn.Base.{
  ℕ, zero, suc, ◌+◌, ◌*◌, ◌^◌, ◌%◌, ◌≤◌, ◌≡◌, refl, ◌∙◌, true, ltb, leb, lt→ltb, some, List, arith,
  if◌then◌else◌, length, get_or, set, get_or-set, length-set, ◌&&◌, add_u32, mul_u32,
}
use native.Mathlib.Nat.{suc-mul, add-mul}
use longhorn.Drivers.Vesa.{Vesa, clear_cols, clear_rows, vesa_set_cursor, vesa_clear_screen}

clear_cols-total :
    (bg width y x rounds : ℕ) (fb : List ℕ)
    → y * width + x + rounds ≤ length fb
    → length fb ≤ 2 ^ 30
    → (fb' : List ℕ) × (clear_cols bg width y x rounds fb ≡ some fb')
      × (length fb' ≡ length fb)
      × ((k : ℕ)
          → get_or fb' k 0 ≡ (
              if leb (y * width + x) k && ltb k (y * width + x + rounds)
              then bg
              else get_or fb k 0))
unfolding clear_cols
clear_cols-total bg width y x zero fb h small = (fb, refl, refl, λ k. ground arith)
clear_cols-total bg width y x (suc rounds) fb h small =
    let keep : length (set fb (y * width + x) bg) ≡ length fb = length-set fb (y * width + x) bg in
    let (fb', run, len, cells) =
      clear_cols-total bg width y (x + 1) rounds (set fb (y * width + x) bg) (omega (arith, keep))
        (omega (arith, keep)) in
    let target : add_u32 (mul_u32 y width) x % 2 ^ 30 ≡ y * width + x = omega arith in
    (
      fb',
      rw (target, lt→ltb (y * width + x) (length fb) (omega arith)) run,
      len ∙ keep,
      λ k. ground (arith, cells k, get_or-set fb (y * width + x) k bg 0 (omega arith)),
    )

clear_rows-total :
    (bg width y rounds : ℕ) (fb : List ℕ)
    → (y + rounds) * width ≤ length fb
    → length fb ≤ 2 ^ 30
    → (fb' : List ℕ) × (clear_rows bg width y rounds fb ≡ some fb')
      × (length fb' ≡ length fb)
      × ((k : ℕ)
          → get_or fb' k 0
            ≡ (if leb (y * width) k && ltb k ((y + rounds) * width) then bg else get_or fb k 0))
unfolding clear_rows
clear_rows-total bg width y zero fb h small = (fb, refl, refl, λ k. ground arith)
clear_rows-total bg width y (suc rounds) fb h small =
    let (fb₁, run₁, len₁, cells₁) =
      clear_cols-total bg width y 0 width fb (omega (arith, all)) small in
    let (fb₂, run₂, len₂, cells₂) =
      clear_rows-total bg width (y + 1) rounds fb₁ (omega (arith, all, rest, len₁))
        (omega (arith, len₁)) in
    (
      fb₂,
      rw run₁ run₂,
      len₂ ∙ len₁,
      λ k. ground (arith, cells₂ k, cells₁ k, all, rest, add-mul y 1 width),
    )
  where
    all : (y + suc rounds) * width ≡ y * width + (rounds * width + width)
    all = omega (arith, add-mul y (suc rounds) width, suc-mul rounds width)

    rest : (y + 1 + rounds) * width ≡ y * width + (rounds * width + width)
    rest = omega (arith, add-mul (y + 1) rounds width, add-mul y 1 width)

-- vesa_clear_screen, for a screen that lies in memory, gives every pixel of the screen the background
-- color, changes no memory behind the screen, and moves the cursor to the first column of the first row.
pub vesa_clear_screen_lem :
    (s : Vesa)
    → s.height * s.width ≤ length s.framebuffer
    → length s.framebuffer ≤ 2 ^ 30
    → (fb : List ℕ) × (vesa_clear_screen s
        ≡ some (record s {
          framebuffer = fb;
          current_x = 0;
          cursor_x = 0;
          current_y = 0;
          cursor_y = 0;
        }))
      × ((k : ℕ)
          → get_or fb k 0
            ≡ (if ltb k (s.height * s.width) then s.bg_color else get_or s.framebuffer k 0))
unfolding vesa_clear_screen vesa_set_cursor
vesa_clear_screen_lem s h small =
    let same : 0 + s.height ≡ s.height = omega arith in
    let whole : (0 + s.height) * s.width ≤ length s.framebuffer = rw same h in
    let (fb, run, len, cells) =
      clear_rows-total s.bg_color s.width 0 s.height s.framebuffer whole small in
    let home : leb 0 s.num_rows && leb 0 s.num_cols ≡ true = ground arith in
    (fb, rw (run, home) refl, λ k. ground (arith, cells k))
