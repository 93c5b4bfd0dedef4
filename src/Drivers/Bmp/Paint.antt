-- ===== src/Drivers/Bmp/Paint.antt =====
-- drivers/bmp.c: a picture drawn through vesa_draw, against the memory of the screen.
use longhorn.Base.{
  ℕ, suc, ◌+◌, ◌*◌, ◌^◌, ◌<◌, ◌≤◌, ◌≡◌, set, length-set, lt→ltb, mul_u32, refl, ◌∙◌, ap, Option,
  some, List, [], ◌∷◌, arith, ◌>>=◌, length, add_u32,
}
use native.Mathlib.Nat.{suc-mul, mul_comm, mul-le-mul_right}
use longhorn.Drivers.Vesa.{Vesa, vesa_draw, move}
use longhorn.Drivers.Bmp.Pixels.{Pixel, color_of}
use longhorn.Drivers.Bmp.Picture.{Row, AreRows, no_row, next_row}

-- The pixels of a row, from column `j` on, at the screen row `y`.
abbrev pub paint_row : ℕ → ℕ → ℕ → List Pixel → Vesa → Option Vesa
paint_row x y j [] v = some v
paint_row x y j (c ∷ cs) v = vesa_draw (add_u32 x j) y (color_of c) v >>= paint_row x y (j + 1) cs

-- The rows of a picture, the lowest first: the row with `n` rows behind it goes to `y + n + 1`.
abbrev pub paint_rows : ℕ → ℕ → List Row → Vesa → Option Vesa
paint_rows x y [] v = some v
paint_rows x y (r ∷ rows) v =
    paint_row x (add_u32 y (suc (length rows))) 0 r.pixels v >>= paint_rows x y rows

-- The pixels of a row in the memory of the screen, `w` to a row of it, from column `x` on.
abbrev pub painted_row : ℕ → ℕ → ℕ → List Pixel → List ℕ → List ℕ
painted_row w x y [] fb = fb
painted_row w x y (c ∷ cs) fb = painted_row w (x + 1) y cs (set fb (y * w + x) (color_of c))

-- The rows of a picture in the memory of the screen, from its lowest row on, which is in row
-- `y + length rows` of the screen.
abbrev pub painted : ℕ → ℕ → ℕ → List Row → List ℕ → List ℕ
painted w x y [] fb = fb
painted w x y (r ∷ rows) fb =
    painted w x y rows (painted_row w x (y + suc (length rows)) r.pixels fb)

length-painted_row :
    (w x y : ℕ) (cs : List Pixel) (fb : List ℕ) → length (painted_row w x y cs fb) ≡ length fb
length-painted_row w x y [] fb = refl
length-painted_row w x y (c ∷ cs) fb =
    length-painted_row w (x + 1) y cs (set fb (y * w + x) (color_of c))
    ∙ length-set fb (y * w + x) (color_of c)

-- The screen has its pixels in memory of fewer than 2^30 of them.
abbrev pub HasPixels : Vesa → Type 0
HasPixels v = (v.width * v.height ≤ length v.framebuffer) × (v.width * v.height < 2 ^ 30)

vesa_draw-set :
    (x y col : ℕ) (v : Vesa)
    → HasPixels v
    → x < v.width
    → y < v.height
    → vesa_draw x y col v
      ≡ some (record v { framebuffer = set v.framebuffer (y * v.width + x) col })
unfolding vesa_draw
vesa_draw-set x y col v (cells, small) h k =
    let inside : suc y * v.width ≤ v.height * v.width = mul-le-mul_right v.width k in
    let below : y * v.width + x < v.width * v.height =
      omega (arith, suc-mul y v.width, inside, mul_comm v.height v.width) in
    let place : move (mul_u32 y v.width) x ≡ y * v.width + x = omega (arith, below, small) in
    rw (place, lt→ltb (y * v.width + x) (length v.framebuffer) (omega (arith, below, cells))) refl

paint_row-painted_row :
    (x y j : ℕ) (cs : List Pixel) (v : Vesa)
    → HasPixels v
    → x + j + length cs ≤ v.width
    → v.width < 2 ^ 32
    → y < v.height
    → paint_row x y j cs v
      ≡ some (record v { framebuffer = painted_row v.width (x + j) y cs v.framebuffer })
paint_row-painted_row x y j [] v s h small k = refl
paint_row-painted_row x y j (c ∷ cs) v (cells, few) h small k =
    let column : add_u32 x j ≡ x + j = omega arith in
    rw (column, vesa_draw-set (x + j) y (color_of c) v (cells, few) (omega arith) k)
      (paint_row-painted_row x y (j + 1) cs
          (record v { framebuffer = set v.framebuffer (y * v.width + (x + j)) (color_of c) })
          (omega (arith, cells, length-set v.framebuffer (y * v.width + (x + j)) (color_of c)), few)
          (omega arith) small k
        ∙ ap
            (λ (n : ℕ). some (record v {
              framebuffer =
                  painted_row v.width n y cs
                    (set v.framebuffer (y * v.width + (x + j)) (color_of c));
            }))
            (omega arith))

pub paint_rows-painted :
    (x y width padding : ℕ) (rows : List Row) (v : Vesa)
    → AreRows width padding rows
    → HasPixels v
    → x + width ≤ v.width
    → v.width < 2 ^ 32
    → y + length rows < v.height
    → v.height < 2 ^ 32
    → paint_rows x y rows v
      ≡ some (record v { framebuffer = painted v.width x y rows v.framebuffer })
paint_rows-painted x y width padding [] v no_row s fits small tall low = refl
paint_rows-painted x y width padding (r ∷ rows) v (next_row _ len _ hs) (cells, few) fits small tall
      low =
    let line : add_u32 y (suc (length rows)) ≡ y + suc (length rows) = omega arith in
    rw
      (
        line,
        paint_row-painted_row x (y + suc (length rows)) 0 r.pixels v (cells, few)
            (omega (arith, len)) small (omega arith),
        add_zero x,
      )
      (paint_rows-painted x y width padding rows
        (record v {
          framebuffer = painted_row v.width x (y + suc (length rows)) r.pixels v.framebuffer;
        })
        hs
        (
          omega (
            arith,
            cells,
            length-painted_row v.width x (y + suc (length rows)) r.pixels v.framebuffer,
          ),
          few,
        )
        fits small (omega arith) low)
  where
    add_zero : (n : ℕ) → n + 0 ≡ n
    add_zero n = omega arith
