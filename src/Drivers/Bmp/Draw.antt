-- ===== src/Drivers/Bmp/Draw.antt =====
-- drivers/bmp.c: draw_bmp_data, against a picture painted pixel by pixel.
use longhorn.Base.{
  ℕ, suc, ◌+◌, ◌*◌, ◌^◌, ◌<◌, ◌≤◌, ◌≡◌, refl, sym, subst, ◌∙◌, ap, Option, some, List, [], ◌∷◌,
  ◌++◌, arith, ◌>>=◌, length, length-append, append_assoc, add_u32, Option-cases, inl, inr,
}
use longhorn.Drivers.Vesa.{Vesa, vesa_draw}
use longhorn.Drivers.Bmp.{BmpFileHeader, read_pixel, over_cols, over_rows, draw_bmp_data}
use longhorn.Drivers.Bmp.Pixels.{Pixel, put_pixel, color_of, read_pixel-color}
use longhorn.Drivers.Bmp.Paint.{paint_row, paint_rows, painted, HasPixels, paint_rows-painted}
use longhorn.Drivers.Bmp.Picture.{
  Row, put_pixels, put_rows, ArePixels, next_pixel, AreRows, next_row, skipped, row_padding-skipped,
  put_pixels-append, length-put_pixels,
}

module _ (file : List ℕ) (x y : ℕ) where
  step : ℕ → ℕ → ℕ → Vesa → Option Vesa
  step i j p v = do col ← read_pixel file p; vesa_draw (add_u32 x j) (add_u32 y i) col v

  cols-paint :
      (i j : ℕ) (front rest : List ℕ) (cs : List Pixel) (p : ℕ) (v : Vesa)
      → file ≡ front ++ put_pixels cs rest
      → p ≡ length front
      → ArePixels cs
      → over_cols step i j (length cs) p v
        ≡ (paint_row x (add_u32 y i) j cs v >>= λ v'. some (p + 3 * length cs, v'))
  unfolding over_cols step
  cols-paint i j front rest [] p v same e h = ap (λ (t : ℕ). some (t, v)) (omega arith)
  cols-paint i j front rest (c ∷ cs) p v same e (next_pixel h hs) =
      let read : read_pixel file p ≡ some (color_of c) =
        ap (λ (f : List ℕ). read_pixel f p) same
        ∙ read_pixel-color front (put_pixels cs rest) c p e h in
      let on : List ℕ = front ++ put_pixel c [] in
      let split : file ≡ on ++ put_pixels cs rest =
        same ∙ sym (append_assoc front (put_pixel c []) (put_pixels cs rest)) in
      let place : p + 3 ≡ length on = omega (arith, e, length-append front (put_pixel c [])) in
      elim (Option-cases (vesa_draw (add_u32 x j) (add_u32 y i) (color_of c) v)) [
        | inl fails ↦ rw (read, fails) refl
        | inr (v', runs) ↦
            rw (read, runs)
              (cols-paint i (j + 1) on rest cs (p + 3) v' split place hs
                ∙ ap (λ (t : ℕ). paint_row x (add_u32 y i) (j + 1) cs v' >>= λ w. some (t, w))
                    (omega arith))
      ]

  row-paint :
      (i width : ℕ) (front rest : List ℕ) (cs : List Pixel) (p : ℕ) (v : Vesa)
      → file ≡ front ++ put_pixels cs rest
      → p ≡ length front
      → length cs ≡ width
      → ArePixels cs
      → over_cols step i 0 width p v
        ≡ (paint_row x (add_u32 y i) 0 cs v >>= λ v'. some (p + 3 * width, v'))
  row-paint i width front rest cs p v same e len h =
      subst
        (λ w.
          over_cols step i 0 w p v
          ≡ (paint_row x (add_u32 y i) 0 cs v >>= λ v'. some (p + 3 * w, v')))
        len (cols-paint i 0 front rest cs p v same e h)

  rows-paint :
      (width padding : ℕ) (front rest : List ℕ) (rows : List Row) (p : ℕ) (v : Vesa)
      → file ≡ front ++ put_rows rows rest
      → p ≡ length front
      → AreRows width padding rows
      → over_rows step width padding (length rows) p v ≡ paint_rows x y rows v
  unfolding over_rows
  rows-paint width padding front rest [] p v same e h = refl
  rows-paint width padding front rest (r ∷ rows) p v same e (next_row h len pad hs) =
      let tail : List ℕ = put_rows rows rest in
      let on : List ℕ = front ++ put_pixels r.pixels r.padding in
      let split : file ≡ on ++ tail =
        same
        ∙ ap (λ zs. front ++ zs) (sym (put_pixels-append r.pixels r.padding tail))
        ∙ sym (append_assoc front (put_pixels r.pixels r.padding) tail) in
      let place : p + 3 * width + padding ≡ length on = omega (
        arith,
        e,
        len,
        pad,
        length-append front (put_pixels r.pixels r.padding),
        length-put_pixels r.pixels r.padding,
      ) in
      let row =
        row-paint (suc (length rows)) width front (r.padding ++ tail) r.pixels p v same e len h in
      elim (Option-cases (paint_row x (add_u32 y (suc (length rows))) 0 r.pixels v)) [
        | inl fails ↦ rw (row, fails) refl
        | inr (v', runs) ↦
            rw (row, runs)
              (rows-paint width padding on rest rows (p + 3 * width + padding) v' split place hs)
      ]

-- draw_bmp_data of an image of `length rows` rows of `width` pixels of 24 bits, width below 2^30, with
-- 4 - 3 * width % 4 bytes behind each row, wherever it lies in the file, onto a screen of fewer than
-- 2^30 pixels with sides below 2^32, all of it in its memory, that has the rows y + 1 to y + height and
-- the columns x to x + width - 1: the color of each pixel, and nothing else, is written to the memory
-- of the screen, the pixel of column j at x + j, the lowest row of the picture in row y + height of
-- the screen and the topmost in row y + 1. Those bytes are the padding of the format, except where
-- 3 * width is a multiple of four: there the format has none, and this is an image with four more
-- bytes behind each row.
pub draw_bmp_data-painted :
    (b : BmpFileHeader) (x y : ℕ) (front rest : List ℕ) (rows : List Row) (v : Vesa)
    → b.image ≡ some (length front)
    → b.info_header.height ≡ length rows
    → b.info_header.bpp ≡ 24
    → b.info_header.width < 2 ^ 30
    → AreRows b.info_header.width (skipped b.info_header.width) rows
    → HasPixels v
    → x + b.info_header.width ≤ v.width
    → v.width < 2 ^ 32
    → y + length rows < v.height
    → v.height < 2 ^ 32
    → draw_bmp_data (front ++ put_rows rows rest) b x y v
      ≡ some (record v { framebuffer = painted v.width x y rows v.framebuffer })
unfolding draw_bmp_data step
draw_bmp_data-painted b x y front rest rows v at_front tall three few h s fits small room low =
    rw (at_front, tall, row_padding-skipped b three few)
      (rows-paint (front ++ put_rows rows rest) x y b.info_header.width
        (skipped b.info_header.width) front rest rows (length front) v refl refl h)
    ∙ paint_rows-painted x y b.info_header.width (skipped b.info_header.width) rows v h s fits small
        room low
