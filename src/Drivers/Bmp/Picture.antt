-- ===== src/Drivers/Bmp/Picture.antt =====
-- drivers/bmp.c: the loops over the rows and columns of an image, against a picture as a list of rows.
use longhorn.Base.{
  ℕ, suc, ◌+◌, ◌-◌, ◌*◌, ◌%◌, ◌^◌, ◌<◌, ◌≡◌, refl, sym, subst, ◌∙◌, ap, ap₂, Option, some, List, [],
  ◌∷◌, ◌++◌, map, arith, length, length-append, append_assoc,
}
use longhorn.Drivers.Bmp.{
  BmpFileHeader, over_cols, over_rows, row_padding, change_pixel, remove_pixel, bmp_change_color,
  bmp_remove_all,
}
use longhorn.Drivers.Bmp.Pixels.{
  Pixel, IsPixel, put_pixel, recolored, blackened, change_pixel-recolored, remove_pixel-blackened,
}

pub record Row : Type 0 where
  pub pixels : List Pixel
  pub padding : List ℕ

abbrev pub put_pixels : List Pixel → List ℕ → List ℕ
put_pixels [] rest = rest
put_pixels (c ∷ cs) rest = put_pixel c (put_pixels cs rest)

-- The bytes of the rows, each with its padding.
abbrev pub put_rows : List Row → List ℕ → List ℕ
put_rows [] rest = rest
put_rows (r ∷ rows) rest = put_pixels r.pixels (r.padding ++ put_rows rows rest)

abbrev pub map_row : (Pixel → Pixel) → Row → Row
map_row f r = record r { pixels = map f r.pixels }

pub data ArePixels : List Pixel → Type 0 where
  no_pixel : ArePixels []
  next_pixel : {c : Pixel} {cs : List Pixel} → IsPixel c → ArePixels cs → ArePixels (c ∷ cs)

-- Rows of `width` pixels with `padding` bytes behind each.
pub data AreRows (width padding : ℕ) : List Row → Type 0 where
  no_row : AreRows width padding []
  next_row :
      {r : Row} {rows : List Row}
      → ArePixels r.pixels
      → length r.pixels ≡ width
      → length r.padding ≡ padding
      → AreRows width padding rows
      → AreRows width padding (r ∷ rows)

pub put_pixels-append :
    (cs : List Pixel) (xs ys : List ℕ) → put_pixels cs xs ++ ys ≡ put_pixels cs (xs ++ ys)
put_pixels-append [] xs ys = refl
put_pixels-append (c ∷ cs) xs ys = ap (put_pixel c) (put_pixels-append cs xs ys)

pub length-put_pixels :
    (cs : List Pixel) (xs : List ℕ) → length (put_pixels cs xs) ≡ 3 * length cs + length xs
length-put_pixels [] xs = omega arith
length-put_pixels (c ∷ cs) xs = omega (arith, length-put_pixels cs xs)

length-map : (f : Pixel → Pixel) (cs : List Pixel) → length (map f cs) ≡ length cs
length-map f [] = refl
length-map f (c ∷ cs) = ap suc (length-map f cs)

-- A body that makes `f c` of every pixel `c`, wherever it lies.
module _ (step : ℕ → ℕ → ℕ → List ℕ → Option (List ℕ)) (f : Pixel → Pixel)
    (runs : (i j : ℕ) (front rest : List ℕ) (c : Pixel) (p : ℕ)
      → p ≡ length front
      → IsPixel c
      → step i j p (front ++ put_pixel c rest) ≡ some (front ++ put_pixel (f c) rest)) where
  over_cols-map :
      (i j : ℕ) (front rest : List ℕ) (cs : List Pixel) (p : ℕ)
      → p ≡ length front
      → ArePixels cs
      → over_cols step i j (length cs) p (front ++ put_pixels cs rest)
        ≡ some (p + 3 * length cs, front ++ put_pixels (map f cs) rest)
  unfolding over_cols
  over_cols-map i j front rest [] p e h = ap (λ (t : ℕ). some (t, front ++ rest)) (omega arith)
  over_cols-map i j front rest (c ∷ cs) p e (next_pixel h hs) =
      let on : List ℕ = front ++ put_pixel (f c) [] in
      let behind : (ys : List ℕ) → on ++ ys ≡ front ++ put_pixel (f c) ys =
        λ ys. append_assoc front (put_pixel (f c) []) ys in
      let tail =
        over_cols-map i (j + 1) on rest cs (p + 3)
          (omega (arith, e, length-append front (put_pixel (f c) []))) hs in
      rw (runs i j front (put_pixels cs rest) c p e h) (
        ap (over_cols step i (j + 1) (length cs) (p + 3)) (sym (behind (put_pixels cs rest)))
        ∙ tail
        ∙ ap some (
            ap₂ (λ (t : ℕ) (ys : List ℕ). (t, ys)) (omega arith)
              (behind (put_pixels (map f cs) rest))))

  row-map :
      (i width : ℕ) (front rest : List ℕ) (cs : List Pixel) (p : ℕ)
      → p ≡ length front
      → length cs ≡ width
      → ArePixels cs
      → over_cols step i 0 width p (front ++ put_pixels cs rest)
        ≡ some (p + 3 * width, front ++ put_pixels (map f cs) rest)
  row-map i width front rest cs p e len h =
      subst
        (λ w.
          over_cols step i 0 w p (front ++ put_pixels cs rest)
          ≡ some (p + 3 * w, front ++ put_pixels (map f cs) rest))
        len (over_cols-map i 0 front rest cs p e h)

  over_rows-map :
      (width padding : ℕ) (front rest : List ℕ) (rows : List Row) (p : ℕ)
      → p ≡ length front
      → AreRows width padding rows
      → over_rows step width padding (length rows) p (front ++ put_rows rows rest)
        ≡ some (front ++ put_rows (map (map_row f) rows) rest)
  unfolding over_rows
  over_rows-map width padding front rest [] p e h = refl
  over_rows-map width padding front rest (r ∷ rows) p e (next_row h len pad hs) =
      let tail : List ℕ = put_rows rows rest in
      let on : List ℕ = front ++ put_pixels (map f r.pixels) r.padding in
      let behind : (ys : List ℕ)
          → on ++ ys ≡ front ++ put_pixels (map f r.pixels) (r.padding ++ ys) =
        λ ys.
          append_assoc front (put_pixels (map f r.pixels) r.padding) ys
          ∙ ap (λ zs. front ++ zs) (put_pixels-append (map f r.pixels) r.padding ys) in
      let next =
        over_rows-map width padding on rest rows (p + 3 * width + padding)
          (omega (
            arith,
            e,
            len,
            pad,
            length-append front (put_pixels (map f r.pixels) r.padding),
            length-put_pixels (map f r.pixels) r.padding,
            length-map f r.pixels,
          ))
          hs in
      rw (row-map (suc (length rows)) width front (r.padding ++ tail) r.pixels p e len h) (
        ap (over_rows step width padding (length rows) (p + 3 * width + padding))
          (sym (behind tail))
        ∙ next
        ∙ ap some (behind (put_rows (map (map_row f) rows) rest)))

-- The bytes that the functions skip behind a row of `width` pixels of three bytes.
abbrev pub skipped : ℕ → ℕ
skipped width = 4 - 3 * width % 4

pub row_padding-skipped :
    (b : BmpFileHeader)
    → b.info_header.bpp ≡ 24
    → b.info_header.width < 2 ^ 30
    → row_padding b.info_header ≡ skipped b.info_header.width
row_padding-skipped b three small = rw three (omega arith)

-- bmp_change_color on an image of `length rows` rows of `width` pixels of 24 bits, width below 2^30,
-- with 4 - 3 * width % 4 bytes behind each row, wherever it lies in memory: it changes every pixel of
-- the old color to the blue byte of the new one with no green and no red, and changes no other pixel,
-- no byte behind a row and none around the image. Those bytes are the padding of the format, except
-- where 3 * width is a multiple of four: there the format has none, and this is an image with four
-- more bytes behind each row.
pub bmp_change_color-recolored :
    (b : BmpFileHeader) (old new : ℕ) (front rest : List ℕ) (rows : List Row)
    → b.image ≡ some (length front)
    → b.info_header.height ≡ length rows
    → b.info_header.bpp ≡ 24
    → b.info_header.width < 2 ^ 30
    → AreRows b.info_header.width (skipped b.info_header.width) rows
    → bmp_change_color b old new (front ++ put_rows rows rest)
      ≡ some (front ++ put_rows (map (map_row (recolored old new)) rows) rest)
unfolding bmp_change_color
bmp_change_color-recolored b old new front rest rows at_front tall three small h =
    rw (at_front, tall, row_padding-skipped b three small)
      (over_rows-map (λ i j. change_pixel old new) (recolored old new)
        (λ i j before behind c p e h. change_pixel-recolored before behind c p e old new h)
        b.info_header.width (skipped b.info_header.width) front rest rows (length front) refl h)

-- bmp_remove_all on an image of `length rows` rows of `width` pixels of 24 bits, width below 2^30,
-- with 4 - 3 * width % 4 bytes behind each row, wherever it lies in memory: it makes every pixel black
-- that is not of the color, and changes no other pixel, no byte behind a row and none around the
-- image. Those bytes are the padding of the format, except where 3 * width is a multiple of four:
-- there the format has none, and this is an image with four more bytes behind each row.
pub bmp_remove_all-blackened :
    (b : BmpFileHeader) (color : ℕ) (front rest : List ℕ) (rows : List Row)
    → b.image ≡ some (length front)
    → b.info_header.height ≡ length rows
    → b.info_header.bpp ≡ 24
    → b.info_header.width < 2 ^ 30
    → AreRows b.info_header.width (skipped b.info_header.width) rows
    → bmp_remove_all b color (front ++ put_rows rows rest)
      ≡ some (front ++ put_rows (map (map_row (blackened color)) rows) rest)
unfolding bmp_remove_all
bmp_remove_all-blackened b color front rest rows at_front tall three small h =
    rw (at_front, tall, row_padding-skipped b three small)
      (over_rows-map (λ i j. remove_pixel color) (blackened color)
        (λ i j before behind c p e h. remove_pixel-blackened before behind c p e color h)
        b.info_header.width (skipped b.info_header.width) front rest rows (length front) refl h)
