-- ===== src/Drivers/Bmp/Pixels.antt =====
-- drivers/bmp.c: one pixel in the bytes of an image.
use longhorn.Base.{
  ℕ, ◌+◌, ◌*◌, ◌%◌, ◌<◌, ◌≡◌, refl, some, List, ◌∷◌, ◌++◌, arith, ◌==◌, if◌then◌else◌, length,
  get_elem?-append, store-append, bit_and, bit_or-shift, bit_and-shift, bit_and-byte, Bool-cases,
  inl, inr,
}
use longhorn.Drivers.Bmp.{read_pixel, write_pixel, change_pixel, remove_pixel}

pub record Pixel : Type 0 where
  pub blue : ℕ
  pub green : ℕ
  pub red : ℕ

-- The three bytes of a pixel in front of `rest`.
abbrev pub put_pixel : Pixel → List ℕ → List ℕ
put_pixel c rest = c.blue ∷ c.green ∷ c.red ∷ rest

-- A 24 bit RGB value.
abbrev pub color_of : Pixel → ℕ
color_of c = c.blue + c.green * 256 + c.red * 65536

pub record IsPixel (c : Pixel) : Type 0 where
  pub blue_byte : c.blue < 256
  pub green_byte : c.green < 256

-- What bmp_change_color makes of a pixel: the blue byte of the new color, and no green and no red.
abbrev pub recolored : ℕ → ℕ → Pixel → Pixel
recolored old new c =
    if color_of c == old then record { blue = new % 256; green = 0; red = 0 } else c

-- What bmp_remove_all makes of it.
abbrev pub blackened : ℕ → Pixel → Pixel
blackened color c = if color_of c == color then c else record { blue = 0; green = 0; red = 0 }

-- A pixel behind the bytes `front`.
module _ (front rest : List ℕ) (c : Pixel) (p : ℕ) (at_p : p ≡ length front) where
  pub read_pixel-color : IsPixel c → read_pixel (front ++ put_pixel c rest) p ≡ some (color_of c)
  unfolding read_pixel
  read_pixel-color h =
      let first = get_elem?-append front (put_pixel c rest) 0 p (omega arith) in
      let second = get_elem?-append front (put_pixel c rest) 1 (p + 1) (omega arith) in
      let third = get_elem?-append front (put_pixel c rest) 2 (p + 2) (omega arith) in
      let low = bit_or-shift 8 c.blue c.green (h.blue_byte) in
      let all =
        bit_or-shift 16 (c.blue + c.green * 256) c.red (omega (arith, h.blue_byte, h.green_byte)) in
      rw (first, second, third, low, all) refl

  write_pixel-put :
      (d : Pixel)
      → write_pixel d.blue d.green d.red (front ++ put_pixel c rest) p
        ≡ some (front ++ put_pixel d rest)
  unfolding write_pixel
  write_pixel-put d =
      let first = store-append front (put_pixel c rest) 0 p d.blue (omega arith) (omega arith) in
      let second =
        store-append front (d.blue ∷ c.green ∷ c.red ∷ rest) 1 (p + 1) d.green (omega arith)
          (omega arith) in
      let third =
        store-append front (d.blue ∷ d.green ∷ c.red ∷ rest) 2 (p + 2) d.red (omega arith)
          (omega arith) in
      rw (first, second) third

  pub change_pixel-recolored :
      (old new : ℕ)
      → IsPixel c
      → change_pixel old new p (front ++ put_pixel c rest)
        ≡ some (front ++ put_pixel (recolored old new c) rest)
  unfolding change_pixel
  change_pixel-recolored old new h =
      let read = read_pixel-color h in
      let (g, green) = bit_and-shift 8 new 255 in
      let (r, red) = bit_and-shift 16 new 255 in
      let blue_part : bit_and new 255 % 256 ≡ new % 256 = omega (arith, bit_and-byte new) in
      let green_part : bit_and new 65280 % 256 ≡ 0 = omega (arith, green) in
      let red_part : bit_and new 16711680 % 256 ≡ 0 = omega (arith, red) in
      elim (Bool-cases (color_of c == old)) [
        | inl e ↦
            rw (read, e, blue_part, green_part, red_part)
              (write_pixel-put (record { blue = new % 256; green = 0; red = 0 }))
        | inr e ↦ rw (read, e) refl
      ]

  pub remove_pixel-blackened :
      (color : ℕ)
      → IsPixel c
      → remove_pixel color p (front ++ put_pixel c rest)
        ≡ some (front ++ put_pixel (blackened color c) rest)
  unfolding remove_pixel
  remove_pixel-blackened color h =
      let read = read_pixel-color h in
      elim (Bool-cases (color_of c == color)) [
        | inl e ↦ rw (read, e) refl
        | inr e ↦ rw (read, e) (write_pixel-put (record { blue = 0; green = 0; red = 0 }))
      ]
