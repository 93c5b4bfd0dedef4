-- ===== src/Drivers/Bmp/Header.antt =====
-- drivers/bmp.c: read_bmp_header, against a writer of the file format.
use longhorn.Base.{
  ℕ, ◌+◌, ◌*◌, ◌/◌, ◌%◌, ◌≡◌, refl, ltb, none, some, List, ◌∷◌, arith, if◌then◌else◌, pos, neg,
  Bool-cases, inl, inr,
}
use longhorn.Drivers.Bmp.{
  BmpHeader, BmpInfoHeader, BmpFileHeader, get_u16, get_u32, read_first, read_info, read_bmp_header,
}

-- A number in two and in four bytes, the lowest first, in front of the bytes `rest`.
abbrev pub put_u16 : ℕ → List ℕ → List ℕ
put_u16 n rest = n % 256 ∷ n / 256 ∷ rest

abbrev pub put_u32 : ℕ → List ℕ → List ℕ
put_u32 n rest = put_u16 (n % 65536) (put_u16 (n / 65536) rest)

-- The format: the fields of the two headers one after the other, and then the pixels.
abbrev pub file_of : BmpHeader → BmpInfoHeader → List ℕ → List ℕ
file_of h info pixels = put_u16 h.signature (
    put_u32 h.file_size (
      put_u32 h.reserved (
        put_u32 h.data_offset (
          put_u32 info.size (
            put_u32 info.width (
              put_u32 info.height (
                put_u16 info.planes (
                  put_u16 info.bpp (
                    put_u32 info.compression (
                      put_u32 info.image_size (
                        put_u32 info.x_pixels_pm (
                          put_u32 info.y_pixels_pm (
                            put_u32 info.colors_used
                              (put_u32 info.important_colors pixels))))))))))))))

word16 : (n : ℕ) → n % 256 + 256 * (n / 256) ≡ n
word16 n = omega arith

word32 :
    (n : ℕ)
    → n % 65536 % 256
        + 256 * (n % 65536 / 256)
        + 65536 * (n / 65536 % 256 + 256 * (n / 65536 / 256))
      ≡ n
word32 n = omega arith

read_first_lem :
    (h : BmpHeader) (info : BmpInfoHeader) (pixels : List ℕ) (buf : BmpHeader)
    → read_first (file_of h info pixels) buf
      ≡ some (record buf {
        signature = h.signature;
        file_size = h.file_size;
        data_offset = h.data_offset;
      })
unfolding read_first get_u16 get_u32
read_first_lem h info pixels buf =
    rw (word16 h.signature, word32 h.file_size, word32 h.data_offset) refl

read_info_lem :
    (h : BmpHeader) (info : BmpInfoHeader) (pixels : List ℕ)
    → read_info (file_of h info pixels) ≡ some info
unfolding read_info get_u16 get_u32
read_info_lem h info pixels =
    rw
      (
        word32 info.size,
        word32 info.width,
        word32 info.height,
        word16 info.planes,
        word16 info.bpp,
        word32 info.compression,
        word32 info.image_size,
        word32 info.x_pixels_pm,
        word32 info.y_pixels_pm,
        word32 info.colors_used,
        word32 info.important_colors,
      )
      refl

-- read_bmp_header from what its two parts read.
header-run :
    (file : List ℕ) (h : BmpHeader) (info : BmpInfoHeader) (buf : BmpFileHeader)
    → read_first file buf.header ≡ some h
    → read_info file ≡ some info
    → read_bmp_header file buf
      ≡ some (
          if ltb h.file_size 56
          then (neg 1, record buf { header = h; image = none })
          else (if ltb info.bpp 24
              then (neg 1, record buf { header = h; info_header = info; image = none })
              else (
                pos 57,
                record { header = h; info_header = info; color_table = none; image = some 54 },
              )))
unfolding read_bmp_header
header-run file h info buf first second = elim (Bool-cases (ltb h.file_size 56)) [
  | inl e ↦ rw (first, e) refl
  | inr e ↦ elim (Bool-cases (ltb info.bpp 24)) [
    | inl e' ↦ rw (first, e, second, e') refl
    | inr e' ↦ rw (first, e, second, e') refl
  ]
]

-- read_bmp_header of a file in that format reads back every field but the reserved one, which keeps
-- its value in `buf`. It returns -1 with no pixels for a file of fewer than 56 bytes, whose second
-- header it does not read, and for fewer than 24 bits per pixel; else it returns 57, the place of the
-- pixels is behind the 54 bytes of the headers, and there is no color table.
pub read_bmp_header-file_of :
    (h : BmpHeader) (info : BmpInfoHeader) (pixels : List ℕ) (buf : BmpFileHeader)
    → read_bmp_header (file_of h info pixels) buf
      ≡ some (
          if ltb h.file_size 56
          then (
            neg 1,
            record buf { header = record h { reserved = buf.header.reserved }; image = none },
          )
          else (if ltb info.bpp 24
              then (
                neg 1,
                record buf {
                  header = record h { reserved = buf.header.reserved };
                  info_header = info;
                  image = none;
                },
              )
              else (
                pos 57,
                record {
                  header = record h { reserved = buf.header.reserved };
                  info_header = info;
                  color_table = none;
                  image = some 54;
                },
              )))
read_bmp_header-file_of h info pixels buf =
    header-run (file_of h info pixels) (record h { reserved = buf.header.reserved }) info buf
      (read_first_lem h info pixels buf.header) (read_info_lem h info pixels)
