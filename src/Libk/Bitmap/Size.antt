-- ===== src/Libk/Bitmap/Size.antt =====
-- libk/bitmap.c: num_elems and bitmap_set_all.
use longhorn.Base.{
  ◌⊎◌, inl, inr, Bool-cases, ltb→lt, ltb→le, ℕ, zero, suc, ◌+◌, ◌*◌, ◌/◌, ◌%◌, ◌^◌, ◌<◌, ◌≤◌, ◌≡◌,
  refl, Bool, true, false, some, none, leb, ltb, ◌&&◌, ◌==◌, if◌then◌else◌, arith, length,
  length-set, get_or, get_or-set, set, ◌∙◌, bit, bit-zero, bit-complement,
}
use longhorn.Libk.Bitmap.{Bitmap, num_elems, fill_from, bitmap_set_all, complement}
use longhorn.Libk.Bitmap.Element.{holds}

num_elems_lem : (n : ℕ) → n < 2 ^ 31 → num_elems n ≡ 2 * (n / 32)
unfolding num_elems
num_elems_lem n h = omega arith

fill_from_lem :
    (i rounds v : ℕ) (m : Bitmap)
    → i + rounds ≤ length m.map_p
    → (m' : Bitmap) × (fill_from i rounds v m ≡ some m')
      × (m'.bits ≡ m.bits)
      × (length m'.map_p ≡ length m.map_p)
      × ((k : ℕ)
          → get_or m'.map_p k 0 ≡ (if leb i k && ltb k (i + rounds) then v else get_or m.map_p k 0))
unfolding fill_from
fill_from_lem i zero v m h = (m, refl, refl, refl, λ k. ground arith)
fill_from_lem i (suc rounds) v m h =
    let (m', run, bits, len, cells) =
      fill_from_lem (i + 1) rounds v (record m { map_p = set m.map_p i v }) (omega (arith, keep)) in
    (
      m',
      ground (arith, run),
      bits,
      len ∙ keep,
      λ k. ground (arith, cells k, get_or-set m.map_p i k v 0),
    )
  where
    keep : length (set m.map_p i v) ≡ length m.map_p
    keep = length-set m.map_p i v

fill_from-none :
    (i rounds v : ℕ) (m : Bitmap)
    → 0 < rounds
    → length m.map_p < i + rounds
    → fill_from i rounds v m ≡ none
unfolding fill_from
fill_from-none i zero v m h k = absurd (omega arith)
fill_from-none i (suc zero) v m h k = ground arith
fill_from-none i (suc (suc rounds)) v m h k = ground (
  arith,
  fill_from-none (i + 1) (suc rounds) v (record m { map_p = set m.map_p i v }),
  length-set m.map_p i v,
)

bit_of_all : (val : Bool) (k : ℕ) → k < 32 → (bit (if val then complement 0 else 0) k == 1) ≡ val
bit_of_all true k h = ground (arith, bit-complement 32 k 0, bit-zero k)
bit_of_all false k h = ground (arith, bit-zero k)

holds_of_elem :
    (m : Bitmap) (val : Bool) (j : ℕ)
    → get_or m.map_p (j / 32) 0 ≡ (if val then complement 0 else 0)
    → holds m j ≡ val
holds_of_elem m val j e = rw e (bit_of_all val (j % 32) (omega arith))

if_inside : (n k a b : ℕ) → k < n → (if leb 0 k && ltb k (0 + n) then a else b) ≡ a
if_inside n k a b h = ground arith

-- bitmap_set_all, for a map of 32 bits or more and fewer than 2^31, writes twice the whole elements
-- of the map: with that much memory it gives every bit the value, and with less it writes out of
-- bounds.
pub bitmap_set_all_lem :
    (m : Bitmap) (val : Bool)
    → 32 ≤ m.bits
    → m.bits < 2 ^ 31
    → ((2 * (m.bits / 32) ≤ length m.map_p)
        × ((m' : Bitmap) × (bitmap_set_all m val ≡ some m')
            × (m'.bits ≡ m.bits)
            × ((j : ℕ) → j < m.bits → holds m' j ≡ val)))
      ⊎ ((length m.map_p < 2 * (m.bits / 32)) × (bitmap_set_all m val ≡ none))
unfolding bitmap_set_all
bitmap_set_all_lem m val lo hi = elim (Bool-cases (ltb (length m.map_p) (2 * (m.bits / 32)))) [
  | inl e ↦ inr (ltb→lt _ _ e, short (ltb→lt _ _ e))
  | inr e ↦ inl (ltb→le _ _ e, enough (ltb→le _ _ e))
]
  where
    elem : ℕ
    elem = if val then complement 0 else 0

    enough :
        2 * (m.bits / 32) ≤ length m.map_p
        → (m' : Bitmap) × (fill_from 0 (num_elems m.bits) elem m ≡ some m')
          × (m'.bits ≡ m.bits)
          × ((j : ℕ) → j < m.bits → holds m' j ≡ val)
    enough room =
        let (m', run, bits, len, cells) =
          fill_from_lem 0 (num_elems m.bits) elem m (omega (arith, num_elems_lem m.bits hi)) in
        (
          m',
          run,
          bits,
          λ j h. holds_of_elem m' val j (
              cells (j / 32)
              ∙ if_inside (num_elems m.bits) (j / 32) elem _
                  (omega (arith, num_elems_lem m.bits hi))),
        )

    short : length m.map_p < 2 * (m.bits / 32) → fill_from 0 (num_elems m.bits) elem m ≡ none
    short less =
        fill_from-none 0 (num_elems m.bits) elem m (omega (arith, num_elems_lem m.bits hi))
          (omega (arith, num_elems_lem m.bits hi))
