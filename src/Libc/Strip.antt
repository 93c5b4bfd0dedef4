-- ===== src/Libc/Strip.antt =====
-- libc/string.c, strstr, trim, strim and int_to_hexstring. A string is the list of the bytes from its
-- address to the end of its block, as in Libc/Str; a pointer into it is its offset, and NULL is none.
pub mod Substring
pub mod Spaces
mod Tests
use longhorn.Base.{
  ℕ, zero, suc, ◌+◌, ◌-◌, ◌/◌, ◌%◌, Bool, true, false, ltb, leb, Option, none, some, List, [], ◌∷◌,
  ◌==◌, if◌then◌else◌, ◌>>=◌, ℤ, pos, negsuc, neg, get_elem?, store, drop, length,
}
use longhorn.Libc.Str.{strlen}
use longhorn.Libc.Edit.{reverse, is_above_zero}

-- The inner loop of strstr, on `str1 + i + j` and `str2 + j`: `j` at its end, and `str2[j] == '\0'`.
unfoldable pub match_from : ℕ → List ℕ → List ℕ → Option (ℕ × Bool)
match_from j [] str2 = none
match_from j (a ∷ str1) [] = none
match_from j (a ∷ str1) (b ∷ str2) =
    let rest = match_from (j + 1) str1 str2 in
    if a == 0
    then some (j, b == 0)
    else (if b == 0 then some (j, true) else (if a == b then rest else some (j, false)))

-- How a search ends: a read behind a block, NULL, or the offset of the match.
pub data Found : Type 0 where
  fault : Found
  missing : Found
  place : ℕ → Found

-- The outer one, on `str1 + i` and on fuel; it is `none` when the fuel runs out, and only then.
unfoldable pub strstr_from : ℕ → ℕ → List ℕ → List ℕ → Option Found
unfolding match_from
strstr_from zero i str1 str2 = none
strstr_from (suc fuel) i [] str2 = some fault
strstr_from (suc fuel) i (c ∷ str1) str2 =
    if c == 0 then some missing else elim (match_from 0 (c ∷ str1) str2) [
      | none ↦ some fault
      | some (j, found) ↦
          let rest = strstr_from fuel (i + j + 1) (drop j str1) str2 in
          if found then some (place i) else rest
    ]

-- Each round takes a byte of `str1` or more.
unfoldable pub strstr : List ℕ → List ℕ → Option Found
unfolding strstr_from
strstr str1 str2 = strstr_from (suc (length str1)) 0 str1 str2

-- `while (i < strlen(str) && str[i] == ' ') i++`, with the rounds left.
unfoldable pub skip_front : ℕ → ℕ → List ℕ → Option ℕ
skip_front i zero str = some i
skip_front i (suc rounds) str = do
  c ← get_elem? str i
  let rest = skip_front (i + 1) rounds str
  if c == 32 then rest else some i

-- `while (j >= 0 && str[j] == ' ') j--`, for `j + 1`.
unfoldable pub skip_back : ℕ → List ℕ → Option ℕ
skip_back zero str = some 0
skip_back (suc j) str = do
  c ← get_elem? str j
  let rest = skip_back j str
  if c == 32 then rest else some (suc j)

-- `i`, and `j + 1`.
unfoldable pub bounds : List ℕ → Option (ℕ × ℕ)
unfolding skip_front skip_back
bounds str = do len ← strlen str; i ← skip_front 0 len str; j ← skip_back len str; some (i, j)

-- The offset of the returned pointer, and the memory.
unfoldable pub trim : List ℕ → Option (ℕ × List ℕ)
unfolding bounds
trim str = do
  (i, j) ← bounds str
  if leb j (i + 1)
      then (do str' ← store str 0 0; some (0, str'))
      else (do str' ← store str j 0; some (i, str'))

-- `for (k = 0; i <= j; k++, i++) buf[k] = str[i]`, with the rounds left.
unfoldable pub strim_from : ℕ → ℕ → ℕ → List ℕ → List ℕ → Option (ℕ × List ℕ)
strim_from k i zero str buf = some (k, buf)
strim_from k i (suc rounds) str buf = do
  c ← get_elem? str i
  buf' ← store buf k c
  strim_from (k + 1) (i + 1) rounds str buf'

-- The buffer, or none when NULL is returned.
unfoldable pub strim : List ℕ → List ℕ → Option (Option (List ℕ))
unfolding bounds strim_from
strim str buf = do
  (i, j) ← bounds str
  if leb j (i + 1) then some none else (do
    (k, buf') ← strim_from 0 i (j - i) str buf
    buf'' ← store buf' k 0
    some (some buf''))

-- A digit of int_to_hexstring, and `num / 16` rounded towards 0. A remainder of a negative number is
-- not above 9, and the byte that is stored is `'0'` less it.
abbrev pub hex_digit : ℤ → ℕ
hex_digit (pos n) = if leb 10 (n % 16) then (n - 10) % 16 + 97 else n % 16 + 48
hex_digit (negsuc n) = 48 - suc n % 16

abbrev pub sixteenth : ℤ → ℤ
sixteenth (pos n) = pos (n / 16)
sixteenth (negsuc n) = neg (suc n / 16)

-- The `do` loop, on fuel.
unfoldable pub hex_from : ℕ → ℕ → ℤ → List ℕ → Option (ℕ × List ℕ)
hex_from zero i num str = none
hex_from (suc fuel) i num str = do
  str' ← store str i (hex_digit num)
  let rest = hex_from fuel (i + 1) (sixteenth num) str'
  if is_above_zero (sixteenth num) then rest else some (i + 1, str')

-- `str` is the static buffer of 32 bytes; a number of 32 bits has at most eight digits.
unfoldable pub int_to_hexstring : ℤ → List ℕ → Option (List ℕ)
unfolding hex_from reverse
int_to_hexstring n str = do
  (i, str₁) ← hex_from 8 0 n str
  str₂ ← store str₁ i 120
  str₃ ← store str₂ (i + 1) 48
  str₄ ← store str₃ (i + 2) 0
  reverse str₄
