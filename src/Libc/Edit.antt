-- ===== src/Libc/Edit.antt =====
-- libc/string.c, the functions that write strings. A string is the list of the bytes from its
-- address to the end of its block, as in Libc/Str.
pub mod Reverse
pub mod Decimal
mod Tests
use longhorn.Base.{
  ℕ, zero, suc, ◌+◌, Option, some, List, ltb, if◌then◌else◌, ◌>>=◌, get_elem?, store, none, ◌-◌,
  ◌/◌, ◌%◌, ℤ, pos, negsuc, neg, Bool, false,
}
use longhorn.Libc.Str.{strlen}

-- `for (i = 0, j = strlen(str) - 1; i < j; i++, j--)`: the second argument is `j + 1`, which is 0 for
-- the empty string.
unfoldable pub reverse_from : ℕ → ℕ → List ℕ → Option (List ℕ)
reverse_from i zero str = some str
reverse_from i (suc j) str =
    if ltb i j
    then (do
      temp ← get_elem? str i
      c ← get_elem? str j
      str₁ ← store str i c
      str₂ ← store str₁ j temp
      reverse_from (i + 1) j str₂)
    else some str

unfoldable pub reverse : List ℕ → Option (List ℕ)
unfolding reverse_from
reverse str = do len ← strlen str; reverse_from 0 len str

-- `num % 10 + '0'` and `num / 10` on an `int`: both round towards 0.
abbrev pub digit : ℤ → ℕ
digit (pos n) = n % 10 + 48
digit (negsuc n) = 48 - suc n % 10

abbrev pub tenth : ℤ → ℤ
tenth (pos n) = pos (n / 10)
tenth (negsuc n) = neg (suc n / 10)

abbrev pub is_above_zero : ℤ → Bool
is_above_zero (pos n) = ltb 0 n
is_above_zero (negsuc n) = false

-- `do { str[i++] = num % 10 + '0'; } while ((num /= 10) > 0)`, on fuel: `i` at its end, and the
-- buffer.
unfoldable pub digits_from : ℕ → ℕ → ℤ → List ℕ → Option (ℕ × List ℕ)
digits_from zero i num str = none
digits_from (suc fuel) i num str = do
  str' ← store str i (digit num)
  let rest = digits_from fuel (i + 1) (tenth num) str'
  if is_above_zero (tenth num) then rest else some (i + 1, str')

-- `str` is the static buffer of 32 bytes; a number of 32 bits has at most ten digits.
unfoldable pub int_to_string : ℤ → List ℕ → Option (List ℕ)
unfolding digits_from reverse
int_to_string n str = do (i, str₁) ← digits_from 10 0 n str; str₂ ← store str₁ i 0; reverse str₂
