-- ===== src/Libc/Edit/Tests.antt =====
-- The functions that write strings at short strings, and the theorems at them.
use longhorn.Base.{
  ℕ, ◌≡◌, ◌<◌, ◌≤◌, refl, some, List, [], ◌∷◌, arith, pos, negsuc, get_or, replicate, ◌>>=◌, take,
}
use longhorn.Libc.Str.{strlen, strlen_from}
use longhorn.Libc.Str.Text.{Text, done, more}
use longhorn.Libc.Edit.{reverse, reverse_from, int_to_string, digits_from}
use longhorn.Libc.Edit.Decimal.{number, int_to_string-number}

abbrev abc : List ℕ
abc = 97 ∷ 98 ∷ 99 ∷ 0 ∷ 7 ∷ []

abc-Text : Text abc (97 ∷ 98 ∷ 99 ∷ [])
abc-Text = more (omega arith) (more (omega arith) (more (omega arith) done))

abbrev buffer : List ℕ
buffer = replicate 32 0

int_to_string-number_example :
    (len : ℕ) × (end : List ℕ) × (int_to_string (pos 4096) buffer ≡ some end)
    × (strlen end ≡ some len)
    × (0 < len)
    × ((k : ℕ) → k < len → (48 ≤ get_or end k 0) × (get_or end k 0 ≤ 57))
    × (number end len ≡ 4096)
int_to_string-number_example = int_to_string-number 4096 buffer (omega arith) refl

reverse_run : reverse abc ≡ some (99 ∷ 98 ∷ 97 ∷ 0 ∷ 7 ∷ [])
unfolding reverse reverse_from strlen strlen_from
reverse_run = refl

int_to_string_run :
    (do s ← int_to_string (pos 120) buffer; some (take 4 s)) ≡ some (49 ∷ 50 ∷ 48 ∷ 0 ∷ [])
unfolding int_to_string digits_from reverse reverse_from strlen strlen_from
int_to_string_run = refl

-- Of -5 it makes the string "+".
int_to_string_negative_run :
    (do s ← int_to_string (negsuc 4) buffer; some (take 2 s)) ≡ some (43 ∷ 0 ∷ [])
unfolding int_to_string digits_from reverse reverse_from strlen strlen_from
int_to_string_negative_run = refl
