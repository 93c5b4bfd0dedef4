-- ===== src/Libc/Join/Tests.antt =====
-- Small strings, and the theorems at them.
use longhorn.Base.{ℕ, ◌≡◌, refl, some, List, [], ◌∷◌, arith, length}
use longhorn.Libc.Str.{strlen}
use longhorn.Libc.Str.Text.{Text, done, more, strlen-length}
use longhorn.Libc.Join.{strcat, strncat, strcpy, strncpy, append, to_uppercase}
use longhorn.Libc.Join.Cat.{strcat-Text}
use longhorn.Libc.Join.Copies.{strncpy-padded}

-- "ab" in a block of six bytes, and "c" in one of two.
abbrev ab : List ℕ
ab = 97 ∷ 98 ∷ 0 ∷ 7 ∷ 7 ∷ 7 ∷ []

abbrev just_c : List ℕ
just_c = 99 ∷ 0 ∷ []

ab-Text : Text ab (97 ∷ 98 ∷ [])
ab-Text = more (omega arith) (more (omega arith) done)

just_c-Text : Text just_c (99 ∷ [])
just_c-Text = more (omega arith) done

ab-strlen : strlen ab ≡ some 2
ab-strlen = strlen-length ab-Text

strcat-Text_example :
    (strcat ab just_c ≡ some (97 ∷ 98 ∷ 99 ∷ 0 ∷ 7 ∷ 7 ∷ []))
    × Text (97 ∷ 98 ∷ 99 ∷ 0 ∷ 7 ∷ 7 ∷ []) (97 ∷ 98 ∷ 99 ∷ [])
    × (length {A = ℕ} (97 ∷ 98 ∷ 99 ∷ 0 ∷ 7 ∷ 7 ∷ []) ≡ length ab)
strcat-Text_example = strcat-Text ab-Text just_c-Text (omega arith)

strncpy-padded_example : strncpy ab just_c 3 ≡ some (99 ∷ 0 ∷ 0 ∷ 7 ∷ 7 ∷ 7 ∷ [])
strncpy-padded_example = strncpy-padded 3 ab just_c-Text (omega arith)

-- One byte too many stands behind the terminator that strncat copies.
strncat_two : strncat ab just_c 2 ≡ some (97 ∷ 98 ∷ 99 ∷ 0 ∷ 0 ∷ 7 ∷ [])
unfolding strncat strlen
strncat_two = refl

append_c : append ab 99 ≡ some (97 ∷ 98 ∷ 99 ∷ 0 ∷ 7 ∷ 7 ∷ [])
unfolding append strlen
append_c = refl

strcpy_back : strcpy 3 0 ab ≡ some (97 ∷ 98 ∷ 0 ∷ 97 ∷ 98 ∷ 0 ∷ [])
unfolding strcpy strlen
strcpy_back = refl

-- The buffer keeps what an earlier call left behind the converted bytes.
small_letters : to_uppercase ab (88 ∷ 89 ∷ 90 ∷ 0 ∷ []) ≡ some (65 ∷ 66 ∷ 90 ∷ 0 ∷ [])
unfolding to_uppercase
small_letters = refl
