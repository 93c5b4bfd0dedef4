-- ===== src/Libc/Str/Tests.antt =====
-- The string functions at short strings, and the theorems at them.
use longhorn.Base.{ℕ, ◌≡◌, refl, some, List, [], ◌∷◌, arith, pos, negsuc}
use longhorn.Libc.Str.{strncmp, memcmp, memchr, memchr_from}
use longhorn.Libc.Str.Text.{Text, done, more}

-- "aba" and "abc" in a larger block.
abbrev aba : List ℕ
aba = 97 ∷ 98 ∷ 97 ∷ 0 ∷ 7 ∷ []

abbrev abc : List ℕ
abc = 97 ∷ 98 ∷ 99 ∷ 0 ∷ []

abbrev aba_bytes : List ℕ
aba_bytes = 97 ∷ 98 ∷ 97 ∷ []

abbrev abc_bytes : List ℕ
abc_bytes = 97 ∷ 98 ∷ 99 ∷ []

aba-Text : Text aba aba_bytes
aba-Text = more (omega arith) (more (omega arith) (more (omega arith) done))

abc-Text : Text abc abc_bytes
abc-Text = more (omega arith) (more (omega arith) (more (omega arith) done))

-- The first two characters are the same.
strncmp_run : strncmp aba abc 2 ≡ some (negsuc 1)
unfolding strncmp
strncmp_run = refl

-- memcmp looks at the first bytes only, and memchr counts its steps twice.
memcmp_run : memcmp aba abc 3 ≡ some (pos 0)
unfolding memcmp
memcmp_run = refl

memchr_run : memchr abc 98 3 ≡ some (some 2)
unfolding memchr memchr_from
memchr_run = refl
