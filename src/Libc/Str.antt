-- ===== src/Libc/Str.antt =====
-- libc/string.c, the functions that read null-terminated strings, and libc/memcmp.c.
-- A string is the list of the bytes from its address to the end of the memory block that it lies
-- in; a read past the end of the block is `none`. Blocks are shorter than 2^31 bytes, so that the
-- `int` and `size_t` indices of the source count without overflow. A result that is a pointer into
-- the string is the offset from its start, and NULL is `some none`.
pub mod Text
pub mod Compare
pub mod Search
pub mod Span
mod Tests
use longhorn.Base.{
  ℕ, zero, suc, ◌+◌, ◌%◌, Option, none, some, List, [], ◌∷◌, Bool, true, false, not, ◌==◌,
  if◌then◌else◌, ◌>>=◌, ℤ, pos, ◌==ℤ◌, ◌-ℤ◌, char_value, get_elem?,
}

-- `while (str[i] != 0) i++`, from `str + i` on.
unfoldable pub strlen_from : ℕ → List ℕ → Option ℕ
strlen_from i [] = none
strlen_from i (c ∷ cs) = let rest = strlen_from (i + 1) cs in if c == 0 then some i else rest

unfoldable pub strlen : List ℕ → Option ℕ
unfolding strlen_from
strlen str = strlen_from 0 str

-- The loop reads both strings at the same index, so it steps along both.
unfoldable pub strcmp : List ℕ → List ℕ → Option ℤ
strcmp [] str2 = none
strcmp (a ∷ str1) [] = none
strcmp (a ∷ str1) (b ∷ str2) =
    let rest = strcmp str1 str2 in
    if a == b then (if a == 0 then some (pos 0) else rest) else some (char_value a -ℤ char_value b)

-- `n` is what is left of the count.
unfoldable pub strncmp : List ℕ → List ℕ → ℕ → Option ℤ
strncmp [] s2 n = none
strncmp (a ∷ s1) [] n = none
strncmp (a ∷ s1) (b ∷ s2) zero = some (char_value a -ℤ char_value b)
strncmp (a ∷ s1) (b ∷ s2) (suc n) =
    let rest = strncmp s1 s2 n in
    if a == b then (if a == 0 then some (pos 0) else rest) else some (char_value a -ℤ char_value b)

-- `*a - *b != 0` in each of `n` rounds: neither pointer moves.
unfoldable pub memcmp : List ℕ → List ℕ → ℕ → Option ℤ
memcmp p1 p2 zero = some (pos 0)
memcmp p1 p2 (suc n) = do
  a ← get_elem? p1 0
  b ← get_elem? p2 0
  let rest = memcmp p1 p2 n
  if not (char_value a -ℤ char_value b ==ℤ pos 0) then some (char_value a -ℤ char_value b) else rest

-- `str[i] == (unsigned char) c`: a signed character against an unsigned one.
abbrev pub is_char : ℕ → ℕ → Bool
is_char b c = char_value b ==ℤ pos (c % 256)

-- memchr moves its pointer and adds the index to it as well.
unfoldable pub memchr_from : ℕ → ℕ → List ℕ → ℕ → Option (Option ℕ)
memchr_from i zero ptr c = some none
memchr_from i (suc rounds) [] c = none
memchr_from i (suc rounds) (b ∷ ptr) c =
    let rest = memchr_from (i + 1) rounds ptr c in if is_char b c then some (some (i + i)) else rest

unfoldable pub memchr : List ℕ → ℕ → ℕ → Option (Option ℕ)
unfolding memchr_from
memchr ptr c num = memchr_from 0 num ptr c

-- `for (i = 0; i < strlen(str) + 1; i++)`, with the rounds left and the string from `str + i` on.
unfoldable pub strchr_from : ℕ → ℕ → List ℕ → ℕ → Option (Option ℕ)
strchr_from i zero str c = some none
strchr_from i (suc rounds) [] c = none
strchr_from i (suc rounds) (b ∷ str) c =
    let rest = strchr_from (i + 1) rounds str c in if is_char b c then some (some i) else rest

unfoldable pub strchr : List ℕ → ℕ → Option (Option ℕ)
unfolding strchr_from
strchr str c = do len ← strlen str; strchr_from 0 (len + 1) str c

-- `for (i = strlen(str) - 1; i > -1; i--)`: the argument is `i + 1`.
unfoldable pub strrchr_from : ℕ → List ℕ → ℕ → Option (Option ℕ)
strrchr_from zero str c = some none
strrchr_from (suc i) str c = do
  b ← get_elem? str i
  let rest = strrchr_from i str c
  if is_char b c then some (some i) else rest

unfoldable pub strrchr : List ℕ → ℕ → Option (Option ℕ)
unfolding strrchr_from
strrchr str c = do len ← strlen str; strrchr_from len str c

-- The inner loop of strspn: whether it breaks off before the end of `str2`.
unfoldable pub strspn_has : ℕ → List ℕ → Option Bool
strspn_has c [] = none
strspn_has c (d ∷ str2) =
    let rest = strspn_has c str2 in
    if d == 0 then some false else if c == d then some true else rest

unfoldable pub strspn_from : ℕ → List ℕ → List ℕ → Option ℕ
unfolding strspn_has
strspn_from num [] str2 = none
strspn_from num (c ∷ str1) str2 =
    let rest = strspn_from (num + 1) str1 str2 in
    if c == 0
    then some num
    else (do found ← strspn_has c str2; if not found then some num else rest)

unfoldable pub strspn : List ℕ → List ℕ → Option ℕ
unfolding strspn_from
strspn str1 str2 = strspn_from 0 str1 str2

-- The inner loop of strcspn, over the rounds left: the terminator of `str2` counts.
unfoldable pub strcspn_has : ℕ → ℕ → List ℕ → Option Bool
strcspn_has zero c str2 = some false
strcspn_has (suc rounds) c [] = none
strcspn_has (suc rounds) c (d ∷ str2) =
    let rest = strcspn_has rounds c str2 in if c == d then some true else rest

-- The outer loop, over the rounds left: `some none` is a loop that runs to its end.
unfoldable pub strcspn_from : ℕ → ℕ → List ℕ → List ℕ → Option (Option ℕ)
unfolding strcspn_has
strcspn_from i zero str1 str2 = some none
strcspn_from i (suc rounds) [] str2 = none
strcspn_from i (suc rounds) (c ∷ str1) str2 = do
  len2 ← strlen str2
  found ← strcspn_has (len2 + 1) c str2
  let rest = strcspn_from (i + 1) rounds str1 str2
  if found then some (some i) else rest

unfoldable pub strcspn : List ℕ → List ℕ → Option ℕ
unfolding strcspn_from
strcspn str1 str2 = do
  len ← strlen str1
  found ← strcspn_from 0 (len + 1) str1 str2
  elim found [ some i ↦ some i | none ↦ some len ]

-- The inner loop of strpbrk reads `str2` to its terminator, as that of strspn does.
unfoldable pub strpbrk_from : ℕ → List ℕ → List ℕ → Option (Option ℕ)
unfolding strspn_has
strpbrk_from i [] str2 = none
strpbrk_from i (c ∷ str1) str2 =
    let rest = strpbrk_from (i + 1) str1 str2 in
    if c == 0
    then some none
    else (do found ← strspn_has c str2; if found then some (some i) else rest)

unfoldable pub strpbrk : List ℕ → List ℕ → Option (Option ℕ)
unfolding strpbrk_from
strpbrk str1 str2 = strpbrk_from 0 str1 str2
