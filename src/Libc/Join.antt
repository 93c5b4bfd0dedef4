-- ===== src/Libc/Join.antt =====
-- libc/string.c, the functions that copy and join strings. A string is the list of the bytes from its
-- address to the end of its block, as in Libc/Str; the source and the destination are blocks of their
-- own, but for strcpy, whose memcpy works on one block. The returned pointer `dest` is left out.
pub mod Cat
pub mod Copies
mod Tests
use longhorn.Base.{
  ℕ, zero, suc, ◌+◌, ◌-◌, Bool, ◌&&◌, leb, Option, none, some, List, [], ◌∷◌, ◌==◌, if◌then◌else◌,
  ◌>>=◌, ℤ, get_elem?, store, drop,
}
use longhorn.Libc.Str.{strlen, strcmp}
use longhorn.Libc.Mem.{memcpy}

-- `for (i = 0; src[i] != '\0'; i++) dest_end[i] = src[i]` with `p` for `dest_end + i`, which comes back.
unfoldable pub cat_from : ℕ → List ℕ → List ℕ → Option (ℕ × List ℕ)
cat_from p [] dest = none
cat_from p (c ∷ src) dest =
    if c == 0 then some (p, dest) else (do dest' ← store dest p c; cat_from (p + 1) src dest')

unfoldable pub strcat : List ℕ → List ℕ → Option (List ℕ)
unfolding cat_from
strcat dest src = do len ← strlen dest; (p, dest') ← cat_from len src dest; store dest' p 0

-- `for (i = 0; i < num && *src != '\0'; i++)`, with the rounds left: the test reads the first byte.
unfoldable pub ncat_from : List ℕ → ℕ → ℕ → ℕ → List ℕ → Option (ℕ × List ℕ)
ncat_from src i zero p dest = some (p, dest)
ncat_from src i (suc rounds) p dest = do
  first ← get_elem? src 0
  if first == 0 then some (p, dest) else (do
    c ← get_elem? src i
    dest' ← store dest p c
    ncat_from src (i + 1) rounds (p + 1) dest')

unfoldable pub strncat : List ℕ → List ℕ → ℕ → Option (List ℕ)
unfolding ncat_from
strncat dest src num = do
  len ← strlen dest
  (p, dest') ← ncat_from src 0 num len dest
  store dest' p 0

unfoldable pub strcpy : ℕ → ℕ → List ℕ → Option (List ℕ)
unfolding memcpy
strcpy dest src mem = do len ← strlen (drop src mem); memcpy dest src (len + 1) mem

-- The second loop of strncpy.
unfoldable pub pad_from : ℕ → ℕ → List ℕ → Option (List ℕ)
pad_from p zero dest = some dest
pad_from p (suc rounds) dest = do dest' ← store dest p 0; pad_from (p + 1) rounds dest'

-- The first one, with the rounds of both left.
unfoldable pub ncpy_from : ℕ → ℕ → List ℕ → List ℕ → Option (List ℕ)
unfolding pad_from
ncpy_from p zero src dest = some dest
ncpy_from p (suc rounds) [] dest = none
ncpy_from p (suc rounds) (c ∷ src) dest =
    if c == 0
    then pad_from p (suc rounds) dest
    else (do dest' ← store dest p c; ncpy_from (p + 1) rounds src dest')

unfoldable pub strncpy : List ℕ → List ℕ → ℕ → Option (List ℕ)
unfolding ncpy_from
strncpy dest src n = ncpy_from 0 n src dest

unfoldable pub append : List ℕ → ℕ → Option (List ℕ)
append str c = do len ← strlen str; str' ← store str len c; store str' (len + 1) 0

unfoldable pub strcoll : List ℕ → List ℕ → Option ℤ
unfolding strcmp
strcoll str1 str2 = strcmp str1 str2

abbrev pub strxfrm : List ℕ → List ℕ → ℕ → ℕ
strxfrm dest src num = 0

-- `*curr >= 'a' && *curr <= 'z'`; a byte from 128 on is negative.
abbrev pub upper : ℕ → ℕ
upper c = if leb 97 c && leb c 122 then c - 32 else c

unfoldable pub upper_from : ℕ → List ℕ → List ℕ → Option (List ℕ)
upper_from p [] up = none
upper_from p (c ∷ str) up =
    if c == 0 then some up else (do up' ← store up p (upper c); upper_from (p + 1) str up')

-- `up` is the static buffer of 256 bytes.
unfoldable pub to_uppercase : List ℕ → List ℕ → Option (List ℕ)
unfolding upper_from
to_uppercase str up = upper_from 0 str up
