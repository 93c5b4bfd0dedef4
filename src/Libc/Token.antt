-- ===== src/Libc/Token.antt =====
-- libc/string.c: strtok. The strings of the block are addressed by their index in it; `oldstr` is
-- the static variable of that name.
pub mod Split
mod Tests
use longhorn.Base.{
  ℕ, ◌+◌, Option, none, some, List, ◌==◌, if◌then◌else◌, ◌>>=◌, get_elem?, store, drop,
}
use longhorn.Libc.Str.{strspn, strpbrk, strlen}

-- `if (str == NULL) str = oldstr;`
abbrev pub start_at : Option ℕ → ℕ → ℕ
start_at none oldstr = oldstr
start_at (some str) oldstr = str

-- The part behind the skipped delimiters: the token, the new `oldstr` and the block. The loop that
-- looks for the end of the last token counts as strlen does.
unfoldable pub cut_token : ℕ → List ℕ → List ℕ → Option (Option ℕ × ℕ × List ℕ)
cut_token token delimeters mem = do
  found ← strpbrk (drop token mem) delimeters
  elim found [
    | none ↦ do len ← strlen (drop token mem); some (some token, token + len, mem)
    | some k ↦ do mem' ← store mem (token + k) 0; some (some token, token + k + 1, mem')
  ]

unfoldable pub strtok : Option ℕ → List ℕ → ℕ → List ℕ → Option (Option ℕ × ℕ × List ℕ)
unfolding cut_token
strtok str delimeters oldstr mem = do
  let first = start_at str oldstr
  skipped ← strspn (drop first mem) delimeters
  c ← get_elem? mem (first + skipped)
  if c == 0 then some (none, first + skipped, mem) else cut_token (first + skipped) delimeters mem
