-- ===== src/Libc/Mem.antt =====
-- libc/memcpy.c, libc/memmove.c and libc/memset.c, on one block of memory. A pointer is an index
-- into the block, an access outside it is `none`, and the block is smaller than 2^32 bytes, so that
-- no sum of a pointer and an index wraps. Each function returns its first argument, which the model
-- leaves out, and the block as it is afterwards.
pub mod Copy
mod Tests
use longhorn.Base.{
  ℕ, zero, suc, ◌+◌, ◌%◌, Option, some, List, ltb, if◌then◌else◌, ◌>>=◌, get_elem?, store,
}

-- `for (i = 0; i < n; i++) dest_char[i] = src_char[i]`, with the rounds left.
unfoldable pub memcpy_from : ℕ → ℕ → ℕ → ℕ → List ℕ → Option (List ℕ)
memcpy_from i zero dest src mem = some mem
memcpy_from i (suc rounds) dest src mem = do
  c ← get_elem? mem (src + i)
  mem' ← store mem (dest + i) c
  memcpy_from (i + 1) rounds dest src mem'

unfoldable pub memcpy : ℕ → ℕ → ℕ → List ℕ → Option (List ℕ)
unfolding memcpy_from
memcpy dest src n mem = memcpy_from 0 n dest src mem

-- `for (i = n; i > 0; i--) d[i - 1] = s[i - 1]`
unfoldable pub memmove_down : ℕ → ℕ → ℕ → List ℕ → Option (List ℕ)
memmove_down zero dest src mem = some mem
memmove_down (suc i) dest src mem = do
  c ← get_elem? mem (src + i)
  mem' ← store mem (dest + i) c
  memmove_down i dest src mem'

unfoldable pub memmove : ℕ → ℕ → ℕ → List ℕ → Option (List ℕ)
unfolding memcpy memmove_down
memmove dest src n mem = if ltb dest src then memcpy dest src n mem else memmove_down n dest src mem

-- `while (i < n) { *d = c; i++; }`: the pointer does not move.
unfoldable pub memset : ℕ → ℕ → ℕ → List ℕ → Option (List ℕ)
memset dest c zero mem = some mem
memset dest c (suc rounds) mem = do mem' ← store mem dest (c % 256); memset dest c rounds mem'
