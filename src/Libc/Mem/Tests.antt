-- ===== src/Libc/Mem/Tests.antt =====
-- The memory functions at a block of eight bytes, and the theorems at it.
use longhorn.Base.{ℕ, ◌≡◌, refl, some, List, [], ◌∷◌}
use longhorn.Libc.Mem.{memcpy, memmove, memmove_down, memcpy_from}

abbrev block : List ℕ
block = 1 ∷ 2 ∷ 3 ∷ 4 ∷ 5 ∷ 6 ∷ 7 ∷ 8 ∷ []

memmove_run : memmove 3 1 4 block ≡ some (1 ∷ 2 ∷ 3 ∷ 2 ∷ 3 ∷ 4 ∷ 5 ∷ 8 ∷ [])
unfolding memmove memcpy memcpy_from memmove_down
memmove_run = refl

memcpy_overlap_run : memcpy 3 1 4 block ≡ some (1 ∷ 2 ∷ 3 ∷ 2 ∷ 3 ∷ 2 ∷ 3 ∷ 8 ∷ [])
unfolding memcpy memcpy_from
memcpy_overlap_run = refl
