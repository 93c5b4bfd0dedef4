-- ===== src/Libc/Mem/Copy.antt =====
-- libc/memcpy.c, libc/memmove.c and libc/memset.c: what the block holds afterwards.
use longhorn.Base.{
  ℕ, zero, suc, ◌+◌, ◌-◌, ◌%◌, ◌<◌, ◌≤◌, ◌≡◌, ◌⊎◌, inl, inr, refl, ◌∙◌, true, ◌&&◌, some, List, leb,
  ltb, ltb→le, ltb→lt, lt→ltb, if◌then◌else◌, arith, length, set, get_or, length-set, get_or-set,
  get_elem?-eq-get_or, get_elem?, ap, subst, set-set, Bool-cases,
}
use longhorn.Libc.Mem.{memcpy_from, memcpy, memmove_down, memmove, memset}

-- `mem'` is `mem` with the bytes at `src + i`, for `lo ≤ i < hi`, copied to `dest + i`.
pub record IsCopied (mem mem' : List ℕ) (dest src lo hi : ℕ) : Type 0 where
  pub same_length : length mem' ≡ length mem
  pub cells :
      (j : ℕ)
      → get_or mem' j 0 ≡ (
          if leb (dest + lo) j && ltb j (dest + hi)
          then get_or mem (src + (j - dest)) 0
          else get_or mem j 0)

IsCopied-nothing : (mem : List ℕ) (dest src lo : ℕ) → IsCopied mem mem dest src lo lo
IsCopied-nothing mem dest src lo = record { same_length = refl; cells = λ j. ground arith }

-- A byte outside what was written is still what it was.
unwritten :
    {mem mem' : List ℕ} {dest src lo hi : ℕ} (j : ℕ)
    → IsCopied mem mem' dest src lo hi
    → (j < dest + lo) ⊎ (dest + hi ≤ j)
    → get_or mem' j 0 ≡ get_or mem j 0
unwritten j c out = ground (arith, c.cells j, out)

IsCopied-up :
    {mem mem' : List ℕ} {dest src lo hi : ℕ}
    → IsCopied mem mem' dest src lo hi
    → lo ≤ hi
    → dest + hi < length mem
    → IsCopied mem (set mem' (dest + hi) (get_or mem (src + hi) 0)) dest src lo (suc hi)
IsCopied-up {mem} {mem'} {dest} {src} {lo} {hi} c le room = record {
  same_length = length-set mem' (dest + hi) _ ∙ c.same_length;
  cells = λ j. ground (
    arith,
    get_or-set mem' (dest + hi) j (get_or mem (src + hi) 0) 0 (omega (arith, c.same_length)),
    c.cells j,
  );
}

IsCopied-down :
    {mem mem' : List ℕ} {dest src lo hi : ℕ}
    → IsCopied mem mem' dest src (suc lo) hi
    → suc lo ≤ hi
    → dest + lo < length mem
    → IsCopied mem (set mem' (dest + lo) (get_or mem (src + lo) 0)) dest src lo hi
IsCopied-down {mem} {mem'} {dest} {src} {lo} {hi} c le room = record {
  same_length = length-set mem' (dest + lo) _ ∙ c.same_length;
  cells = λ j. ground (
    arith,
    get_or-set mem' (dest + lo) j (get_or mem (src + lo) 0) 0 (omega (arith, c.same_length)),
    c.cells j,
  );
}

memcpy_from-IsCopied :
    (i rounds dest src : ℕ) (mem mem' : List ℕ)
    → IsCopied mem mem' dest src 0 i
    → dest + (i + rounds) ≤ length mem
    → src + (i + rounds) ≤ length mem
    → (dest ≤ src) ⊎ (src + (i + rounds) ≤ dest)
    → (end : List ℕ) × (memcpy_from i rounds dest src mem' ≡ some end)
      × IsCopied mem end dest src 0 (i + rounds)
unfolding memcpy_from
memcpy_from-IsCopied i zero dest src mem mem' c d s apart =
    (mem', refl, subst (IsCopied mem mem' dest src 0) (omega arith) c)
memcpy_from-IsCopied i (suc rounds) dest src mem mem' c d s apart =
    let byte : get_elem? mem' (src + i) ≡ some (get_or mem (src + i) 0) =
      get_elem?-eq-get_or mem' (src + i) 0 (omega (arith, c.same_length))
      ∙ ap some (unwritten (src + i) c (ground arith)) in
    let fits : ltb (dest + i) (length mem') ≡ true = lt→ltb _ _ (omega (arith, c.same_length)) in
    let (end, run, copied) =
      memcpy_from-IsCopied (i + 1) rounds dest src mem _
        (subst (IsCopied mem _ dest src 0) (omega arith)
          (IsCopied-up c (omega arith) (omega arith)))
        (omega arith) (omega arith) (ground arith) in
    (end, rw (byte, fits) run, subst (IsCopied mem end dest src 0) (omega arith) copied)

memmove_down-IsCopied :
    (i n dest src : ℕ) (mem mem' : List ℕ)
    → IsCopied mem mem' dest src i n
    → i ≤ n
    → dest + n ≤ length mem
    → src ≤ dest
    → (end : List ℕ) × (memmove_down i dest src mem' ≡ some end) × IsCopied mem end dest src 0 n
unfolding memmove_down
memmove_down-IsCopied zero n dest src mem mem' c le d s = (mem', refl, c)
memmove_down-IsCopied (suc i) n dest src mem mem' c le d s =
    let byte : get_elem? mem' (src + i) ≡ some (get_or mem (src + i) 0) =
      get_elem?-eq-get_or mem' (src + i) 0 (omega (arith, c.same_length))
      ∙ ap some (unwritten (src + i) c (inl (omega arith))) in
    let fits : ltb (dest + i) (length mem') ≡ true = lt→ltb _ _ (omega (arith, c.same_length)) in
    let (end, run, copied) =
      memmove_down-IsCopied i n dest src mem _ (IsCopied-down c (omega arith) (omega arith))
        (omega arith) (omega arith) s in
    (end, rw (byte, fits) run, copied)

-- memcpy copies `n` bytes within the block, if what it reads does not lie in what it has written.
pub memcpy-IsCopied :
    (dest src n : ℕ) (mem : List ℕ)
    → dest + n ≤ length mem
    → src + n ≤ length mem
    → (dest ≤ src) ⊎ (src + n ≤ dest)
    → (end : List ℕ) × (memcpy dest src n mem ≡ some end) × IsCopied mem end dest src 0 n
unfolding memcpy
memcpy-IsCopied dest src n mem d s apart =
    let (end, run, copied) =
      memcpy_from-IsCopied 0 n dest src mem mem (IsCopied-nothing mem dest src 0) (omega arith)
        (omega arith) (ground arith) in
    (end, run, subst (IsCopied mem end dest src 0) (omega arith) copied)

-- memmove copies `n` bytes within the block, whether or not the two areas overlap, if both lie in
-- the block, and changes no other byte.
pub memmove-IsCopied :
    (dest src n : ℕ) (mem : List ℕ)
    → dest + n ≤ length mem
    → src + n ≤ length mem
    → (end : List ℕ) × (memmove dest src n mem ≡ some end) × IsCopied mem end dest src 0 n
unfolding memmove
memmove-IsCopied dest src n mem d s = elim (Bool-cases (ltb dest src)) [
  | inl e ↦
      let lt : dest < src = ltb→lt dest src e in
      rw e (memcpy-IsCopied dest src n mem d s (inl (omega arith)))
  | inr e ↦ rw e (
      memmove_down-IsCopied n n dest src mem mem (IsCopied-nothing mem dest src n) (omega arith) d
        (ltb→le dest src e))
]

memset-again :
    (dest c n : ℕ) (mem : List ℕ)
    → dest < length mem
    → memset dest c n (set mem dest (c % 256)) ≡ some (set mem dest (c % 256))
unfolding memset
memset-again dest c zero mem h = refl
memset-again dest c (suc n) mem h =
    let fits : ltb dest (length (set mem dest (c % 256))) ≡ true =
      lt→ltb _ _ (omega (arith, length-set mem dest (c % 256))) in
    rw (fits, set-set mem dest (c % 256)) (memset-again dest c n mem h)

-- memset of one byte or more, at a place within the block, writes its byte to that place only,
-- whatever the count.
pub memset-first :
    (dest c n : ℕ) (mem : List ℕ)
    → dest < length mem
    → 0 < n
    → memset dest c n mem ≡ some (set mem dest (c % 256))
unfolding memset
memset-first dest c zero mem h k = absurd (omega arith)
memset-first dest c (suc n) mem h k =
    let fits : ltb dest (length mem) ≡ true = lt→ltb _ _ h in rw fits (memset-again dest c n mem h)
