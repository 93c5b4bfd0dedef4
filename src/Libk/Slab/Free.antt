-- ===== src/Libk/Slab/Free.antt =====
-- libk/slab.c: slab_free.
use longhorn.Base.{
  ℕ, zero, suc, ◌+◌, ◌<◌, ◌≤◌, ◌≡◌, ◌≢◌, refl, Bool, true, false, ◌&&◌, leb, ltb, none, some, List,
  [], ◌∷◌, ◌==◌, if◌then◌else◌, pos, get_elem?, get_or, set, length, arith, length-set, get_or-set,
  get_elem?-eq-get_or, lt→ltb, add_u32, mul_u32,
}
use longhorn.Libk.Slab.{
  Slab, SlabAllocator, total_num_slabs, mark_from, find_slab, all_taken, slab_free,
}

abbrev pub no_slab : Slab
no_slab = record { addr = 0; free = false }

-- The slab in a place of the array.
abbrev pub slab_at : List Slab → ℕ → Slab
slab_at cells k = get_or cells k no_slab

pub mark_from-slab_at :
    (i n : ℕ) (free : Bool) (cells : List Slab)
    → i + n ≤ length cells
    → (cells' : List Slab) × (mark_from i n free cells ≡ some cells')
      × ((k : ℕ)
          → slab_at cells' k ≡ (
              if leb i k && ltb k (i + n)
              then record (slab_at cells k) { free = free }
              else slab_at cells k))
unfolding mark_from
mark_from-slab_at i zero free cells h = (cells, refl, λ k. ground arith)
mark_from-slab_at i (suc n) free cells h =
    let here : get_elem? cells i ≡ some (slab_at cells i) =
      get_elem?-eq-get_or cells i no_slab (omega arith) in
    let fits : ltb i (length cells) ≡ true = lt→ltb _ _ (omega arith) in
    let new : Slab = record (slab_at cells i) { free = free } in
    let (cells', run, same) =
      mark_from-slab_at (i + 1) n free (set cells i new) (omega (arith, length-set cells i new)) in
    (
      cells',
      rw (here, fits) run,
      λ k. ground (arith, same k, get_or-set cells i k new no_slab (omega arith)),
    )

find_slab-first :
    (base i addr : ℕ) (cells : List Slab)
    → i < length cells
    → (slab_at cells i).addr ≡ addr
    → ((k : ℕ) → k < i → (slab_at cells k).addr ≢ addr)
    → find_slab base addr cells ≡ some (base + i)
unfolding find_slab
find_slab-first base i addr [] h e ne = absurd (omega arith)
find_slab-first base zero addr (slab ∷ cells) h e ne = ground (arith, e)
find_slab-first base (suc i) addr (slab ∷ cells) h e ne = ground (
  arith,
  ne 0 (omega arith),
  find_slab-first (base + 1) i addr cells (omega arith) e (λ k lt. ne (suc k) (omega arith)),
)

find_slab-missing :
    (base addr : ℕ) (cells : List Slab)
    → ((k : ℕ) → k < length cells → (slab_at cells k).addr ≢ addr)
    → find_slab base addr cells ≡ none
unfolding find_slab
find_slab-missing base addr [] ne = refl
find_slab-missing base addr (slab ∷ cells) ne = ground (
  arith,
  ne 0 (omega arith),
  find_slab-missing (base + 1) addr cells (λ k lt. ne (suc k) (omega arith)),
)

all_taken-true :
    (i n : ℕ) (cells : List Slab)
    → i + n ≤ length cells
    → ((k : ℕ) → i ≤ k → k < i + n → (slab_at cells k).free ≡ false)
    → all_taken i n cells ≡ some true
unfolding all_taken
all_taken-true i zero cells h t = refl
all_taken-true i (suc n) cells h t =
    rw (get_elem?-eq-get_or cells i no_slab (omega arith), t i (omega arith) (omega arith))
      (all_taken-true (i + 1) n cells (omega arith) (λ k lo hi. t k (omega arith) (omega arith)))

-- slab_free of an allocation of `num` slabs that starts with the first slab at the address: it succeeds,
-- and frees these slabs and no other.
pub slab_free-freed :
    (addr num i t : ℕ) (s : SlabAllocator)
    → total_num_slabs s ≡ some (suc t)
    → i < length s.slabs
    → i + num ≤ length s.slabs
    → (slab_at s.slabs i).addr ≡ addr
    → ((k : ℕ) → k < i → (slab_at s.slabs k).addr ≢ addr)
    → ((k : ℕ) → i ≤ k → k < i + num → (slab_at s.slabs k).free ≡ false)
    → (s' : SlabAllocator) × (slab_free addr num s ≡ some (pos 0, s'))
      × ((k : ℕ)
          → slab_at s'.slabs k ≡ (
              if leb i k && ltb k (i + num)
              then record (slab_at s.slabs k) { free = true }
              else slab_at s.slabs k))
      × (s'.free_mem_size ≡ add_u32 s.free_mem_size (mul_u32 num s.slab_size))
unfolding slab_free
slab_free-freed addr num i t s total inside fits e first taken =
    let (cells', run, same) = mark_from-slab_at i num true s.slabs fits in
    let some_slabs : (suc t == 0) ≡ false = ground arith in
    (
      record s {
        slabs = cells';
        free_mem_size = add_u32 s.free_mem_size (mul_u32 num s.slab_size);
      },
      rw
          (
            total,
            some_slabs,
            find_slab-first 0 i addr s.slabs inside e first,
            ap_zero i,
            all_taken-true i num s.slabs fits taken,
            run,
          )
          refl,
      same,
      refl,
    )
  where
    ap_zero : (n : ℕ) → 0 + n ≡ n
    ap_zero n = omega arith

-- slab_free of an address that no slab has does not fail as it should: it reads on behind the array.
pub slab_free-missing :
    (addr num t : ℕ) (s : SlabAllocator)
    → total_num_slabs s ≡ some (suc t)
    → ((k : ℕ) → k < length s.slabs → (slab_at s.slabs k).addr ≢ addr)
    → slab_free addr num s ≡ none
unfolding slab_free
slab_free-missing addr num t s total ne =
    let some_slabs : (suc t == 0) ≡ false = ground arith in
    rw (total, some_slabs, find_slab-missing 0 addr s.slabs ne) refl
