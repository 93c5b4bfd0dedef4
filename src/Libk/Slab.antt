-- ===== src/Libk/Slab.antt =====
-- libk/slab.c: an allocator of slabs. `slabs` is the bookkeeping array at the start of the allocator's
-- memory; an access behind it is `none`, and so is a division by a slab size of 0. An address is a
-- number, and the memory ends below 2^32.
pub mod Free
pub mod Alloc
mod Tests
use longhorn.Base.{
  ℕ, zero, suc, ◌+◌, ◌*◌, ◌/◌, Bool, true, false, not, ◌&&◌, ltb, Option, none, some, List, [], ◌∷◌,
  ◌==◌, if◌then◌else◌, ◌>>=◌, ℤ, pos, neg, get_elem?, store, add_u32, sub_u32, mul_u32,
}

abbrev pub slab_init_fail : ℕ
slab_init_fail = 2

abbrev pub slab_free_fail : ℕ
slab_free_fail = 1

-- `sizeof(struct slab)`
abbrev pub slab_bytes : ℕ
slab_bytes = 8

pub record Slab : Type 0 where
  pub addr : ℕ
  pub free : Bool

pub record SlabAllocator : Type 0 where
  pub mem : ℕ
  pub mem_size : ℕ
  pub free_mem_size : ℕ
  pub slab_size : ℕ
  pub slabs : List Slab

-- `a / b` on `size_t`.
abbrev pub quotient : ℕ → ℕ → Option ℕ
quotient a zero = none
quotient a (suc b) = some (a / suc b)

-- How many slabs the allocator takes itself to have.
unfoldable pub total_num_slabs : SlabAllocator → Option ℕ
total_num_slabs s = do
  n ← quotient s.mem_size s.slab_size
  some (mul_u32 n s.slab_size / slab_bytes)

-- The inner loop of slab_alloc: how many of the next `n` slabs are free, up to one that is not.
unfoldable pub free_run : ℕ → ℕ → List Slab → Option ℕ
free_run i zero cells = some 0
free_run i (suc n) cells = do
  slab ← get_elem? cells i
  if slab.free then (do j ← free_run (i + 1) n cells; some (suc j)) else some 0

-- `free` of `n` slabs from `i` on.
unfoldable pub mark_from : ℕ → ℕ → Bool → List Slab → Option (List Slab)
mark_from i zero free cells = some cells
mark_from i (suc n) free cells = do
  slab ← get_elem? cells i
  cells' ← store cells i (record slab { free = free })
  mark_from (i + 1) n free cells'

-- The search of slab_alloc from `i` on. `total` bounds the rounds.
unfoldable pub alloc_from : ℕ → ℕ → ℕ → ℕ → SlabAllocator → Option (ℕ × SlabAllocator)
unfolding free_run mark_from
alloc_from zero i total num s = none
alloc_from (suc fuel) i total num s = if not (ltb i total) then some (0, s) else (do
  slab ← get_elem? s.slabs i
  if not slab.free then alloc_from fuel (i + 1) total num s else (do
    j ← free_run i num s.slabs
    if not (j == num) then alloc_from fuel (i + j + 1) total num s else (do
      cells' ← mark_from i num false s.slabs
      some (
        slab.addr,
        record s {
          slabs = cells';
          free_mem_size = sub_u32 s.free_mem_size (mul_u32 num s.slab_size);
        },
      ))))

-- NULL is 0.
unfoldable pub slab_alloc : ℕ → SlabAllocator → Option (ℕ × SlabAllocator)
unfolding total_num_slabs alloc_from
slab_alloc num s = do total ← total_num_slabs s; alloc_from (suc total) 0 total num s

-- `while (slab->addr != addr && i < total_num_slabs) slab++`: the place of the address, where there
-- is a slab at all. `i` stays 0.
unfoldable pub find_slab : ℕ → ℕ → List Slab → Option ℕ
find_slab i addr [] = none
find_slab i addr (slab ∷ cells) =
    let rest = find_slab (i + 1) addr cells in if slab.addr == addr then some i else rest

-- Whether the `n` slabs from `i` on are all allocated.
unfoldable pub all_taken : ℕ → ℕ → List Slab → Option Bool
all_taken i zero cells = some true
all_taken i (suc n) cells = do
  slab ← get_elem? cells i
  if slab.free then some false else all_taken (i + 1) n cells

unfoldable pub slab_free : ℕ → ℕ → SlabAllocator → Option (ℤ × SlabAllocator)
unfolding total_num_slabs find_slab all_taken mark_from
slab_free addr num s = do
  total ← total_num_slabs s
  if total == 0 then (do slab ← get_elem? s.slabs 0; some (neg slab_free_fail, s)) else (do
    p ← find_slab 0 addr s.slabs
    taken ← all_taken p num s.slabs
    if not taken then some (neg slab_free_fail, s) else (do
      cells' ← mark_from p num true s.slabs
      some (
        pos 0,
        record s {
          slabs = cells';
          free_mem_size = add_u32 s.free_mem_size (mul_u32 num s.slab_size);
        },
      )))

-- The loop of slab_init: a slab every `size` bytes from `start` to `end`. Each round has `size` > 0
-- bytes, so the number of bytes bounds the rounds.
unfoldable pub init_from : ℕ → ℕ → ℕ → ℕ → ℕ → List Slab → Option (List Slab)
init_from zero i start end size cells = none
init_from (suc fuel) i start end size cells = if not (ltb start end) then some cells else (do
  cells' ← store cells i (record { addr = start; free = true })
  init_from fuel (i + 1) (start + size) end size cells')

unfoldable pub slab_init : ℕ → ℕ → ℕ → SlabAllocator → Option (ℤ × SlabAllocator)
unfolding init_from
slab_init mem mem_size slab_size s = do
  num ← quotient mem_size slab_size
  if ltb slab_size slab_bytes
      then some (neg slab_init_fail, s)
      else if mem == 0 && ltb mem_size (mul_u32 slab_bytes num)
      then some (neg slab_init_fail, s)
      else (do
        let taken = mul_u32 num slab_size / slab_bytes
        cells' ← init_from (suc mem_size) 0 (mem + taken) (mem + mem_size) slab_size s.slabs
        some (
          pos 0,
          record {
            mem = mem;
            mem_size = mem_size;
            free_mem_size = sub_u32 mem_size taken;
            slab_size = slab_size;
            slabs = cells';
          },
        ))
