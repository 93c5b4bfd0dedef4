-- ===== src/Kernel/Kalloc.antt =====
-- kernel/kalloc.c: the page allocator.
-- `Pages` holds the two globals that palloc and pfree use. `fuel` bounds the busy wait for the
-- lock; `none` is a wait that does not end, or an access outside the free map.
pub mod Palloc
pub mod Pfree
mod Tests
use longhorn.Base.{
  ℕ, ◌+◌, ◌-◌, ◌*◌, ◌/◌, ◌%◌, ◌^◌, Bool, true, false, not, ◌&&◌, Option, none, some, List, ◌==◌,
  ltb, if◌then◌else◌, ◌>>=◌, ℤ, pos, neg, ◌==ℤ◌, add_u32, sub_u32, mul_u32, u32_mod,
}
use longhorn.Libk.Bitmap.{
  Bitmap, bitmap_init_s, bitmap_find_range, bitmap_set_range, bitmap_count_range, bitmap_get_size,
}
use longhorn.Libk.Synch.{SpinLock, spin_lock_acquire, spin_lock_release}

-- PG_SIZE, and 4*MB, where the pages begin.
abbrev pub pg_size : ℕ
pg_size = 4096

abbrev pub start_addr : ℕ
start_addr = 4 * 1024 * 1024

abbrev pub null : ℕ
null = 0

-- MEM_FREE_FAIL
abbrev pub mem_free_fail : ℕ
mem_free_fail = 2

pub record Pages : Type 0 where
  pub free_map : Bitmap
  pub palloc_lock : SpinLock

-- The part of init_alloc that sets up the free map. `mem_upper` comes from the boot record, and
-- `mem` is the memory at `start_addr`.
unfoldable pub init_pages : ℕ → List ℕ → SpinLock → Option Pages
init_pages mem_upper mem lock = do
  let num_pages = sub_u32 (mul_u32 mem_upper 1024) start_addr / pg_size
  (_, free_map) ← bitmap_set_range (bitmap_init_s mem num_pages) 0 (num_pages / pg_size + 1) true
  some (record { free_map = free_map; palloc_lock = lock })

abbrev pub release_lock : Pages → Pages
release_lock p = record p { palloc_lock = (spin_lock_release p.palloc_lock).1 }

-- What palloc_mult does while it holds the lock.
unfoldable pub take_pages : ℕ → Pages → Option (ℕ × Pages)
take_pages cnt p = do
  idx ← bitmap_find_range p.free_map 0 (bitmap_get_size p.free_map) cnt false
  if not (idx == add_u32 (bitmap_get_size p.free_map) 1)
      then (do
        (_, taken) ← bitmap_set_range p.free_map idx cnt true
        some (
          add_u32 start_addr (mul_u32 idx pg_size),
          release_lock (record p { free_map = taken }),
        ))
      else some (null, release_lock p)

unfoldable pub palloc_mult : ℕ → ℕ → Pages → Option (ℕ × Pages)
unfolding take_pages
palloc_mult fuel cnt p = do
  (acquired, lock) ← spin_lock_acquire fuel p.palloc_lock
  if not (acquired ==ℤ pos 0)
      then some (null, p)
      else take_pages cnt (record p { palloc_lock = lock })

unfoldable pub palloc : ℕ → Pages → Option (ℕ × Pages)
unfolding palloc_mult
palloc fuel p = palloc_mult fuel 1 p

-- `((char *) addr - start_addr) / PG_SIZE`, stored in a `size_t`: the difference is signed, and the
-- division rounds towards 0.
unfoldable pub page_index : ℕ → ℕ
page_index addr =
    let diff = sub_u32 addr start_addr in
    if ltb diff (2 ^ 31) then diff / pg_size else (u32_mod - (u32_mod - diff) / pg_size) % u32_mod

-- What pfree_mult does while it holds the lock, and after: it releases the lock before it writes
-- the free map.
unfoldable pub return_pages : ℕ → ℕ → Pages → Option (ℤ × Pages)
return_pages idx cnt p =
    if ltb (add_u32 idx cnt) (bitmap_get_size p.free_map)
    then (do
      allocated ← bitmap_count_range p.free_map idx cnt
      if allocated == cnt
          then (do
            (set_to, freed) ← bitmap_set_range p.free_map idx cnt false
            some (
              if set_to == cnt then pos 0 else neg mem_free_fail,
              record (release_lock p) { free_map = freed },
            ))
          else some (neg mem_free_fail, release_lock p))
    else some (neg mem_free_fail, release_lock p)

unfoldable pub pfree_mult : ℕ → ℕ → ℕ → Pages → Option (ℤ × Pages)
unfolding page_index return_pages
pfree_mult fuel addr cnt p = do
  (acquired, lock) ← spin_lock_acquire fuel p.palloc_lock
  if not (acquired ==ℤ pos 0)
      then some (neg mem_free_fail, p)
      else return_pages (page_index addr) cnt (record p { palloc_lock = lock })

unfoldable pub pfree : ℕ → ℕ → Pages → Option (ℤ × Pages)
unfolding pfree_mult
pfree fuel addr p = pfree_mult fuel addr 1 p

-- num_allocated and map_size, of the test build.
unfoldable pub num_allocated : Pages → Option ℕ
num_allocated p = bitmap_count_range p.free_map 0 p.free_map.bits

unfoldable pub map_size : Pages → ℕ
map_size p = p.free_map.bits
