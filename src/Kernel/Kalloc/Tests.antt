-- ===== src/Kernel/Kalloc/Tests.antt =====
-- An allocator of 64 pages, the first two and page 33 taken, and the theorems at it.
use longhorn.Base.{ℕ, ◌+◌, ◌*◌, ◌≡◌, ◌⊎◌, inl, refl, some, [], ◌∷◌, arith, neg}
use longhorn.Libk.Bitmap.{
  bitmap_get_size, bitmap_test, bitmap_set_val, bitmap_find_range, bitmap_set_range,
}
use longhorn.Libk.Bitmap.Element.{holds}
use longhorn.Libk.Synch.{SpinLock, spin, spin_lock_acquire, spin_lock_release}
use longhorn.Kernel.Kalloc.{Pages, start_addr, null, palloc_mult, pfree_mult}
use longhorn.Kernel.Kalloc.Palloc.{IsValid, IsTaken, FirstFree, NoneFree, palloc_mult-FirstFree}
use longhorn.Kernel.Kalloc.Pfree.{
  IsFreed, pfree_mult-IsFreed, pfree_mult-refused, pfree_mult-palloc_mult,
}

abbrev free_lock : SpinLock
free_lock = record { val = 0; owner = 0 }

abbrev small : Pages
small = record { free_map = record { map_p = 3 ∷ 2 ∷ []; bits = 64 }; palloc_lock = free_lock }

small-IsValid : IsValid small
small-IsValid = omega arith

palloc_mult-FirstFree_example :
    ((idx : ℕ) × (p' : Pages) × (palloc_mult 1 4 small ≡ some (start_addr + idx * 4096, p'))
      × FirstFree small.free_map 4 idx
      × IsTaken small p' idx 4)
    ⊎ ((palloc_mult 1 4 small ≡ some (null, small)) × NoneFree small.free_map 4)
palloc_mult-FirstFree_example =
    palloc_mult-FirstFree 1 4 small small-IsValid (omega arith) (omega arith)

palloc_run :
    palloc_mult 1 4 small
    ≡ some (
      start_addr + 2 * 4096,
      record small { free_map = record { map_p = 63 ∷ 2 ∷ []; bits = 64 } },
    )
unfolding palloc_mult bitmap_find_range bitmap_set_range spin_lock_acquire spin_lock_release spin
    bitmap_get_size bitmap_test bitmap_set_val
palloc_run = refl

pfree_mult-IsFreed_example :
    (p' : Pages) × (pfree_mult 1 (start_addr + 33 * 4096) 1 small ≡ some (neg 2, p'))
    × IsFreed small p' 33 1
pfree_mult-IsFreed_example =
    pfree_mult-IsFreed 1 33 1 small small-IsValid (omega arith) (omega arith) (omega arith)
      (λ k lo hi. let e : k ≡ 33 = omega arith in rw e)

pfree_mult-refused_example : pfree_mult 1 (start_addr + 60 * 4096) 4 small ≡ some (neg 2, small)
pfree_mult-refused_example =
    pfree_mult-refused 1 60 4 small small-IsValid (omega arith) (omega arith) (omega arith)
      (inl (omega arith))

abbrev four_taken : Pages
four_taken = record small { free_map = record { map_p = 63 ∷ 2 ∷ []; bits = 64 } }

pfree_mult-palloc_mult_example :
    (p'' : Pages) × (pfree_mult 1 (start_addr + 2 * 4096) 4 four_taken ≡ some (neg 2, p''))
    × IsValid p''
    × ((j : ℕ) → holds p''.free_map j ≡ holds small.free_map j)
pfree_mult-palloc_mult_example =
    pfree_mult-palloc_mult 1 (start_addr + 2 * 4096) 4 small four_taken small-IsValid (omega arith)
      (omega arith) palloc_run (omega arith) (omega arith) (omega arith)
