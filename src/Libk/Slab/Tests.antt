-- ===== src/Libk/Slab/Tests.antt =====
-- An allocator of four slabs of 8 bytes, the middle two allocated, and the theorems at it.
use longhorn.Base.{
  ℕ, zero, suc, ◌+◌, ◌<◌, ◌≤◌, ◌≡◌, ◌≢◌, ◌⊎◌, refl, Bool, true, false, ◌&&◌, leb, ltb, some, [],
  ◌∷◌, if◌then◌else◌, pos, arith,
}
use longhorn.Libk.Slab.{
  Slab, SlabAllocator, total_num_slabs, slab_alloc, alloc_from, free_run, mark_from, slab_free,
}
use longhorn.Libk.Slab.Alloc.{IsFreeRun, IsBlocked, slab_alloc-first}
use longhorn.Libk.Slab.Free.{slab_at, slab_free-freed}

abbrev slab : ℕ → Bool → Slab
slab a f = record { addr = a; free = f }

abbrev small : SlabAllocator
small = record {
  mem = 4096;
  mem_size = 32;
  free_mem_size = 12;
  slab_size = 8;
  slabs = slab 4100 true ∷ slab 4108 false ∷ slab 4116 false ∷ slab 4124 true ∷ [];
}

four : total_num_slabs small ≡ some 4
unfolding total_num_slabs
four = refl

slab_alloc_run :
    slab_alloc 1 small
    ≡ some (
      4100,
      record small {
        free_mem_size = 4;
        slabs = slab 4100 false ∷ slab 4108 false ∷ slab 4116 false ∷ slab 4124 true ∷ [];
      },
    )
unfolding slab_alloc alloc_from free_run mark_from total_num_slabs
slab_alloc_run = refl

small-before : (k : ℕ) → k < 1 → (slab_at small.slabs k).addr ≢ 4108
small-before zero h = λ e. absurd (omega (arith, e))
small-before (suc k) h = absurd (omega arith)

small-taken : (k : ℕ) → 1 ≤ k → k < 1 + 2 → (slab_at small.slabs k).free ≡ false
small-taken zero lo hi = absurd (omega arith)
small-taken (suc zero) lo hi = refl
small-taken (suc (suc zero)) lo hi = refl
small-taken (suc (suc (suc k))) lo hi = absurd (omega arith)

slab_free-freed_example :
    (s' : SlabAllocator) × (slab_free 4108 2 small ≡ some (pos 0, s'))
    × ((k : ℕ)
        → slab_at s'.slabs k ≡ (
            if leb 1 k && ltb k (1 + 2)
            then record (slab_at small.slabs k) { free = true }
            else slab_at small.slabs k))
    × (s'.free_mem_size ≡ 28)
slab_free-freed_example =
    slab_free-freed 4108 2 1 3 small four (omega arith) (omega arith) refl small-before small-taken

small-missing : (k : ℕ) → k < 4 → (slab_at small.slabs k).addr ≢ 5000
small-missing zero h = λ e. absurd (omega (arith, e))
small-missing (suc zero) h = λ e. absurd (omega (arith, e))
small-missing (suc (suc zero)) h = λ e. absurd (omega (arith, e))
small-missing (suc (suc (suc zero))) h = λ e. absurd (omega (arith, e))
small-missing (suc (suc (suc (suc k)))) h = absurd (omega arith)

-- The array of `small` with a fifth cell behind it.
abbrev with_fifth : SlabAllocator
with_fifth = record small {
  slabs = slab 4100 true ∷ slab 4108 false ∷ slab 4116 false ∷ slab 4124 true ∷ slab 4132 true ∷ [];
}

with_fifth-total : total_num_slabs with_fifth ≡ some 4
unfolding total_num_slabs
with_fifth-total = refl

slab_alloc-first_example :
    ((at : ℕ) × (s' : SlabAllocator) × (slab_alloc 1 with_fifth
        ≡ some ((slab_at with_fifth.slabs at).addr, s'))
      × (at < 4)
      × IsFreeRun with_fifth.slabs at 1
      × ((k : ℕ) → k < at → IsBlocked with_fifth.slabs k 1)
      × ((k : ℕ)
          → slab_at s'.slabs k ≡ (
              if leb at k && ltb k (at + 1)
              then record (slab_at with_fifth.slabs k) { free = false }
              else slab_at with_fifth.slabs k))
      × (s'.free_mem_size ≡ 4))
    ⊎ ((slab_alloc 1 with_fifth ≡ some (0, with_fifth))
        × ((k : ℕ) → k < 4 → IsBlocked with_fifth.slabs k 1))
slab_alloc-first_example =
    slab_alloc-first 1 4 with_fifth with_fifth-total (omega arith) (omega arith)
