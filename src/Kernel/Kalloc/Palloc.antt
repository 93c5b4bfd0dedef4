-- ===== src/Kernel/Kalloc/Palloc.antt =====
-- kernel/kalloc.c: palloc_mult and palloc.
use longhorn.Base.{
  ℕ, ◌+◌, ◌*◌, ◌^◌, ◌<◌, ◌≤◌, ◌≡◌, ◌⊎◌, inl, inr, refl, true, false, some, arith, pos, ap, ◌∙◌,
  ◌==◌, ==_ne, ==_iff, add_u32, mul_u32,
}
use longhorn.Libk.Bitmap.{Bitmap, bitmap_get_size, bitmap_find_range, bitmap_set_range}
use longhorn.Libk.Bitmap.Element.{Fits}
use longhorn.Libk.Bitmap.Range.{IsRangeSet, bitmap_set_range-IsRangeSet}
use longhorn.Libk.Bitmap.Find.{Run, NoRun, bitmap_find_range-Found}
use longhorn.Libk.Synch.{spin_lock_acquire, spin_lock_release}
use longhorn.Libk.Synch.Spin.{spin_lock_acquire_lem, spin_lock_release_lem}
use longhorn.Kernel.Kalloc.{Pages, start_addr, null, take_pages, palloc_mult, release_lock}

-- The lock is free, the free map has its memory, and every page has a 32-bit address.
pub record IsValid (p : Pages) : Type 0 where
  pub unlocked : p.palloc_lock.val ≡ 0
  pub fits : Fits p.free_map p.free_map.bits
  pub addresses : 1024 + p.free_map.bits ≤ 2 ^ 20

-- `idx` is the first place where `cnt` pages in a row are free.
abbrev pub FirstFree : Bitmap → ℕ → ℕ → Type 0
FirstFree m cnt idx = (idx + cnt ≤ m.bits) × Run m false idx cnt × NoRun m false cnt 0 idx

abbrev pub NoneFree : Bitmap → ℕ → Type 0
NoneFree m cnt = (b : ℕ) → b + cnt ≤ m.bits → ¬ (Run m false b cnt)

-- `p'` is `p` with the pages [idx, idx + cnt) allocated.
pub record IsTaken (p p' : Pages) (idx cnt : ℕ) : Type 0 where
  pub valid : IsValid p'
  pub map : IsRangeSet p.free_map p'.free_map idx (idx + cnt) true

abbrev pub held : Pages → Pages
held p = record p { palloc_lock = record { val = 1; owner = p.palloc_lock.owner } }

pub acquire-held :
    (fuel : ℕ) (p : Pages)
    → IsValid p
    → 0 < fuel
    → spin_lock_acquire fuel p.palloc_lock ≡ some (pos 0, (held p).palloc_lock)
acquire-held fuel p v f = (spin_lock_acquire_lem fuel p.palloc_lock f).0 v.unlocked

pub release-held :
    (fuel : ℕ) (p : Pages) (m : Bitmap)
    → IsValid p
    → release_lock (record (held p) { free_map = m }) ≡ record p { free_map = m }
release-held fuel p m v =
    let freed : spin_lock_release (held p).palloc_lock
        ≡ (pos 0, record (held p).palloc_lock { val = 0 }) =
      (spin_lock_release_lem fuel (held p).palloc_lock).0 refl in
    rw freed (ground arith)

palloc_mult-held :
    (fuel cnt : ℕ) (p : Pages)
    → IsValid p
    → 0 < fuel
    → palloc_mult fuel cnt p ≡ take_pages cnt (held p)
unfolding palloc_mult
palloc_mult-held fuel cnt p v f = rw (acquire-held fuel p v f)

take_pages-some :
    (idx cnt : ℕ) (p : Pages) (m : Bitmap)
    → IsValid p
    → bitmap_find_range p.free_map 0 p.free_map.bits cnt false ≡ some idx
    → 0 < cnt
    → idx + cnt ≤ p.free_map.bits
    → bitmap_set_range p.free_map idx cnt true ≡ some (idx + cnt, m)
    → take_pages cnt (held p) ≡ some (start_addr + idx * 4096, record p { free_map = m })
unfolding take_pages bitmap_get_size
take_pages-some idx cnt p m v found c room set_run =
    rw (found, inside, set_run, address, release-held 1 p m v) refl
  where
    inside : (idx == add_u32 p.free_map.bits 1) ≡ false
    inside = ==_ne _ _ (omega (arith, v.addresses))

    address : add_u32 start_addr (mul_u32 idx 4096) ≡ start_addr + idx * 4096
    address = omega (arith, v.addresses)

take_pages-none :
    (cnt : ℕ) (p : Pages)
    → IsValid p
    → bitmap_find_range p.free_map 0 p.free_map.bits cnt false ≡ some (p.free_map.bits + 1)
    → take_pages cnt (held p) ≡ some (null, p)
unfolding take_pages bitmap_get_size
take_pages-none cnt p v found = rw (found, outside, release-held 1 p p.free_map v) refl
  where
    outside : (p.free_map.bits + 1 == add_u32 p.free_map.bits 1) ≡ true
    outside = (==_iff _ _).1 (omega (arith, v.addresses))

-- For an allocator with a free lock, a free map within its memory and pages with 32-bit addresses:
-- palloc_mult of one page or more allocates the first run of `cnt` free pages and returns its
-- address, or, if there is no such run, returns NULL and changes nothing. The lock is free again in
-- both cases. One round of fuel is enough.
pub palloc_mult-FirstFree :
    (fuel cnt : ℕ) (p : Pages)
    → IsValid p
    → 0 < fuel
    → 0 < cnt
    → ((idx : ℕ) × (p' : Pages) × (palloc_mult fuel cnt p ≡ some (start_addr + idx * 4096, p'))
        × FirstFree p.free_map cnt idx
        × IsTaken p p' idx cnt)
      ⊎ ((palloc_mult fuel cnt p ≡ some (null, p)) × NoneFree p.free_map cnt)
palloc_mult-FirstFree fuel cnt p v f c =
    let (idx, found, result) =
      bitmap_find_range-Found p.free_map 0 p.free_map.bits cnt false c (omega (arith, v.addresses))
        (omega (arith, v.fits)) (omega (arith, v.addresses)) in
    rw (palloc_mult-held fuel cnt p v f) (elim result [
      | inl (_, room, run, earlier) ↦
          let room' : idx + cnt ≤ p.free_map.bits = omega arith in
          let (m, set_run, map) =
            bitmap_set_range-IsRangeSet p.free_map idx cnt true (omega (arith, v.addresses))
              (omega (arith, v.fits)) in
          inl (
            idx,
            record p { free_map = m },
            take_pages-some idx cnt p m v found c room' set_run,
            (room', run, earlier),
            record {
              valid = record {
                unlocked = v.unlocked;
                fits = omega (arith, v.fits, map.same_bits, map.same_size);
                addresses = omega (arith, v.addresses, map.same_bits);
              };
              map = map;
            },
          )
      | inr (end, none_fits) ↦ inr (
        take_pages-none cnt p v (found ∙ ap some end),
        λ b room. none_fits b (omega arith) (omega arith),
      )
    ])
