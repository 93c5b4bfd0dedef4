-- ===== src/Kernel/Kalloc/Pfree.antt =====
-- kernel/kalloc.c: pfree_mult and pfree.
use longhorn.Base.{
  ℕ, ◌+◌, ◌*◌, ◌^◌, ◌<◌, ◌≤◌, ◌≡◌, ◌⊎◌, inl, inr, true, false, some, arith, pos, neg, ◌==◌, ==_ne,
  ==_self, add_u32, if◌then◌else◌, ltb, leb, ◌&&◌, lt→ltb, ltb→lt, range→le, le→range, sym, le→ltb,
  ◌≢◌, Option, none, subst, ap, Bool-cases, ◌∙◌,
}
use longhorn.Libk.Bitmap.{Bitmap, bitmap_get_size, bitmap_count_range, bitmap_set_range}
use longhorn.Libk.Bitmap.Element.{holds}
use longhorn.Libk.Bitmap.Range.{IsRangeSet, bitmap_set_range-IsRangeSet}
use longhorn.Libk.Bitmap.Count.{
  set_bits, bitmap_count_range-set_bits, Run_of_set_bits, set_bits_of_Run,
}
use longhorn.Libk.Bitmap.Find.{Run}
use longhorn.Kernel.Kalloc.{
  Pages, null, palloc_mult, start_addr, mem_free_fail, page_index, return_pages, pfree_mult,
}
use longhorn.Kernel.Kalloc.Palloc.{
  IsValid, IsTaken, held, acquire-held, release-held, FirstFree, palloc_mult-FirstFree,
}

-- `p'` is `p` with the pages [idx, idx + cnt) free.
pub record IsFreed (p p' : Pages) (idx cnt : ℕ) : Type 0 where
  pub valid : IsValid p'
  pub map : IsRangeSet p.free_map p'.free_map idx (idx + cnt) false

page_index_lem : (idx : ℕ) → idx < 2 ^ 19 → page_index (start_addr + idx * 4096) ≡ idx
unfolding page_index
page_index_lem idx h = ground arith

pfree_mult-held :
    (fuel idx cnt : ℕ) (p : Pages)
    → IsValid p
    → 0 < fuel
    → idx < 2 ^ 19
    → pfree_mult fuel (start_addr + idx * 4096) cnt p ≡ return_pages idx cnt (held p)
unfolding pfree_mult
pfree_mult-held fuel idx cnt p v f h = rw (acquire-held fuel p v f, page_index_lem idx h)

return_pages-some :
    (idx cnt : ℕ) (p : Pages) (m : Bitmap)
    → IsValid p
    → idx + cnt < p.free_map.bits
    → bitmap_count_range p.free_map idx cnt ≡ some cnt
    → bitmap_set_range p.free_map idx cnt false ≡ some (idx + cnt, m)
    → return_pages idx cnt (held p)
      ≡ some (if idx == 0 then pos 0 else neg mem_free_fail, record p { free_map = m })
unfolding return_pages bitmap_get_size
return_pages-some idx cnt p m v room counted set_run =
    rw (inside, counted, ==_self cnt, set_run, reported)
      (ap (λ (q : Pages). some (if idx == 0 then pos 0 else neg mem_free_fail, q))
        (release-held 1 p m v))
  where
    reported :
        (if idx + cnt == cnt then pos 0 else neg mem_free_fail)
        ≡ (if idx == 0 then pos 0 else neg mem_free_fail)
    reported = ground arith

    inside : ltb (add_u32 idx cnt) p.free_map.bits ≡ true
    inside = lt→ltb _ _ (omega (arith, v.addresses))

-- For a valid allocator, pfree_mult of pages that are all allocated, that begin below page 2^19 and
-- end before the last page, frees them. It returns 0 only if they are the first pages, and
-- -MEM_FREE_FAIL otherwise.
pub pfree_mult-IsFreed :
    (fuel idx cnt : ℕ) (p : Pages)
    → IsValid p
    → 0 < fuel
    → idx < 2 ^ 19
    → idx + cnt < p.free_map.bits
    → Run p.free_map true idx cnt
    → (p' : Pages) × (pfree_mult fuel (start_addr + idx * 4096) cnt p
        ≡ some (if idx == 0 then pos 0 else neg mem_free_fail, p'))
      × IsFreed p p' idx cnt
pfree_mult-IsFreed fuel idx cnt p v f h room run =
    let (m, set_run, map) =
      bitmap_set_range-IsRangeSet p.free_map idx cnt false (omega (arith, v.addresses))
        (omega (arith, v.fits)) in
    (
      record p { free_map = m },
      pfree_mult-held fuel idx cnt p v f h ∙ return_pages-some idx cnt p m v room counted set_run,
      record {
        valid = record {
          unlocked = v.unlocked;
          fits = omega (arith, v.fits, map.same_bits, map.same_size);
          addresses = omega (arith, v.addresses, map.same_bits);
        };
        map = map;
      },
    )
  where
    counted : bitmap_count_range p.free_map idx cnt ≡ some cnt
    counted = ground (
      arith,
      bitmap_count_range-set_bits p.free_map idx cnt (omega (arith, v.addresses))
          (omega (arith, v.fits)),
      set_bits_of_Run p.free_map idx cnt run,
    )

return_pages-refused :
    (idx cnt : ℕ) (p : Pages)
    → IsValid p
    → idx < 2 ^ 19
    → cnt < 2 ^ 31
    → (p.free_map.bits ≤ idx + cnt) ⊎ (¬ (Run p.free_map true idx cnt))
    → return_pages idx cnt (held p) ≡ some (neg mem_free_fail, p)
unfolding return_pages bitmap_get_size
return_pages-refused idx cnt p v h k (inl outside) =
    rw outside' (ap (λ (q : Pages). some (neg mem_free_fail, q)) (release-held 1 p p.free_map v))
  where
    outside' : ltb (add_u32 idx cnt) p.free_map.bits ≡ false
    outside' = le→ltb _ _ (omega (arith, v.addresses))
return_pages-refused idx cnt p v h k (inr some_free) =
    elim (Bool-cases (ltb (add_u32 idx cnt) p.free_map.bits)) [
      | inl inside ↦
          let room : idx + cnt < p.free_map.bits = omega (arith, ltb→lt _ _ inside) in
          let counted : bitmap_count_range p.free_map idx cnt ≡ some (set_bits p.free_map idx cnt) =
            bitmap_count_range-set_bits p.free_map idx cnt (omega arith) (omega (arith, v.fits)) in
          rw (inside, counted, fewer)
            (ap (λ (q : Pages). some (neg mem_free_fail, q)) (release-held 1 p p.free_map v))
      | inr outside ↦
          rw outside
            (ap (λ (q : Pages). some (neg mem_free_fail, q)) (release-held 1 p p.free_map v))
    ]
  where
    fewer : (set_bits p.free_map idx cnt == cnt) ≡ false
    fewer = ==_ne _ _ (λ e. some_free (Run_of_set_bits p.free_map idx cnt e))

-- For a valid allocator, pfree_mult refuses pages that are not all allocated, and pages that end
-- with or behind the last one: it returns -MEM_FREE_FAIL and changes nothing. The pages begin below
-- page 2^19, and are fewer than 2^31.
pub pfree_mult-refused :
    (fuel idx cnt : ℕ) (p : Pages)
    → IsValid p
    → 0 < fuel
    → idx < 2 ^ 19
    → cnt < 2 ^ 31
    → (p.free_map.bits ≤ idx + cnt) ⊎ (¬ (Run p.free_map true idx cnt))
    → pfree_mult fuel (start_addr + idx * 4096) cnt p ≡ some (neg mem_free_fail, p)
pfree_mult-refused fuel idx cnt p v f h k why =
    pfree_mult-held fuel idx cnt p v f h ∙ return_pages-refused idx cnt p v h k why

pfree_mult-IsTaken :
    (fuel idx cnt : ℕ) (p p' : Pages)
    → IsTaken p p' idx cnt
    → FirstFree p.free_map cnt idx
    → 0 < fuel
    → idx < 2 ^ 19
    → idx + cnt < p.free_map.bits
    → (p'' : Pages) × (pfree_mult fuel (start_addr + idx * 4096) cnt p'
        ≡ some (if idx == 0 then pos 0 else neg mem_free_fail, p''))
      × IsValid p''
      × ((j : ℕ) → holds p''.free_map j ≡ holds p.free_map j)
pfree_mult-IsTaken fuel idx cnt p p' t free f h room =
    let (p'', run, freed) =
      pfree_mult-IsFreed fuel idx cnt p' t.valid f h (omega (arith, t.map.same_bits)) allocated in
    (
      p'',
      run,
      freed.valid,
      λ j. elim (Bool-cases (leb idx j && ltb j (idx + cnt))) [
        | inl inside ↦
            let (lo, hi) = range→le idx j (idx + cnt) inside in
            freed.map.reads j ∙ rw inside (sym (free.1 j lo hi))
        | inr outside ↦ freed.map.reads j ∙ rw outside (t.map.reads j ∙ rw outside)
      ],
    )
  where
    allocated : Run p'.free_map true idx cnt
    allocated k lo hi = t.map.reads k ∙ rw (le→range idx k (idx + cnt) lo hi)

-- What palloc_mult of one page or more returned for a valid allocator, if it is not NULL, lies below
-- page 2^19 and ends before the last page, goes back with pfree_mult: every bit of the free map is
-- again what it was before palloc_mult. The result of pfree_mult is 0 only for the first pages, and
-- -MEM_FREE_FAIL otherwise.
pub pfree_mult-palloc_mult :
    (fuel addr cnt : ℕ) (p p' : Pages)
    → IsValid p
    → 0 < fuel
    → 0 < cnt
    → palloc_mult fuel cnt p ≡ some (addr, p')
    → addr ≢ null
    → addr < start_addr + 2 ^ 19 * 4096
    → addr + cnt * 4096 < start_addr + p.free_map.bits * 4096
    → (p'' : Pages) × (pfree_mult fuel addr cnt p'
        ≡ some (if addr == start_addr then pos 0 else neg mem_free_fail, p''))
      × IsValid p''
      × ((j : ℕ) → holds p''.free_map j ≡ holds p.free_map j)
pfree_mult-palloc_mult fuel addr cnt p p' v f c run taken low room =
    elim (palloc_mult-FirstFree fuel cnt p v f c) [
      | inl (idx, q, found, free, took) ↦
          let place : addr ≡ start_addr + idx * 4096 =
            sym (ap (address_of addr) (sym found ∙ run)) in
          let pages : q ≡ p' = ap (pages_of p') (sym found ∙ run) in
          let low' : idx < 2 ^ 19 = omega (arith, place, low) in
          let room' : idx + cnt < p.free_map.bits = omega (arith, place, room) in
          let taken' : IsTaken p p' idx cnt =
            subst (λ (m : Pages). IsTaken p m idx cnt) pages took in
          let first : (if idx == 0 then pos 0 else neg mem_free_fail)
              ≡ (if addr == start_addr then pos 0 else neg mem_free_fail) =
            ground (arith, place) in
          let (p'', freed, valid, restored) =
            pfree_mult-IsTaken fuel idx cnt p p' taken' free f low' room' in
          (
            p'',
            ap (λ n. pfree_mult fuel n cnt p') place ∙ freed ∙ ap (λ code. some (code, p'')) first,
            valid,
            restored,
          )
      | inr (refused, _) ↦ absurd (taken (sym (ap (address_of addr) (sym refused ∙ run))))
    ]
  where
    address_of : ℕ → Option (ℕ × Pages) → ℕ
    address_of n o = elim o [ none ↦ n | some r ↦ r.0 ]

    pages_of : Pages → Option (ℕ × Pages) → Pages
    pages_of m o = elim o [ none ↦ m | some r ↦ r.1 ]
