-- ===== src/Libk/Slab/Alloc.antt =====
-- libk/slab.c: slab_alloc.
use longhorn.Base.{
  ℕ, zero, suc, ◌+◌, ◌<◌, ◌≤◌, ◌≡◌, ◌⊎◌, inl, inr, refl, ◌∙◌, ap, true, false, ◌&&◌, leb, ltb, some,
  List, ◌==◌, if◌then◌else◌, get_elem?, get_elem?-eq-get_or, length, arith, Bool-cases, sub_u32,
  mul_u32,
}
use longhorn.Libk.Slab.{Slab, SlabAllocator, total_num_slabs, free_run, alloc_from, slab_alloc}
use longhorn.Libk.Slab.Free.{no_slab, slab_at, mark_from-slab_at}

-- The `num` slabs from `i` on are free.
abbrev pub IsFreeRun : List Slab → ℕ → ℕ → Type 0
IsFreeRun cells i num = (k : ℕ) → i ≤ k → k < i + num → (slab_at cells k).free ≡ true

-- What the inner loop counts: free slabs, and behind them one that is not, if it stops early.
record IsCounted (cells : List Slab) (i n j : ℕ) : Type 0 where
  pub at_most : j ≤ n
  pub run : IsFreeRun cells i j
  pub stop : j < n → (slab_at cells (i + j)).free ≡ false

free_run-IsCounted :
    (i n : ℕ) (cells : List Slab)
    → i + n ≤ length cells
    → (j : ℕ) × (free_run i n cells ≡ some j) × IsCounted cells i n j
unfolding free_run
free_run-IsCounted i zero cells h = (
  0,
  refl,
  record {
    at_most = omega arith;
    run = λ k lo hi. absurd (omega arith);
    stop = λ lt. absurd (omega arith);
  },
)
free_run-IsCounted i (suc n) cells h =
    let here : get_elem? cells i ≡ some (slab_at cells i) =
      get_elem?-eq-get_or cells i no_slab (omega arith) in
    elim (Bool-cases ((slab_at cells i).free)) [
      | inl e ↦
          let (j, run, c) = free_run-IsCounted (i + 1) n cells (omega arith) in
          (
            suc j,
            rw (here, e, run) refl,
            record {
              at_most = omega (arith, c.at_most);
              run = λ k lo hi. elim (Bool-cases (k == i)) [
                | inl same ↦
                    ap (λ (m : ℕ). (slab_at cells m).free) {x = k} {y = i} (ground (arith, same))
                    ∙ e
                | inr differ ↦ c.run k (ground (arith, differ)) (omega arith)
              ];
              stop = λ lt.
                  ap (λ (m : ℕ). (slab_at cells m).free) {x = i + suc j} {y = i + 1 + j}
                    (omega arith)
                  ∙ c.stop (omega arith);
            },
          )
      | inr e ↦ (
        0,
        rw (here, e) refl,
        record {
          at_most = omega arith;
          run = λ k lo hi. absurd (omega arith);
          stop = λ lt. ap (λ (m : ℕ). (slab_at cells m).free) {x = i + 0} {y = i} (omega arith) ∙ e;
        },
      )
    ]

-- One of the `num` slabs from `k` on is allocated.
abbrev pub IsBlocked : List Slab → ℕ → ℕ → Type 0
IsBlocked cells k num = (p : ℕ) × (k ≤ p) × (p < k + num) × ((slab_at cells p).free ≡ false)

-- The outcome of the search from `i` on: the first free run that starts below `total`, or none.
record IsFound (s : SlabAllocator) (num i total at : ℕ) : Type 0 where
  pub from : i ≤ at
  pub below : at < total
  pub run : IsFreeRun s.slabs at num
  pub first : (k : ℕ) → i ≤ k → k < at → IsBlocked s.slabs k num

taken_slabs : SlabAllocator → ℕ → List Slab → SlabAllocator
taken_slabs s num cells = record s {
  slabs = cells;
  free_mem_size = sub_u32 s.free_mem_size (mul_u32 num s.slab_size);
}

-- Both outcomes of the search from `i` on.
abbrev Searched : SlabAllocator → ℕ → ℕ → ℕ → ℕ → Type 0
Searched s num total fuel i =
    ((at : ℕ) × (cells : List Slab) × IsFound s num i total at
      × (alloc_from fuel i total num s ≡ some ((slab_at s.slabs at).addr, taken_slabs s num cells))
      × ((k : ℕ)
          → slab_at cells k ≡ (
              if leb at k && ltb k (at + num)
              then record (slab_at s.slabs k) { free = false }
              else slab_at s.slabs k)))
    ⊎ ((alloc_from fuel i total num s ≡ some (0, s))
        × ((k : ℕ) → i ≤ k → k < total → IsBlocked s.slabs k num))

-- The search goes on at `i'` when a slab of every run that starts between is allocated.
skipped :
    (s : SlabAllocator) (num total fuel i i' : ℕ)
    → i ≤ i'
    → alloc_from (suc fuel) i total num s ≡ alloc_from fuel i' total num s
    → ((k : ℕ) → i ≤ k → k < i' → IsBlocked s.slabs k num)
    → Searched s num total fuel i'
    → Searched s num total (suc fuel) i
skipped s num total fuel i i' le step none_between (inl (at, cells, f, run, same)) = inl (
  at,
  cells,
  record {
    from = omega (arith, le, f.from);
    below = f.below;
    run = f.run;
    first = λ k lo hi. elim (Bool-cases (ltb k i')) [
      | inl e ↦ none_between k lo (ground (arith, e))
      | inr e ↦ f.first k (ground (arith, e)) hi
    ];
  },
  step ∙ run,
  same,
)
skipped s num total fuel i i' le step none_between (inr (run, no_run)) = inr (
  step ∙ run,
  λ k lo hi. elim (Bool-cases (ltb k i')) [
    | inl e ↦ none_between k lo (ground (arith, e))
    | inr e ↦ no_run k (ground (arith, e)) hi
  ],
)

module _ (s : SlabAllocator) (num total : ℕ) (some_slabs : 0 < num)
    (room : total + num ≤ length s.slabs) where
  alloc_from-Searched : (fuel i : ℕ) → 0 < fuel → total < fuel + i → Searched s num total fuel i
  unfolding alloc_from taken_slabs
  alloc_from-Searched zero i h e = absurd (omega arith)
  alloc_from-Searched (suc fuel) i h e = elim (Bool-cases (ltb i total)) [
    | inr out ↦ inr (rw out refl, λ k lo hi. absurd (ground (arith, out)))
    | inl inside ↦
        let below : i < total = ground (arith, inside) in
        let here : get_elem? s.slabs i ≡ some (slab_at s.slabs i) =
          get_elem?-eq-get_or s.slabs i no_slab (omega arith) in
        elim (Bool-cases ((slab_at s.slabs i).free)) [
          | inr taken ↦
              skipped s num total fuel i (i + 1) (omega arith) (rw (inside, here, taken) refl)
                (λ k lo hi. (i, omega arith, omega arith, taken))
                (alloc_from-Searched fuel (i + 1) (omega arith) (omega arith))
          | inl is_free ↦
              let (j, count, c) = free_run-IsCounted i num s.slabs (omega arith) in
              elim (Bool-cases (j == num)) [
                | inr short ↦
                    let less : j < num = ground (arith, short, c.at_most) in
                    skipped s num total fuel i (i + j + 1) (omega arith)
                      (rw (inside, here, is_free, count, short) refl)
                      (λ k lo hi. (i + j, omega arith, omega arith, c.stop less))
                      (alloc_from-Searched fuel (i + j + 1) (omega arith) (omega arith))
                | inl whole ↦
                    let all : j ≡ num = ground (arith, whole) in
                    let (cells, marked, same) =
                      mark_from-slab_at i num false s.slabs (omega arith) in
                    inl (
                      i,
                      cells,
                      record {
                        from = omega arith;
                        below = below;
                        run = λ k lo hi. c.run k lo (omega (arith, all));
                        first = λ k lo hi. absurd (omega arith);
                      },
                      rw (inside, here, is_free, count, whole, marked) refl,
                      same,
                    )
              ]
        ]
  ]

-- slab_alloc with slabs in the bookkeeping array for a run that starts with the last one counted: it
-- takes the first free run of `num` slabs, returns the address of its first slab, marks these slabs
-- and no other, and lowers the free memory; or it returns NULL and changes nothing, and every run that
-- starts at a slab that is counted has an allocated one.
pub slab_alloc-first :
    (num total : ℕ) (s : SlabAllocator)
    → total_num_slabs s ≡ some total
    → 0 < num
    → total + num ≤ length s.slabs
    → ((at : ℕ) × (s' : SlabAllocator) × (slab_alloc num s ≡ some ((slab_at s.slabs at).addr, s'))
        × (at < total)
        × IsFreeRun s.slabs at num
        × ((k : ℕ) → k < at → IsBlocked s.slabs k num)
        × ((k : ℕ)
            → slab_at s'.slabs k ≡ (
                if leb at k && ltb k (at + num)
                then record (slab_at s.slabs k) { free = false }
                else slab_at s.slabs k))
        × (s'.free_mem_size ≡ sub_u32 s.free_mem_size (mul_u32 num s.slab_size)))
      ⊎ ((slab_alloc num s ≡ some (0, s)) × ((k : ℕ) → k < total → IsBlocked s.slabs k num))
unfolding slab_alloc taken_slabs
slab_alloc-first num total s counted some_slabs room =
    elim (alloc_from-Searched s num total some_slabs room (suc total) 0 (omega arith)
      (omega arith)) [
        | inl (at, cells, f, run, same) ↦ inl (
          at,
          taken_slabs s num cells,
          rw counted run,
          f.below,
          f.run,
          λ k hi. f.first k (omega arith) hi,
          same,
          refl,
        )
        | inr (run, no_run) ↦ inr (rw counted run, λ k hi. no_run k (omega arith) hi)
      ]
