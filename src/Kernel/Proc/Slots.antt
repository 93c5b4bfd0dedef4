-- ===== src/Kernel/Proc/Slots.antt =====
-- kernel/proc.c: the threads' slots of a process.
use longhorn.Base.{
  ℕ, zero, suc, ◌+◌, ◌%◌, ◌≤◌, ◌<◌, ◌≡◌, ◌≢◌, ◌⊎◌, inl, inr, refl, Option, some, ◌==◌, arith, pos,
  neg, Bool-cases,
}
use longhorn.Libk.LinkedList.{Ptr, null}
use longhorn.Kernel.Kalloc.{Pages, palloc_mult}
use longhorn.Kernel.Task.{Tasks, at}
use longhorn.Kernel.Thread.{thread_create}
use longhorn.Kernel.Proc.{max_num_threads, free_from, proc_get_free_thread, proc_create_thread}

-- `i` is the first free slot from `from` on.
pub record IsFirstFree (threads : ℕ → Ptr) (from i : ℕ) : Type 0 where
  pub from_le : from ≤ i
  pub free : threads i ≡ null
  pub before : (j : ℕ) → from ≤ j → j < i → threads j ≢ null

free_from-first :
    (i rounds : ℕ) (threads : ℕ → Ptr)
    → ((n : ℕ) × (free_from i rounds threads ≡ pos n) × (n < i + rounds) × IsFirstFree threads i n)
      ⊎ ((free_from i rounds threads ≡ neg 1)
          × ((j : ℕ) → i ≤ j → j < i + rounds → threads j ≢ null))
unfolding free_from
free_from-first i zero threads = inr (refl, λ j lo hi. absurd (omega arith))
free_from-first i (suc rounds) threads = elim (Bool-cases (threads i == null)) [
  | inl here ↦ inl (
    i,
    rw here refl,
    omega arith,
    record {
      from_le = omega arith;
      free = ground (arith, here);
      before = λ j lo hi. absurd (omega arith);
    },
  )
  | inr taken ↦ elim (free_from-first (i + 1) rounds threads) [
    | inl (n, run, hi, first) ↦ inl (
      n,
      rw taken run,
      omega arith,
      record {
        from_le = omega (arith, first.from_le);
        free = first.free;
        before = λ j lo hi. ground (arith, taken, first.before j);
      },
    )
    | inr (run, all) ↦ inr (rw taken run, λ j lo hi. ground (arith, taken, all j))
  ]
]

-- proc_get_free_thread returns the first of the eight slots that is NULL, or -1 if none is.
pub proc_get_free_thread-first :
    (p : Ptr) (k : Tasks)
    → ((n : ℕ) × (proc_get_free_thread p k ≡ pos n)
        × (n < max_num_threads)
        × IsFirstFree (k.threads p) 0 n)
      ⊎ ((proc_get_free_thread p k ≡ neg 1)
          × ((j : ℕ) → j < max_num_threads → k.threads p j ≢ null))
unfolding proc_get_free_thread
proc_get_free_thread-first p k = elim (free_from-first 0 max_num_threads (k.threads p)) [
  | inl found ↦ inl found
  | inr (run, all) ↦ inr (run, λ j hi. all j (omega arith) hi)
]

-- proc_create_thread in a process with a free slot, where no page is left: the result is -1, no
-- thread is created, and the process counts one live thread more all the same.
pub proc_create_thread-no_page :
    (kfree : Ptr → Tasks → Option Tasks) (fuel priority n : ℕ) (func aux : Ptr) (k : Tasks)
    (pages : Pages)
    → proc_get_free_thread (k.proc_of k.current) k ≡ pos n
    → palloc_mult fuel 1 k.pages ≡ some (null, pages)
    → proc_create_thread kfree fuel priority func aux k
      ≡ some (
        neg 1,
        record k {
          pages = pages;
          num_live_threads =
              at k.num_live_threads
                (k.proc_of k.current)
                ((k.num_live_threads (k.proc_of k.current) + 1) % 256);
        },
      )
unfolding proc_create_thread thread_create
proc_create_thread-no_page kfree fuel priority n func aux k pages slot full = rw (slot, full) refl
