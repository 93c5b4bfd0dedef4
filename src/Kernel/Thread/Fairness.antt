-- ===== src/Kernel/Thread/Fairness.antt =====
-- kernel/thread.c: what repeated turns come to, and thread_block in a turn.
use longhorn.Base.{
  ℕ, zero, suc, ◌+◌, ◌≤◌, ◌<◌, ◌≡◌, refl, true, some, Option, List, [], ◌∷◌, ◌++◌, map, ◌>>=◌,
  arith, length, get_or, length-append, ◌∙◌,
}
use longhorn.Libk.LinkedList.{Ptr, null, list_delete}
use longhorn.Libk.LinkedList.Delete.{list_delete-absent}
use longhorn.Kernel.Task.{Tasks, node_of}
use longhorn.Kernel.Thread.{thread_yield, thread_block}
use longhorn.Kernel.Thread.Turns.{IsTurn, schedule-IsTurn, length-map_node}

-- `n` time slices, each ended by thread_yield.
abbrev pub turns : ℕ → ℕ → Tasks → Option Tasks
turns zero fuel k = some k
turns (suc n) fuel k = do k' ← thread_yield fuel k; turns n fuel k'

get_or-append :
    (xs ys : List Ptr) (i : ℕ) → i < length xs → get_or (xs ++ ys) i null ≡ get_or xs i null
get_or-append [] ys i h = absurd (omega arith)
get_or-append (x ∷ xs) ys zero h = refl
get_or-append (x ∷ xs) ys (suc i) h = get_or-append xs ys i (omega arith)

-- Every ready thread gets the processor: where two threads or more are ready and none is dying, the
-- `n`-th of them runs after `n` turns. Two rounds of fuel more than threads are ready are enough.
pub thread_yield-turns :
    (n fuel : ℕ) (k : Tasks) (ts bs : List Ptr)
    → IsTurn k ts bs
    → 1 < length ts
    → n ≤ length ts
    → length ts + 1 < fuel
    → (k' : Tasks) × (turns n fuel k ≡ some k') × (k'.current ≡ get_or (k.current ∷ ts) n null)
unfolding thread_yield
thread_yield-turns zero fuel k ts bs v two le f = (k, refl, refl)
thread_yield-turns (suc n) fuel k [] bs v two le f = absurd (omega arith)
thread_yield-turns (suc n) fuel k (t ∷ []) bs v two le f = absurd (omega arith)
thread_yield-turns (suc n) fuel k (t ∷ u ∷ ts) bs v two le f =
    let (k₁, run, v₁, here) = schedule-IsTurn fuel k t u ts bs v (omega arith) in
    let len : length (u ∷ ts ++ k.current ∷ []) ≡ length ts + 2 =
      omega (arith, length-append ts (k.current ∷ [])) in
    let (k₂, rest, there) =
      thread_yield-turns n fuel k₁ (u ∷ ts ++ k.current ∷ []) bs v₁ (omega arith) (omega arith)
        (omega arith) in
    (k₂, rw run rest, there ∙ rw here (get_or-append (t ∷ u ∷ ts) (k.current ∷ []) n (omega arith)))

-- The running thread of a turn is not in the ready list, and thread_block then blocks nothing: it
-- returns at once. Three rounds of fuel more than threads are ready are enough.
pub thread_block-IsTurn :
    (fuel : ℕ) (k : Tasks) (ts bs : List Ptr)
    → IsTurn k ts bs
    → length ts + 2 < fuel
    → thread_block fuel k ≡ some (record k { interrupts = true })
unfolding thread_block
thread_block-IsTurn fuel k ts bs v f =
    let absent : list_delete fuel k.ready_threads (node_of k.current) k.nodes
        ≡ some (null, k.nodes) =
      list_delete-absent fuel k.ready_threads (node_of k.current) (map node_of ts) k.nodes
        v.sched.ready_list (ground (arith, v.cur_out.ready_out))
        (omega (arith, length-map_node ts)) in
    rw absent refl
