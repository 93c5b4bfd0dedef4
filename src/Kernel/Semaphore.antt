-- ===== src/Kernel/Semaphore.antt =====
-- The semaphores of libk/synch.c, which block and wake the threads of kernel/thread.c. A value is
-- the 32-bit pattern of an `int`. The owner of a lock is the thread at its address, also where that
-- is NULL: the address of a member is a sum. `fuel` bounds each wait for a lock and each walk along a
-- list.
pub mod Counting
pub mod Passing
mod Tests
use longhorn.Base.{
  ℕ, zero, suc, ◌+◌, Bool, true, false, not, Option, none, some, ◌==◌, if◌then◌else◌, ◌>>=◌, ℤ, pos,
  neg, ◌==ℤ◌, is_neg, add_u32,
}
use longhorn.Libk.LinkedList.{Ptr, Nodes, list_init, list_insert, list_pop, list_is_empty}
use longhorn.Libk.Synch.{
  SpinLock, spin_lock_init, spin_lock_acquire, spin_lock_release, is_positive, minus_one,
  lock_acq_fail, lock_init_fail,
}
use longhorn.Kernel.Task.{Tasks, node_of, thread_of_node, thread_unblock}
use longhorn.Kernel.Thread.{thread_block}

-- `waiters` is the address of the list.
pub record Semaphore : Type 0 where
  pub val : ℕ
  pub lock : SpinLock
  pub waiters : Ptr

abbrev pub set_val : Semaphore → ℕ → Semaphore
set_val s v = record s { val = v }

abbrev pub set_lock : Semaphore → SpinLock → Semaphore
set_lock s l = record s { lock = l }

-- `none` for the semaphore is NULL.
unfoldable pub semaphore_init :
    Option Semaphore → ℕ → Nodes → Option (ℤ × (Option Semaphore × Nodes))
semaphore_init none val h = some (neg lock_init_fail, (none, h))
semaphore_init (some s) val h =
    let (code, l) = spin_lock_init (some s.lock) in
    (do
      lock ← l
      h' ← (if code ==ℤ pos 0 then list_init s.waiters h else some h)
      some (code, (some (record s { val = val; lock = lock }), h')))

-- The release with which the functions end: an error of it is their result, or else `succ`.
unfoldable pub finish : Semaphore → Tasks → ℤ × (Semaphore × Tasks)
finish s k =
    let (code, l) = spin_lock_release s.lock in
    (if is_neg code then code else pos 0, (set_lock s l, k))

unfoldable pub sdown : ℕ → Semaphore → Tasks → Option (Option ℤ × (Semaphore × Tasks))
sdown fuel s k = do
  h ← list_insert s.waiters (node_of s.lock.owner) k.nodes
  let (code, l) = spin_lock_release s.lock
  let k₁ = record k { nodes = h }
  if is_neg code then some (some code, (set_lock s l, k₁)) else (do
    k₂ ← thread_block fuel k₁
    if k₂.current == k.current
        then (do (_, l') ← spin_lock_acquire fuel l; some (some (pos 0), (set_lock s l', k₂)))
        else some (none, (set_lock s l, k₂)))

-- The result is `none` where the caller has given up the processor.
unfoldable pub semaphore_down : ℕ → Semaphore → Tasks → Option (Option ℤ × (Semaphore × Tasks))
unfolding finish sdown
semaphore_down fuel s k = do
  (code, l) ← spin_lock_acquire fuel s.lock
  let s₁ = set_lock s l
  if is_neg code
      then some (some code, (s₁, k))
      else if is_positive s.val
      then (do
        let (ret, after) = finish (set_val s₁ (add_u32 s.val minus_one)) k
        some (some ret, after))
      else (do
        (ret, (s₂, k₂)) ← sdown fuel s₁ k
        elim ret [
          | none ↦ some (none, (s₂, k₂))
          | some code' ↦
              if is_neg code'
              then some (some code', (s₂, k₂))
              else (let (ret', after) = finish s₂ k₂ in some (some ret', after))
        ])

unfoldable pub semaphore_up : ℕ → Semaphore → Tasks → Option (ℤ × (Semaphore × Tasks))
unfolding finish
semaphore_up fuel s k = do
  (code, l) ← spin_lock_acquire fuel s.lock
  let s₁ = set_lock s l
  if is_neg code then some (code, (s₁, k)) else (do
    empty ← list_is_empty s.waiters k.nodes
    if not empty
        then (do
          (node, h) ← list_pop fuel s.waiters k.nodes
          k₁ ← thread_unblock fuel (thread_of_node node) (record k { nodes = h })
          some (finish s₁ k₁))
        else some (finish (set_val s₁ (add_u32 s.val 1)) k))

unfoldable pub semaphore_try_down : ℕ → Semaphore → Tasks → Option (ℤ × (Semaphore × Tasks))
unfolding finish
semaphore_try_down fuel s k = do
  (code, l) ← spin_lock_acquire fuel s.lock
  let s₁ = set_lock s l
  some (
      if is_neg code
      then (code, (s₁, k))
      else if is_positive s.val
      then finish (set_val s₁ (add_u32 s.val minus_one)) k
      else (let (_, l') = spin_lock_release l in (neg lock_acq_fail, (set_lock s l', k))))
