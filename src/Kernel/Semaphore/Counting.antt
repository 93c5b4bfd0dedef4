-- ===== src/Kernel/Semaphore/Counting.antt =====
-- libk/synch.c: semaphores with a positive value, and semaphore_try_down.
use longhorn.Base.{
  ℕ, ◌+◌, ◌-◌, ◌^◌, ◌<◌, ◌≡◌, refl, true, some, [], if◌then◌else◌, pos, neg, arith, Bool-cases, inl,
  inr, add_u32,
}
use longhorn.Libk.LinkedList.{Ptr}
use longhorn.Libk.LinkedList.Chain.{IsList}
use longhorn.Libk.LinkedList.Walk.{list_size-length}
use longhorn.Libk.Synch.{SpinLock, spin_lock_acquire, spin_lock_release, is_positive, minus_one}
use longhorn.Libk.Synch.Spin.{spin_lock_acquire_lem}
use longhorn.Kernel.Task.{Tasks}
use longhorn.Kernel.Semaphore.{Semaphore, finish, semaphore_down, semaphore_up, semaphore_try_down}

-- A lock with its value and its owner, and a semaphore whose lock is free.
abbrev pub lock_with : ℕ → Ptr → SpinLock
lock_with v owner = record { val = v; owner = owner }

abbrev pub open_at : ℕ → Ptr → Ptr → Semaphore
open_at v owner w = record { val = v; lock = lock_with 0 owner; waiters = w }

pub acquire_free :
    (fuel : ℕ) (owner : Ptr)
    → 0 < fuel
    → spin_lock_acquire fuel (lock_with 0 owner) ≡ some (pos 0, lock_with 1 owner)
acquire_free fuel owner f = (spin_lock_acquire_lem fuel (lock_with 0 owner) f).0 refl

-- semaphore_try_down of a semaphore whose lock is free: a positive value is lowered by 1, and any
-- other stays, with the result -2. The lock is free afterwards, and no thread changes its state.
pub semaphore_try_down-value :
    (fuel v : ℕ) (owner w : Ptr) (k : Tasks)
    → 0 < fuel
    → v < 2 ^ 32
    → semaphore_try_down fuel (open_at v owner w) k
      ≡ some (
          if is_positive v
          then (pos 0, (open_at (v - 1) owner w, k))
          else (neg 2, (open_at v owner w, k)))
unfolding semaphore_try_down finish spin_lock_release
semaphore_try_down-value fuel v owner w k f h = elim (Bool-cases (is_positive v)) [
  | inl positive ↦
      let less : add_u32 v minus_one ≡ v - 1 = ground (arith, positive) in
      rw (acquire_free fuel owner f, positive, less) refl
  | inr other ↦ rw (acquire_free fuel owner f, other) refl
]

-- semaphore_up of a semaphore for which nobody waits, whose lock is free and whose value is at least
-- 0 and not the greatest, raises the value by 1, and semaphore_down then lowers it again without
-- waiting. No thread changes its state.
pub semaphore_down-semaphore_up :
    (fuel v : ℕ) (owner w : Ptr) (k : Tasks)
    → 0 < fuel
    → v + 1 < 2 ^ 31
    → IsList k.nodes w []
    → (semaphore_up fuel (open_at v owner w) k ≡ some (pos 0, (open_at (v + 1) owner w, k)))
      × (semaphore_down fuel (open_at (v + 1) owner w) k
          ≡ some (some (pos 0), (open_at v owner w, k)))
unfolding semaphore_up semaphore_down finish spin_lock_release
semaphore_down-semaphore_up fuel v owner w k f h waiters =
    let (_, nobody, _) = list_size-length 2 w [] k.nodes waiters (omega arith) in
    let more : add_u32 v 1 ≡ v + 1 = omega arith in
    let less : add_u32 (v + 1) minus_one ≡ v = omega arith in
    let positive : is_positive (v + 1) ≡ true = ground arith in
    (
      rw (acquire_free fuel owner f, nobody, more) refl,
      rw (acquire_free fuel owner f, positive, less) refl,
    )
