-- ===== src/Libk/Synch.antt =====
-- libk/atomic.c and the spin lock of libk/synch.c.
-- An `int` is its 32-bit pattern. A busy wait runs on fuel; `none` is a wait that does not end
-- within it. This module runs one thread alone; `Interleave` runs many.
pub mod Spin
pub mod Interleave
mod Tests
use longhorn.Base.{
  ℕ, zero, suc, ◌^◌, ◌-◌, Bool, not, ◌||◌, ◌&&◌, Option, none, some, ◌==◌, ltb, if◌then◌else◌,
  ◌>>=◌, ℤ, pos, neg, add_u32,
}

-- The error codes of include/libk/kerrors.h.
abbrev pub lock_init_fail : ℕ
lock_init_fail = 1

abbrev pub lock_acq_fail : ℕ
lock_acq_fail = 2

abbrev pub lock_rel_fail : ℕ
lock_rel_fail = 3

-- `owner` is the address of a thread, 0 for NULL.
pub record SpinLock : Type 0 where
  pub val : ℕ
  pub owner : ℕ

-- The pattern of -1.
abbrev pub minus_one : ℕ
minus_one = 2 ^ 32 - 1

-- `x > 0` on an `int`.
abbrev pub is_positive : ℕ → Bool
is_positive x = ltb 0 x && ltb x (2 ^ 31)

-- The old value, and the new one.
abbrev pub test_and_set : ℕ → ℕ × ℕ
test_and_set dest = (dest, 1)

abbrev pub fetch_and_add : ℕ → ℕ → ℕ × ℕ
fetch_and_add dest val = (dest, add_u32 dest val)

-- `none` for the argument is NULL.
unfoldable pub spin_lock_init : Option SpinLock → ℤ × Option SpinLock
spin_lock_init none = (neg lock_init_fail, none)
spin_lock_init (some sl) = (pos 0, some (record { val = 0; owner = 0 }))

-- `while (test_and_set(&sl->val) > 0) {}`
unfoldable pub spin : ℕ → SpinLock → Option SpinLock
spin zero sl = none
spin (suc fuel) sl =
    let (old, new) = test_and_set sl.val in
    let rest = spin fuel (record sl { val = new }) in
    if is_positive old then rest else some (record sl { val = new })

unfoldable pub spin_lock_acquire : ℕ → SpinLock → Option (ℤ × SpinLock)
spin_lock_acquire fuel sl =
    if not (sl.val == 0 || sl.val == 1)
    then some (neg lock_acq_fail, sl)
    else (do sl' ← spin fuel sl; some (pos 0, sl'))

unfoldable pub spin_lock_release : SpinLock → ℤ × SpinLock
spin_lock_release sl =
    let (old, new) = fetch_and_add sl.val minus_one in
    let sl' = record sl { val = new } in
    if not (old == 1) then (neg lock_rel_fail, sl') else (pos 0, sl')
