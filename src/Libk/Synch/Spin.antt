-- ===== src/Libk/Synch/Spin.antt =====
-- The spin lock of libk/synch.c, used by one thread.
use longhorn.Base.{
  ◌==◌, if◌then◌else◌, ap, ℕ, zero, suc, ◌<◌, ◌≡◌, ◌≢◌, some, none, refl, arith, pos, neg,
}
use longhorn.Libk.Synch.{
  SpinLock, spin, spin_lock_acquire, spin_lock_release, lock_acq_fail, lock_rel_fail,
}

spin-held : (fuel : ℕ) (sl : SpinLock) → sl.val ≡ 1 → spin fuel sl ≡ none
unfolding spin
spin-held zero sl h = refl
spin-held (suc fuel) sl h = ground (arith, spin-held fuel (record sl { val = 1 }))

pub spin_lock_acquire_lem :
    (fuel : ℕ) (sl : SpinLock)
    → 0 < fuel
    → (sl.val ≡ 0 → spin_lock_acquire fuel sl ≡ some (pos 0, record sl { val = 1 }))
      × (sl.val ≡ 1 → spin_lock_acquire fuel sl ≡ none)
      × (sl.val ≢ 0 → sl.val ≢ 1 → spin_lock_acquire fuel sl ≡ some (neg lock_acq_fail, sl))
unfolding spin_lock_acquire spin
spin_lock_acquire_lem zero sl h = absurd (omega arith)
spin_lock_acquire_lem (suc fuel) sl h =
    (λ e. ground arith, λ e. ground (arith, spin-held (suc fuel) sl), λ p q. ground arith)

pub spin_lock_release_lem :
    (fuel : ℕ) (sl : SpinLock)
    → (sl.val ≡ 1 → spin_lock_release sl ≡ (pos 0, record sl { val = 0 }))
      × (sl.val ≡ 0
          → ((spin_lock_release sl).0 ≡ neg lock_rel_fail)
            × (spin_lock_acquire fuel (spin_lock_release sl).1
                ≡ some (neg lock_acq_fail, (spin_lock_release sl).1)))
unfolding spin_lock_release spin_lock_acquire
spin_lock_release_lem fuel sl = (λ e. ground arith, λ e. (ground arith, ground arith))

-- spin_lock_acquire, run with fuel by the only thread: it takes a free lock, waits for ever for one
-- that is held, and refuses one with any other value.
pub spin_lock_acquire_outcome :
    (fuel : ℕ) (sl : SpinLock)
    → 0 < fuel
    → spin_lock_acquire fuel sl ≡ (
        if sl.val == 0
        then some (pos 0, record sl { val = 1 })
        else if sl.val == 1
        then none
        else some (neg lock_acq_fail, sl))
spin_lock_acquire_outcome fuel sl h =
    let (free, taken, bad) = spin_lock_acquire_lem fuel sl h in ground (arith, free, taken, bad)

-- An acquire of a free lock and a release leave it free. A second release is reported, and leaves
-- it with a value that every later acquire refuses.
pub spin_lock_release_twice :
    (fuel later : ℕ) (sl : SpinLock)
    → 0 < fuel
    → sl.val ≡ 0
    → (taken twice : SpinLock) × (spin_lock_acquire fuel sl ≡ some (pos 0, taken))
      × (spin_lock_release taken ≡ (pos 0, record taken { val = 0 }))
      × (spin_lock_release (record taken { val = 0 }) ≡ (neg lock_rel_fail, twice))
      × (spin_lock_acquire later twice ≡ some (neg lock_acq_fail, twice))
spin_lock_release_twice fuel later sl h e =
    let taken : SpinLock = record sl { val = 1 } in
    let freed : SpinLock = record taken { val = 0 } in
    (
      taken,
      (spin_lock_release freed).1,
      (spin_lock_acquire_lem fuel sl h).0 e,
      (spin_lock_release_lem later taken).0 refl,
      ap (λ code. (code, (spin_lock_release freed).1))
          ((spin_lock_release_lem later freed).1 refl).0,
      ((spin_lock_release_lem later freed).1 refl).1,
    )
