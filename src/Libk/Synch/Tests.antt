-- ===== src/Libk/Synch/Tests.antt =====
-- The theorems on the spin lock at one lock, and a run of two threads.
use longhorn.Base.{ℕ, refl}
use longhorn.Libk.Synch.{SpinLock}
use longhorn.Libk.Synch.Interleave.{
  State, outside, spinning, inside, Reach, here, next, check, exchange, IsSafe, Reach-IsSafe, move,
}

abbrev lock_at : ℕ → SpinLock
lock_at v = record { val = v; owner = 0 }

abbrev start : State
start = record { val = 0; place = λ t. outside }

abbrev checked_state : State
checked_state = record { val = 0; place = move (λ t. outside) 3 spinning }

abbrev taken_state : State
taken_state = record { val = 1; place = move (move (λ t. outside) 3 spinning) 3 inside }

taken : Reach start taken_state
taken = next {t = checked_state} (next here (check 3 refl refl)) (exchange 3 refl refl)

Reach-IsSafe_example : IsSafe taken_state
Reach-IsSafe_example = Reach-IsSafe start taken_state refl (λ t. refl) taken
