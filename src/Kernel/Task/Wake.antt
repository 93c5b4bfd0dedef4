-- ===== src/Kernel/Task/Wake.antt =====
-- kernel/thread.c and kernel/proc.c: thread_notify and proc_notify of all waiting threads.
use longhorn.Base.{
  ℕ, zero, suc, ◌+◌, ◌<◌, ◌≡◌, ◌≢◌, refl, true, false, some, List, [], ◌∷◌, if◌then◌else◌, arith,
  length, ℤ, pos, neg, ==_self,
}
use longhorn.Libk.LinkedList.{Ptr}
use longhorn.Libk.LinkedList.Chain.{has, Distinct, IsList, erase, ne_of_has, is_nil}
use longhorn.Libk.LinkedList.Delete.{list_pop-none}
use longhorn.Kernel.Task.{
  Tasks, ready, at, node_of, wait_node_of, waiters_of, thread_of_wait_node, wake_from, notify,
  thread_notify,
}
use longhorn.Kernel.Task.Lists.{AreLists, IsSched}
use longhorn.Kernel.Task.Waiting.{
  IsBlocked, AreWaiting, AllBlocked, woken, left_of, has-erase_other, length-erase-le, wait_of-node,
  length-wait_nodes, pop-AreWaiting, unblock-AreWaiting,
}

-- What waking the threads `ts` with the code `ret` makes of the state `k`.
pub record AreWoken (k k' : Tasks) (w : Ptr) (ret : ℤ) (ts rs bs ds : List Ptr) : Type 0 where
  pub lists :
      AreLists k'.nodes k.ready_threads k.blocked_threads k.dying_threads
        (woken ts rs)
        (left_of ts bs)
        ds
  pub waiters : IsList k'.nodes w []
  pub states : (u : Ptr) → k'.state u ≡ (if has u ts then ready else k.state u)
  pub codes : (u : Ptr) → k'.wait_code u ≡ (if has u ts then ret else k.wait_code u)

-- The threads that still wait are blocked after `t` was woken.
rest-AllBlocked :
    (k k' : Tasks) (t : Ptr) (ts bs : List Ptr)
    → AllBlocked k bs (t ∷ ts)
    → has t ts ≡ false
    → k'.state ≡ at k.state t ready
    → AllBlocked k' (erase (node_of t) bs) ts
rest-AllBlocked k k' t ts bs b apart same u m =
    let its : IsBlocked k.state bs u = b u (ground (arith, m)) in
    let other : u ≢ t = ne_of_has u t ts m apart in
    record {
      is_waiting = rw (same) (ground (arith, its.is_waiting, other));
      inside = has-erase_other (node_of t) (node_of u) bs (λ e. other (omega arith)) its.inside;
      address = its.address;
    }

wake_from-AreWoken :
    (rounds fuel : ℕ) (k : Tasks) (w t : Ptr) (ret : ℤ) (ts rs bs ds : List Ptr)
    → IsSched k rs bs ds
    → AreWaiting k w ts rs bs ds
    → AllBlocked k bs (t ∷ ts)
    → Distinct (t ∷ ts)
    → length ts < rounds
    → length ts + 1 < fuel
    → length bs < fuel
    → (k' : Tasks) × (wake_from rounds fuel w true ret (wait_node_of t) k ≡ some k')
      × AreWoken k k' w ret (t ∷ ts) rs bs ds
unfolding wake_from
wake_from-AreWoken zero fuel k w t ret ts rs bs ds v a b d r f g = absurd (omega arith)
wake_from-AreWoken (suc rounds) fuel k w t ret [] rs bs ds v a b d r f g =
    let its : IsBlocked k.state bs t = b t (ground (arith, ==_self t)) in
    let here : thread_of_wait_node (wait_node_of t) ≡ t = wait_of-node t its.address in
    let (h, run, v', a') =
      unblock-AreWaiting fuel (record k { wait_code = at k.wait_code t ret }) w t [] rs bs ds v a
        its g in
    (
      record k {
        nodes = h;
        interrupts = true;
        state = at k.state t ready;
        wait_code = at k.wait_code t ret;
      },
      rw (here, run, list_pop-none fuel w h a'.waiters) refl,
      record {
        lists = v';
        waiters = a'.waiters;
        states = λ u. ground arith;
        codes = λ u. ground arith;
      },
    )
wake_from-AreWoken (suc rounds) fuel k w t ret (u ∷ ts) rs bs ds v a b d r f g =
    let its : IsBlocked k.state bs t = b t (ground (arith, ==_self t)) in
    let here : thread_of_wait_node (wait_node_of t) ≡ t = wait_of-node t its.address in
    let k₀ : Tasks = record k { wait_code = at k.wait_code t ret } in
    let (h, run, v', a') = unblock-AreWaiting fuel k₀ w t (u ∷ ts) rs bs ds v a its g in
    let k₁ : Tasks = record k₀ { nodes = h; interrupts = true; state = at k.state t ready } in
    let (h₂, run₂, v₂, a₂) =
      pop-AreWaiting fuel k₁ w u ts (node_of t ∷ rs) (erase (node_of t) bs) ds v' a'
        (rw (length-wait_nodes ts) (omega arith)) in
    let k₂ : Tasks = record k₁ { nodes = h₂ } in
    let (k', run', done) =
      wake_from-AreWoken rounds fuel k₂ w u ret ts (node_of t ∷ rs) (erase (node_of t) bs) ds v₂ a₂
        (rest-AllBlocked k k₂ t (u ∷ ts) bs b d.0 refl) d.1 (omega arith) (omega arith)
        (ground (arith, length-erase-le (node_of t) bs)) in
    (
      k',
      rw (here, run, run₂) (rw (run') (ground arith)),
      record {
        lists = done.lists;
        waiters = done.waiters;
        states = λ x. ground (arith, done.states x);
        codes = λ x. ground (arith, done.codes x);
      },
    )

-- thread_notify with `all`, where the threads `ts` wait for `t`: every one of them is ready, in the
-- ready list, and was given the code `ret`. No other thread's state or code changes, and nobody
-- waits any more. One round of fuel more than threads are blocked, and one more than wait, are
-- enough. When nobody waits, the result is -1.
pub thread_notify-AreWoken :
    (fuel : ℕ) (t : Ptr) (ret : ℤ) (k : Tasks) (ts rs bs ds : List Ptr)
    → IsSched k rs bs ds
    → AreWaiting k (waiters_of t) ts rs bs ds
    → AllBlocked k bs ts
    → Distinct ts
    → length ts < fuel
    → length bs < fuel
    → (k' : Tasks) × (thread_notify fuel t true ret k
        ≡ some ((if is_nil ts then neg 1 else pos 0), k'))
      × AreWoken k k' (waiters_of t) ret ts rs bs ds
unfolding thread_notify notify
thread_notify-AreWoken fuel t ret k [] rs bs ds v a b d f g = (
  k,
  rw (list_pop-none fuel (waiters_of t) k.nodes a.waiters) refl,
  record { lists = v; waiters = a.waiters; states = λ u. refl; codes = λ u. refl },
)
thread_notify-AreWoken fuel t ret k (u ∷ ts) rs bs ds v a b d f g =
    let (h, run, v', a') =
      pop-AreWaiting fuel k (waiters_of t) u ts rs bs ds v a
        (rw (length-wait_nodes ts) (omega arith)) in
    let (k', run', done) =
      wake_from-AreWoken fuel fuel (record k { nodes = h }) (waiters_of t) u ret ts rs bs ds v' a' b
        d (omega arith) (omega arith) g in
    (
      k',
      rw (run) (rw (run') (ground arith)),
      record {
        lists = done.lists;
        waiters = done.waiters;
        states = done.states;
        codes = done.codes;
      },
    )

-- thread_notify without `all`, where `t` and `u` are the first to wait: `t` is woken, but `u` is taken
-- off the waiting list as well and stays blocked. One round of fuel more than threads are blocked, and
-- one more than wait, are enough.
pub thread_notify-lost :
    (fuel : ℕ) (a t u : Ptr) (ret : ℤ) (k : Tasks) (ts rs bs ds : List Ptr)
    → IsSched k rs bs ds
    → AreWaiting k (waiters_of a) (t ∷ u ∷ ts) rs bs ds
    → AllBlocked k bs (t ∷ u ∷ ts)
    → Distinct (t ∷ u ∷ ts)
    → length ts + 2 < fuel
    → length bs < fuel
    → (k' : Tasks) × (thread_notify fuel a false ret k ≡ some (pos 0, k'))
      × IsSched k' (node_of t ∷ rs) (erase (node_of t) bs) ds
      × AreWaiting k' (waiters_of a) ts (node_of t ∷ rs) (erase (node_of t) bs) ds
      × (k'.state t ≡ ready)
      × AllBlocked k' (erase (node_of t) bs) (u ∷ ts)
unfolding thread_notify notify wake_from
thread_notify-lost zero a t u ret k ts rs bs ds v w b d f g = absurd (omega arith)
thread_notify-lost (suc fuel) a t u ret k ts rs bs ds v w b d f g =
    let l : Ptr = waiters_of a in
    let its : IsBlocked k.state bs t = b t (ground (arith, ==_self t)) in
    let here : thread_of_wait_node (wait_node_of t) ≡ t = wait_of-node t its.address in
    let (h, run, v₁, w₁) =
      pop-AreWaiting (suc fuel) k l t (u ∷ ts) rs bs ds v w
        (rw (length-wait_nodes ts) (omega arith)) in
    let k₁ : Tasks = record k { nodes = h; wait_code = at k.wait_code t ret } in
    let (h₂, run₂, v₂, w₂) = unblock-AreWaiting (suc fuel) k₁ l t (u ∷ ts) rs bs ds v₁ w₁ its g in
    let k₂ : Tasks = record k₁ { nodes = h₂; interrupts = true; state = at k.state t ready } in
    let (h₃, run₃, v₃, w₃) =
      pop-AreWaiting (suc fuel) k₂ l u ts (node_of t ∷ rs) (erase (node_of t) bs) ds v₂ w₂
        (rw (length-wait_nodes ts) (omega arith)) in
    let k₃ : Tasks = record k₂ { nodes = h₃ } in
    (
      k₃,
      rw (run) (rw (here, run₂, run₃) (ground arith)),
      v₃,
      w₃,
      ground (arith, ==_self t),
      rest-AllBlocked k k₃ t (u ∷ ts) bs b d.0 refl,
    )
