-- ===== src/Kernel/Task/Waiting.antt =====
-- kernel/thread.c and kernel/proc.c: the threads that wait in a list, and one step of notify.
use longhorn.Base.{
  ℕ, ◌+◌, ◌-◌, ◌^◌, ◌<◌, ◌≤◌, ◌≡◌, ◌≢◌, refl, true, some, List, [], ◌∷◌, ◌++◌, map, arith, length,
  Bool-cases,
}
use longhorn.Libk.LinkedList.{Ptr, Nodes, list_pop}
use longhorn.Libk.LinkedList.Chain.{has, IsList, erase, has-append}
use longhorn.Libk.LinkedList.Frame.{area, Disjoint, IsList-SameOutside}
use longhorn.Libk.LinkedList.Leave.{list_pop-SameOutside, Disjoint-sym, has-erase_inner}
use longhorn.Kernel.Task.{
  Tasks, ThreadState, ready, blocked, at, node_of, wait_node_of, thread_of_wait_node,
  thread_unblock,
}
use longhorn.Kernel.Task.Lists.{IsSched, thread_unblock-IsSched}

-- The list at `w` holds the wait nodes of `ts`, and shares none with the three lists of IsSched.
pub record IsWaitList (h : Nodes) (w r b d : Ptr) (ts rs bs ds : List Ptr) : Type 0 where
  pub waiters : IsList h w (map wait_node_of ts)
  pub ready_apart : Disjoint (area w (map wait_node_of ts)) (area r rs)
  pub blocked_apart : Disjoint (area w (map wait_node_of ts)) (area b bs)
  pub dying_apart : Disjoint (area w (map wait_node_of ts)) (area d ds)

abbrev pub AreWaiting : Tasks → Ptr → List Ptr → List Ptr → List Ptr → List Ptr → Type 0
AreWaiting k w ts rs bs ds =
    IsWaitList k.nodes w k.ready_threads k.blocked_threads k.dying_threads ts rs bs ds

-- The thread is blocked, in the list `bs`, and inside the address space.
pub record IsBlocked (state : Ptr → ThreadState) (bs : List Ptr) (t : Ptr) : Type 0 where
  pub is_waiting : state t ≡ blocked
  pub inside : has (node_of t) bs ≡ true
  pub address : t < 2 ^ 32 - 96

abbrev pub AllBlocked : Tasks → List Ptr → List Ptr → Type 0
AllBlocked k bs ts = (t : Ptr) → has t ts ≡ true → IsBlocked k.state bs t

-- The ready and the blocked list after the threads `ts` were woken one by one.
abbrev pub woken : List Ptr → List Ptr → List Ptr
woken [] rs = rs
woken (t ∷ ts) rs = woken ts (node_of t ∷ rs)

abbrev pub left_of : List Ptr → List Ptr → List Ptr
left_of [] bs = bs
left_of (t ∷ ts) bs = left_of ts (erase (node_of t) bs)

pub has-erase_other :
    (n a : Ptr) (xs : List Ptr) → a ≢ n → has a xs ≡ true → has a (erase n xs) ≡ true
has-erase_other n a [] ne m = m
has-erase_other n a (x ∷ xs) ne m = ground (arith, has-erase_other n a xs)

pub length-erase-le : (n : Ptr) (xs : List Ptr) → length (erase n xs) ≤ length xs
length-erase-le n [] = omega arith
length-erase-le n (x ∷ xs) = ground (arith, length-erase-le n xs)

pub wait_of-node : (t : Ptr) → t < 2 ^ 32 - 96 → thread_of_wait_node (wait_node_of t) ≡ t
wait_of-node t h = omega arith

pub length-wait_nodes : (ts : List Ptr) → length (map wait_node_of ts) ≡ length ts
length-wait_nodes [] = refl
length-wait_nodes (t ∷ ts) = ground (arith, length-wait_nodes ts)

-- The next waiting thread is taken off the list.
pub pop-AreWaiting :
    (fuel : ℕ) (k : Tasks) (w t : Ptr) (ts rs bs ds : List Ptr)
    → IsSched k rs bs ds
    → AreWaiting k w (t ∷ ts) rs bs ds
    → length (map wait_node_of ts) + 1 < fuel
    → (h : Nodes) × (list_pop fuel w k.nodes ≡ some (wait_node_of t, h))
      × IsSched (record k { nodes = h }) rs bs ds
      × AreWaiting (record k { nodes = h }) w ts rs bs ds
pop-AreWaiting fuel k w t ts rs bs ds v a f =
    let (h, run, waiters, same) =
      list_pop-SameOutside fuel w (wait_node_of t) (map wait_node_of ts) k.nodes a.waiters f in
    let all : List Ptr = area w (wait_node_of t ∷ map wait_node_of ts) in
    (
      h,
      run,
      record {
        ready_list =
            IsList-SameOutside all same (Disjoint-sym all (area k.ready_threads rs) a.ready_apart)
              v.ready_list;
        blocked_list =
            IsList-SameOutside all same
              (Disjoint-sym all (area k.blocked_threads bs) a.blocked_apart) v.blocked_list;
        dying_list =
            IsList-SameOutside all same (Disjoint-sym all (area k.dying_threads ds) a.dying_apart)
              v.dying_list;
        ready_blocked = v.ready_blocked;
        ready_dying = v.ready_dying;
        blocked_dying = v.blocked_dying;
      },
      record {
        waiters = waiters;
        ready_apart = λ p m. a.ready_apart p (ground arith);
        blocked_apart = λ p m. a.blocked_apart p (ground arith);
        dying_apart = λ p m. a.dying_apart p (ground arith);
      },
    )

-- One thread is woken, and the others wait on.
pub unblock-AreWaiting :
    (fuel : ℕ) (k : Tasks) (w t : Ptr) (ts rs bs ds : List Ptr)
    → IsSched k rs bs ds
    → AreWaiting k w ts rs bs ds
    → IsBlocked k.state bs t
    → length bs < fuel
    → (h : Nodes) × (thread_unblock fuel t k
        ≡ some (record k { nodes = h; interrupts = true; state = at k.state t ready }))
      × IsSched (record k { nodes = h }) (node_of t ∷ rs) (erase (node_of t) bs) ds
      × AreWaiting (record k { nodes = h }) w ts (node_of t ∷ rs) (erase (node_of t) bs) ds
unblock-AreWaiting fuel k w t ts rs bs ds v a b f =
    let (h, run, v', same) = thread_unblock-IsSched fuel t k rs bs ds v b.is_waiting b.inside f in
    (
      h,
      run,
      v',
      record {
        waiters =
            IsList-SameOutside (area k.blocked_threads bs ++ area k.ready_threads rs) same
              (λ p m. ground (
                arith,
                has-append p (area k.blocked_threads bs) (area k.ready_threads rs),
                a.blocked_apart p,
                a.ready_apart p,
              ))
              a.waiters;
        ready_apart = λ p m. ground (arith, a.ready_apart p, a.blocked_apart p, b.inside);
        blocked_apart = λ p m. ground (
          arith,
          a.blocked_apart p,
          has-erase_inner (node_of t) p bs,
          Bool-cases (has p (erase (node_of t) bs)),
        );
        dying_apart = a.dying_apart;
      },
    )
