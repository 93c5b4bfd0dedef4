-- ===== src/Kernel/Task/Lists.antt =====
-- The three lists of kernel/thread.c together, and thread_unblock on them.
use longhorn.Base.{ℕ, ◌<◌, ◌≡◌, ◌⊎◌, refl, true, false, some, List, ◌∷◌, ◌++◌, ◌==◌, arith, length}
use longhorn.Libk.LinkedList.{Ptr, null, Nodes}
use longhorn.Libk.LinkedList.Chain.{has, IsList, erase, has-append}
use longhorn.Libk.LinkedList.Frame.{area, Disjoint, SameOutside, IsList-SameOutside}
use longhorn.Libk.LinkedList.Leave.{move-IsList, has-erase_inner, Disjoint-sym}
use longhorn.Kernel.Task.{Tasks, ready, blocked, at, node_of, thread_unblock}

-- The lists at `r`, `b` and `d` hold the nodes `rs`, `bs` and `ds`, and share none.
pub record AreLists (h : Nodes) (r b d : Ptr) (rs bs ds : List Ptr) : Type 0 where
  pub ready_list : IsList h r rs
  pub blocked_list : IsList h b bs
  pub dying_list : IsList h d ds
  pub ready_blocked : Disjoint (area r rs) (area b bs)
  pub ready_dying : Disjoint (area r rs) (area d ds)
  pub blocked_dying : Disjoint (area b bs) (area d ds)

-- The ready, the blocked and the dying list.
abbrev pub IsSched : Tasks → List Ptr → List Ptr → List Ptr → Type 0
IsSched k rs bs ds = AreLists k.nodes k.ready_threads k.blocked_threads k.dying_threads rs bs ds

-- thread_unblock of a blocked thread: it becomes ready, and goes from the blocked list to the front
-- of the ready list. One round of fuel more than threads are blocked is enough.
pub thread_unblock-IsSched :
    (fuel : ℕ) (t : Ptr) (k : Tasks) (rs bs ds : List Ptr)
    → IsSched k rs bs ds
    → k.state t ≡ blocked
    → has (node_of t) bs ≡ true
    → length bs < fuel
    → (h : Nodes) × (thread_unblock fuel t k
        ≡ some (record k { nodes = h; interrupts = true; state = at k.state t ready }))
      × IsSched
          (record k { nodes = h; interrupts = true; state = at k.state t ready })
          (node_of t ∷ rs)
          (erase (node_of t) bs)
          ds
      × SameOutside k.nodes h (area k.blocked_threads bs ++ area k.ready_threads rs)
unfolding thread_unblock
thread_unblock-IsSched fuel t k rs bs ds v waiting inside f =
    let (h', h, run, run', b, r, apart, same) =
      move-IsList fuel k.blocked_threads k.ready_threads (node_of t) bs rs k.nodes v.blocked_list
        v.ready_list
        (Disjoint-sym (area k.ready_threads rs) (area k.blocked_threads bs) v.ready_blocked) inside
        f in
    let there : (node_of t == null) ≡ false = ground arith in
    (
      h,
      rw (waiting, run, there, run') refl,
      record {
        ready_list = r;
        blocked_list = b;
        dying_list =
            IsList-SameOutside _ same
              (λ a m. ground (
                arith,
                has-append a (area k.blocked_threads bs) (area k.ready_threads rs),
                dying_at a,
              ))
              v.dying_list;
        ready_blocked = λ a m. ground (arith, apart a);
        ready_dying = λ a m. ground (arith, v.ready_dying a, v.blocked_dying (node_of t));
        blocked_dying = λ a m. ground (arith, v.blocked_dying a, has-erase_inner (node_of t) a bs);
      },
      same,
    )
  where
    dying_at :
        (a : Ptr)
        → (has a (area k.dying_threads ds) ≡ false)
          ⊎ ((has a (area k.blocked_threads bs) ≡ false)
              × (has a (area k.ready_threads rs) ≡ false))
    dying_at a = ground (arith, v.ready_dying a, v.blocked_dying a)
