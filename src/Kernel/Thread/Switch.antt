-- ===== src/Kernel/Thread/Switch.antt =====
-- kernel/thread.c: the steps of schedule where two threads or more are ready.
use longhorn.Base.{
  ℕ, ◌+◌, ◌<◌, ◌≡◌, ◌≢◌, refl, true, false, some, List, [], ◌∷◌, ◌++◌, ◌==◌, arith, length, ==_ne,
  ==_self,
}
use longhorn.Libk.LinkedList.{Ptr, null, Nodes}
use longhorn.Libk.LinkedList.Chain.{has, has-append}
use longhorn.Libk.LinkedList.Walk.{list_size-length}
use longhorn.Libk.LinkedList.Frame.{area, IsList-SameOutside, list_insert_end-SameOutside}
use longhorn.Libk.LinkedList.Leave.{list_pop-SameOutside, Disjoint-sym}
use longhorn.Kernel.Task.{Tasks, ready, running, node_of, thread_of_node, set_state}
use longhorn.Kernel.Task.Lists.{IsSched}
use longhorn.Kernel.Thread.{
  next_node, choose, put_back, switch_to, finish_schedule, proc_set_active_thread,
}

-- schedule takes the first of two ready threads or more out of the list.
pub choose-first :
    (fuel : ℕ) (k : Tasks) (x y : Ptr) (rs bs ds : List Ptr)
    → IsSched k (x ∷ y ∷ rs) bs ds
    → length rs + 3 < fuel
    → (h : Nodes) × (choose fuel k ≡ some (thread_of_node x, record k { nodes = h }))
      × IsSched (record k { nodes = h }) (y ∷ rs) bs ds
unfolding choose next_node
choose-first fuel k x y rs bs ds v f =
    let (h, run, ready_list, same) =
      list_pop-SameOutside fuel k.ready_threads x (y ∷ rs) k.nodes v.ready_list (omega arith) in
    let (size, _, _) =
      list_size-length fuel k.ready_threads (x ∷ y ∷ rs) k.nodes v.ready_list (omega arith) in
    let more : (length (x ∷ y ∷ rs) == 1) ≡ false = ground arith in
    let there : (x == null) ≡ false = ground (arith, v.ready_list.apart.no_null) in
    (
      h,
      rw (size, more, run, there) refl,
      record {
        ready_list = ready_list;
        blocked_list =
            IsList-SameOutside _ same
              (Disjoint-sym (area k.ready_threads (x ∷ y ∷ rs)) (area k.blocked_threads bs)
                v.ready_blocked)
              v.blocked_list;
        dying_list =
            IsList-SameOutside _ same
              (Disjoint-sym (area k.ready_threads (x ∷ y ∷ rs)) (area k.dying_threads ds)
                v.ready_dying)
              v.dying_list;
        ready_blocked = λ a m. ground (arith, v.ready_blocked a);
        ready_dying = λ a m. ground (arith, v.ready_dying a);
        blocked_dying = v.blocked_dying;
      },
    )

-- `node` is in none of the three lists.
pub record IsApart (node r b d : Ptr) (rs bs ds : List Ptr) : Type 0 where
  pub ready_out : has node (area r rs) ≡ false
  pub blocked_out : has node (area b bs) ≡ false
  pub dying_out : has node (area d ds) ≡ false

abbrev pub IsOut : Ptr → Tasks → List Ptr → List Ptr → List Ptr → Type 0
IsOut node k rs bs ds = IsApart node k.ready_threads k.blocked_threads k.dying_threads rs bs ds

-- The running thread goes to the end of the ready list.
pub put_back-last :
    (k : Tasks) (rs bs ds : List Ptr)
    → IsSched k rs bs ds
    → IsOut (node_of k.current) k rs bs ds
    → k.state k.current ≡ running
    → (h : Nodes) × (put_back k ≡ some (record (set_state k.current ready k) { nodes = h }))
      × IsSched
          (record (set_state k.current ready k) { nodes = h })
          (rs ++ node_of k.current ∷ [])
          bs
          ds
unfolding put_back
put_back-last k rs bs ds v out here =
    let (h, run, ready_list, same) =
      list_insert_end-SameOutside k.ready_threads (node_of k.current) rs k.nodes v.ready_list
        (ground (arith, out.ready_out)) in
    let self : (k.current == k.current) ≡ true = ==_self k.current in
    (
      h,
      rw (here, self, run) refl,
      record {
        ready_list = ready_list;
        blocked_list =
            IsList-SameOutside _ same
              (λ a m. ground (
                arith,
                out.blocked_out,
                Disjoint-sym (area k.ready_threads rs) (area k.blocked_threads bs) v.ready_blocked
                    a,
              ))
              v.blocked_list;
        dying_list =
            IsList-SameOutside _ same
              (λ a m. ground (
                arith,
                out.dying_out,
                Disjoint-sym (area k.ready_threads rs) (area k.dying_threads ds) v.ready_dying a,
              ))
              v.dying_list;
        ready_blocked = λ a m.
            ground
              (arith, out.blocked_out, v.ready_blocked a, has-append a rs (node_of k.current ∷ []));
        ready_dying = λ a m.
            ground
              (arith, out.dying_out, v.ready_dying a, has-append a rs (node_of k.current ∷ []));
        blocked_dying = v.blocked_dying;
      },
    )

-- What finish_schedule makes of the state if no thread is dying.
abbrev pub taken_over : Tasks → Tasks
taken_over k =
    record (proc_set_active_thread (k.proc_of k.current) (k.child_num k.current)
      (set_state k.current running k)) { interrupts = true }

finish_schedule-taken_over :
    (fuel : ℕ) (k : Tasks) (rs bs : List Ptr)
    → IsSched k rs bs []
    → 1 < fuel
    → finish_schedule fuel k ≡ some (taken_over k)
unfolding finish_schedule
finish_schedule-taken_over fuel k rs bs v f =
    let (_, empty, _) = list_size-length fuel k.dying_threads [] k.nodes v.dying_list f in
    rw empty refl

pub switch_to-taken_over :
    (fuel : ℕ) (t : Ptr) (k : Tasks) (rs bs : List Ptr)
    → IsSched k rs bs []
    → 1 < fuel
    → t ≢ k.current
    → k.state t ≡ ready
    → switch_to fuel t k ≡ some (taken_over (record k { current = t }))
unfolding switch_to
switch_to-taken_over fuel t k rs bs v f ne r =
    rw (==_ne t k.current ne, r)
      (finish_schedule-taken_over fuel (record k { current = t }) rs bs v f)
