-- ===== src/Kernel/Thread/Turns.antt =====
-- kernel/thread.c: schedule where two threads or more are ready.
use longhorn.Base.{
  ℕ, ◌+◌, ◌-◌, ◌^◌, ◌<◌, ◌≡◌, ◌≢◌, refl, true, false, some, List, [], ◌∷◌, ◌++◌, map, ◌==◌, arith,
  length, ==_ne, ==_self,
}
use longhorn.Libk.LinkedList.{Ptr, Nodes}
use longhorn.Libk.LinkedList.Chain.{has, has-append}
use longhorn.Kernel.Task.{Tasks, ready, running, at, node_of, thread_of_node, set_state}
use longhorn.Kernel.Task.Lists.{IsSched}
use longhorn.Kernel.Thread.{schedule}
use longhorn.Kernel.Thread.Switch.{
  IsOut, choose-first, put_back-last, taken_over, switch_to-taken_over,
}

-- The threads `ts` are ready, in the order of the list, and the running thread is in no list. No
-- thread is dying.
pub record IsTurn (k : Tasks) (ts bs : List Ptr) : Type 0 where
  pub sched : IsSched k (map node_of ts) bs []
  pub all_ready : (t : Ptr) → has t ts ≡ true → k.state t ≡ ready
  pub cur_running : k.state k.current ≡ running
  pub cur_out : IsOut (node_of k.current) k (map node_of ts) bs []
  pub addresses : (t : Ptr) → has t (k.current ∷ ts) ≡ true → t < 2 ^ 32 - 96

has-map_node : (t : Ptr) (ts : List Ptr) → has (node_of t) (map node_of ts) ≡ has t ts
has-map_node t [] = refl
has-map_node t (u ∷ ts) = ground (arith, has-map_node t ts)

map-snoc : (t : Ptr) (ts : List Ptr) → map node_of (ts ++ t ∷ []) ≡ map node_of ts ++ node_of t ∷ []
map-snoc t [] = refl
map-snoc t (u ∷ ts) = rw (map-snoc t ts) refl

pub length-map_node : (ts : List Ptr) → length (map node_of ts) ≡ length ts
length-map_node [] = refl
length-map_node (t ∷ ts) = omega (arith, length-map_node ts)

thread_of-node_of : (t : Ptr) → t < 2 ^ 32 - 96 → thread_of_node (node_of t) ≡ t
thread_of-node_of t h = omega arith

-- The first thread of the list takes over, and the running one goes to the end.
schedule-first :
    (fuel : ℕ) (k : Tasks) (t u : Ptr) (ts bs : List Ptr)
    → IsTurn k (t ∷ u ∷ ts) bs
    → length (map node_of ts) + 3 < fuel
    → (h : Nodes) × (schedule fuel k
        ≡ some (
            taken_over (record (set_state k.current ready k) {
              nodes = h;
              interrupts = false;
              current = t;
            })))
      × IsSched
          (record k { nodes = h })
          (node_of u ∷ map node_of ts ++ node_of k.current ∷ [])
          bs
          []
unfolding schedule
schedule-first fuel k t u ts bs v f =
    let (h₁, chosen, v₁) =
      choose-first fuel (record k { interrupts = false }) (node_of t) (node_of u) (map node_of ts)
        bs [] v.sched f in
    let out : IsOut (node_of k.current) k (node_of u ∷ map node_of ts) bs [] = record {
      ready_out = ground (arith, v.cur_out.ready_out);
      blocked_out = v.cur_out.blocked_out;
      dying_out = v.cur_out.dying_out;
    } in
    let (h₂, back, v₂) =
      put_back-last (record k { interrupts = false; nodes = h₁ }) (node_of u ∷ map node_of ts) bs []
        v₁ out v.cur_running in
    let other : t ≢ k.current = ground (arith, v.cur_out.ready_out) in
    let there : thread_of_node (node_of t) ≡ t =
      thread_of-node_of t (v.addresses t (ground (arith, ==_self t))) in
    let not_same : (t == k.current) ≡ false = ==_ne t k.current other in
    let its_state : at k.state k.current ready t ≡ ready =
      ground (arith, v.all_ready t (ground (arith, ==_self t))) in
    let switched =
      switch_to-taken_over fuel t
        (record (set_state k.current ready k) { interrupts = false; nodes = h₂ })
        (node_of u ∷ map node_of ts ++ node_of k.current ∷ []) bs v₂ (omega arith) other
        its_state in
    (h₂, rw (chosen, back, there, not_same) switched, v₂)

-- With two ready threads or more and none dying: schedule gives the processor to the first, which is
-- then running, and puts the running thread at the end of the ready list. Two rounds of fuel
-- more than threads are ready are enough.
pub schedule-IsTurn :
    (fuel : ℕ) (k : Tasks) (t u : Ptr) (ts bs : List Ptr)
    → IsTurn k (t ∷ u ∷ ts) bs
    → length ts + 3 < fuel
    → (k' : Tasks) × (schedule fuel k ≡ some k')
      × IsTurn k' (u ∷ ts ++ k.current ∷ []) bs
      × (k'.current ≡ t)
schedule-IsTurn fuel k t u ts bs v f =
    let (h, run, s) = schedule-first fuel k t u ts bs v (omega (arith, length-map_node ts)) in
    (
      taken_over
          (record (set_state k.current ready k) { nodes = h; interrupts = false; current = t }),
      run,
      record {
        sched = rw (map-snoc k.current ts) s;
        all_ready = λ w m. ground (arith, has-append w ts (k.current ∷ []), v.all_ready w, t_out w);
        cur_running = ground (arith, ==_self t);
        cur_out = rw (map-snoc k.current ts) (record {
          ready_out = ground (
            arith,
            has-append (node_of t) (map node_of ts) (node_of k.current ∷ []),
            v.sched.ready_list.apart.distinct,
            v.sched.ready_list.apart.no_head,
            v.sched.ready_list.apart.no_tail,
            v.cur_out.ready_out,
          );
          blocked_out = v.sched.ready_blocked (node_of t) (ground (arith, ==_self (node_of t)));
          dying_out = v.sched.ready_dying (node_of t) (ground (arith, ==_self (node_of t)));
        });
        addresses = λ w m. ground (arith, has-append w ts (k.current ∷ []), v.addresses w);
      },
      refl,
    )
  where
    t_out : (w : Ptr) → has w (u ∷ ts ++ k.current ∷ []) ≡ true → w ≢ t
    t_out w m = ground (
      arith,
      has-append w ts (k.current ∷ []),
      has-map_node w ts,
      v.sched.ready_list.apart.distinct,
      v.cur_out.ready_out,
    )
