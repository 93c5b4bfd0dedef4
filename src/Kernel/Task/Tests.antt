-- ===== src/Kernel/Task/Tests.antt =====
-- Three threads: 4096 and 8192 are blocked and wait for 12288, which is running.
use longhorn.Base.{◌≡◌, refl, true, some, [], ◌∷◌, ◌++◌, arith, pos, neg, if◌then◌else◌, ◌==◌}
use longhorn.Libk.LinkedList.{Nodes}
use longhorn.Libk.LinkedList.Frame.{area, SameOutside}
use longhorn.Kernel.Samples.{nothing}
use longhorn.Kernel.Task.{
  Tasks, blocked, running, ready, thread_unblock, thread_notify, at, waiters_of,
}
use longhorn.Kernel.Task.Lists.{IsSched, thread_unblock-IsSched}
use longhorn.Kernel.Task.Wake.{AreWoken, thread_notify-AreWoken}
use longhorn.Kernel.Task.Waiting.{AreWaiting, AllBlocked}

-- The lists are at 1000, 1100 and 1200.
abbrev memory : Nodes
memory = record {
  next =
      at
        (at
          (at
            (at
              (at
                (at
                  (at (at (at (at (at (λ p. 0) 1000 1008) 1100 4192) 4192 8288) 8288 1108) 1200
                    1208)
                  12356 4184)
                4184 8280)
              8280 12364)
            12364 0)
          1008 0)
        1108 0;
  prev =
      at
        (at
          (at (at (at (at (at (at (λ p. 0) 1008 1000) 4192 1100) 8288 4192) 1108 8288) 1208 1200)
            4184 12356)
          8280 4184)
        12364 8280;
}

abbrev waiting : Tasks
waiting = record nothing {
  nodes = memory;
  current = 12288;
  state = λ t. if t == 12288 then running else blocked;
}

waiting-IsSched : IsSched waiting [] (4192 ∷ 8288 ∷ []) []
waiting-IsSched = record {
  ready_list = ground arith;
  blocked_list = ground arith;
  dying_list = ground arith;
  ready_blocked = λ a m. ground (arith, m);
  ready_dying = λ a m. ground (arith, m);
  blocked_dying = λ a m. ground (arith, m);
}

waiting-AreWaiting :
    AreWaiting waiting (waiters_of 12288) (4096 ∷ 8192 ∷ []) [] (4192 ∷ 8288 ∷ []) []
waiting-AreWaiting = record {
  waiters = ground arith;
  ready_apart = λ a m. ground (arith, m);
  blocked_apart = λ a m. ground (arith, m);
  dying_apart = λ a m. ground (arith, m);
}

thread_unblock-IsSched_example :
    (h : Nodes) × (thread_unblock 3 8192 waiting
      ≡ some (record waiting { nodes = h; interrupts = true; state = at waiting.state 8192 ready }))
    × IsSched
        (record waiting { nodes = h; interrupts = true; state = at waiting.state 8192 ready })
        (8288 ∷ [])
        (4192 ∷ [])
        []
    × SameOutside memory h (area 1100 (4192 ∷ 8288 ∷ []) ++ area 1000 [])
thread_unblock-IsSched_example =
    thread_unblock-IsSched 3 8192 waiting [] (4192 ∷ 8288 ∷ []) [] waiting-IsSched refl refl
      (omega arith)

waiting-AllBlocked : AllBlocked waiting (4192 ∷ 8288 ∷ []) (4096 ∷ 8192 ∷ [])
waiting-AllBlocked t m = record {
  is_waiting = ground (arith, m);
  inside = ground (arith, m);
  address = ground (arith, m);
}

thread_notify-AreWoken_example :
    (k' : Tasks) × (thread_notify 3 12288 true (neg 1) waiting ≡ some (pos 0, k'))
    × AreWoken waiting k' (waiters_of 12288) (neg 1) (4096 ∷ 8192 ∷ []) [] (4192 ∷ 8288 ∷ []) []
thread_notify-AreWoken_example =
    thread_notify-AreWoken 3 12288 (neg 1) waiting (4096 ∷ 8192 ∷ []) [] (4192 ∷ 8288 ∷ []) []
      waiting-IsSched waiting-AreWaiting waiting-AllBlocked (refl, (refl, tt)) (omega arith)
      (omega arith)
