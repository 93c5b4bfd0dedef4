-- ===== src/Kernel/Thread/Tests.antt =====
-- Three threads: 4096 is running, 8192 and 12288 are ready.
use longhorn.Base.{true, [], ◌∷◌, ◌≡◌, refl, some, arith, if◌then◌else◌, ◌==◌}
use longhorn.Libk.LinkedList.{Nodes}
use longhorn.Kernel.Samples.{nothing}
use longhorn.Kernel.Task.{Tasks, running, ready, at}
use longhorn.Kernel.Thread.{schedule, thread_block}
use longhorn.Kernel.Thread.Turns.{IsTurn, schedule-IsTurn}
use longhorn.Kernel.Thread.Fairness.{turns, thread_yield-turns, thread_block-IsTurn}

-- The lists are at 1000, 1100 and 1200.
abbrev memory : Nodes
memory = record {
  next = at (at (at (at (at (λ p. 0) 1000 8288) 8288 12384) 12384 1008) 1100 1108) 1200 1208;
  prev = at (at (at (at (at (λ p. 0) 8288 1000) 12384 8288) 1008 12384) 1108 1100) 1208 1200;
}

abbrev two_ready : Tasks
two_ready = record nothing {
  nodes = memory;
  current = 4096;
  state = λ t. if t == 4096 then running else ready;
}

two_ready-IsTurn : IsTurn two_ready (8192 ∷ 12288 ∷ []) []
two_ready-IsTurn = record {
  sched = record {
    ready_list = ground arith;
    blocked_list = ground arith;
    dying_list = ground arith;
    ready_blocked = λ a m. ground (arith, m);
    ready_dying = λ a m. ground (arith, m);
    blocked_dying = λ a m. ground (arith, m);
  };
  all_ready = λ t m. ground (arith, m);
  cur_running = refl;
  cur_out = record { ready_out = refl; blocked_out = refl; dying_out = refl };
  addresses = λ t m. ground (arith, m);
}

schedule-IsTurn_example :
    (k' : Tasks) × (schedule 4 two_ready ≡ some k')
    × IsTurn k' (12288 ∷ 4096 ∷ []) []
    × (k'.current ≡ 8192)
schedule-IsTurn_example =
    schedule-IsTurn 4 two_ready 8192 12288 [] [] two_ready-IsTurn (omega arith)

thread_yield-turns_example : (k' : Tasks) × (turns 2 4 two_ready ≡ some k') × (k'.current ≡ 12288)
thread_yield-turns_example =
    thread_yield-turns 2 4 two_ready (8192 ∷ 12288 ∷ []) [] two_ready-IsTurn (omega arith)
      (omega arith) (omega arith)

thread_block-IsTurn_example :
    thread_block 5 two_ready ≡ some (record two_ready { interrupts = true })
thread_block-IsTurn_example =
    thread_block-IsTurn 5 two_ready (8192 ∷ 12288 ∷ []) [] two_ready-IsTurn (omega arith)
