-- ===== src/Kernel/Semaphore/Tests.antt =====
-- A semaphore with its waiting list, and threads of which 4096 is running and 8192 and 12288 are ready.
use longhorn.Base.{◌≡◌, some, [], arith, pos, if◌then◌else◌, ◌==◌}
use longhorn.Libk.LinkedList.{Nodes}
use longhorn.Libk.LinkedList.Chain.{IsList}
use longhorn.Kernel.Samples.{nothing}
use longhorn.Kernel.Task.{Tasks, running, ready, at}
use longhorn.Kernel.Semaphore.{semaphore_down, semaphore_up}
use longhorn.Kernel.Semaphore.Counting.{open_at, semaphore_down-semaphore_up}

-- The lists are at 1000, 1100 and 1200, and the waiting list of the semaphore at 2000.
abbrev memory : Nodes
memory = record {
  next =
      at (at (at (at (at (at (λ p. 0) 1000 8288) 8288 12384) 12384 1008) 1100 1108) 1200 1208) 2000
        2008;
  prev =
      at (at (at (at (at (at (λ p. 0) 8288 1000) 12384 8288) 1008 12384) 1108 1100) 1208 1200) 2008
        2000;
}

abbrev two_ready : Tasks
two_ready = record nothing {
  nodes = memory;
  current = 4096;
  state = λ t. if t == 4096 then running else ready;
}

nobody : IsList two_ready.nodes 2000 []
nobody = ground arith

semaphore_down-semaphore_up_example :
    (semaphore_up 1 (open_at 3 0 2000) two_ready ≡ some (pos 0, (open_at 4 0 2000, two_ready)))
    × (semaphore_down 1 (open_at 4 0 2000) two_ready
        ≡ some (some (pos 0), (open_at 3 0 2000, two_ready)))
semaphore_down-semaphore_up_example =
    semaphore_down-semaphore_up 1 3 0 2000 two_ready (omega arith) (omega arith) nobody
