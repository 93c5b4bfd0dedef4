-- ===== src/Kernel/Semaphore/Passing.antt =====
-- libk/synch.c: semaphore_down where the value is used up.
use longhorn.Base.{List, [], ◌∷◌}
use longhorn.Libk.LinkedList.{Ptr, null}
use longhorn.Libk.LinkedList.Frame.{area, Disjoint}
use longhorn.Kernel.Task.{Tasks, node_of}

-- The nodes of the waiting list, and the one that semaphore_down puts in, are in no list of the scheduler.
pub record IsSeparate (k : Tasks) (w : Ptr) (rs bs : List Ptr) : Type 0 where
  pub ready_apart : Disjoint (area k.ready_threads rs) (node_of null ∷ area w [])
  pub blocked_apart : Disjoint (area k.blocked_threads bs) (node_of null ∷ area w [])
  pub dying_apart : Disjoint (area k.dying_threads []) (node_of null ∷ area w [])
