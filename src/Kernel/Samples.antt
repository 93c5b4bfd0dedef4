-- ===== src/Kernel/Samples.antt =====
-- A state of threads and processes that the tests of the kernel's modules start from: no thread, no
-- process and no page.
use longhorn.Base.{[], true, pos}
use longhorn.Kernel.Kalloc.{Pages}
use longhorn.Kernel.Task.{Tasks, blocked}

abbrev pub no_pages : Pages
no_pages = record {
  free_map = record { map_p = []; bits = 0 };
  palloc_lock = record { val = 0; owner = 0 };
}

-- The lists are at 1000, 1100, 1200 and 1300.
abbrev pub nothing : Tasks
nothing = record {
  nodes = record { next = λ p. 0; prev = λ p. 0 };
  ready_threads = 1000;
  blocked_threads = 1100;
  dying_threads = 1200;
  all_procs = 1300;
  current = 0;
  idle_t = 0;
  interrupts = true;
  tids = [];
  thread_ticks = 0;
  state = λ t. blocked;
  tid = λ t. 0;
  pid = λ t. 0;
  priority = λ t. 0;
  ticks = λ t. 0;
  child_num = λ t. 0;
  wait_code = λ t. pos 0;
  proc_of = λ t. 0;
  entry = λ t. (0, 0);
  threads = λ p i. 0;
  num_live_threads = λ p. 0;
  active_thread = λ p. 0;
  proc_pid = λ p. 0;
  proc_wait_code = λ p. pos 0;
  pid_count = 0;
  active = 0;
  pages = no_pages;
}
