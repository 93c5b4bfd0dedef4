-- ===== src/Kernel/Thread.antt =====
-- kernel/thread.c: the life of a thread and the scheduler, on the state of Kernel/Task.
-- switch_threads saves the stack pointer of one thread and loads that of another; whichever way
-- that thread was stopped, it goes on with finish_schedule. So a switch makes the next thread
-- `current` and runs finish_schedule on it, and what a function does after schedule, in the thread
-- that called it, is left out: those calls stand at the end of their functions.
pub mod Switch
pub mod Turns
pub mod Fairness
pub mod Ids
mod Tests
use longhorn.Base.{
  ℕ, zero, suc, ◌+◌, ◌-◌, ◌%◌, Bool, true, false, not, ◌||◌, ◌&&◌, Option, none, some, List, [],
  ◌∷◌, ◌==◌, if◌then◌else◌, ◌>>=◌, ℤ, pos, neg, set, add_u32,
}
use longhorn.Libk.LinkedList.{
  Ptr, null, Nodes, tail_of, head_of, list_init, list_insert, list_insert_end, list_delete,
  list_pop, list_size, list_get_next, list_is_empty,
}
use longhorn.Kernel.Kalloc.{palloc_mult}
use longhorn.Kernel.Task.{
  Tasks, ThreadState, ready, running, blocked, dying, is_ready, is_running, is_blocked, is_dying,
  at, node_of, wait_node_of, waiters_of, thread_of_node, set_state, disable_interrupts,
  enable_interrupts, thread_unblock, thread_notify, thread_cleanup,
}

abbrev pub max_tid : ℕ
max_tid = 512

abbrev pub max_thread_ticks : ℕ
max_thread_ticks = 8

-- `proc->active_thread = proc->threads[num]`, where `num` is a `uint8_t`.
abbrev pub proc_set_active_thread : Ptr → ℕ → Tasks → Tasks
proc_set_active_thread p num k = record k {
  active_thread = at k.active_thread p (k.threads p (num % 256));
}

unfoldable pub finish_schedule : ℕ → Tasks → Option Tasks
unfolding disable_interrupts enable_interrupts
finish_schedule fuel k = do
  let cur = k.current
  let k₁ = proc_set_active_thread (k.proc_of cur) (k.child_num cur) (set_state cur running k)
  empty ← list_is_empty k₁.dying_threads k₁.nodes
  if empty then some (enable_interrupts k₁) else (do
    (node, h) ← list_pop fuel k₁.dying_threads k₁.nodes
    let t = thread_of_node node
    let k₂ = record (disable_interrupts k₁) { nodes = h }
    if t == null
        then some (enable_interrupts k₂)
        else (do (_, k₃) ← thread_cleanup fuel t k₂; some (enable_interrupts k₃)))

-- The node that schedule takes: a single ready thread stays in the list.
unfoldable pub next_node : ℕ → Tasks → Option (Ptr × Nodes)
next_node fuel k = do
  size ← list_size fuel k.ready_threads k.nodes
  if size == 1
      then (do first ← list_get_next (head_of k.ready_threads) k.nodes; some (first, k.nodes))
      else list_pop fuel k.ready_threads k.nodes

-- The thread that schedule chooses: the idle thread if none is ready.
unfoldable pub choose : ℕ → Tasks → Option (Ptr × Tasks)
unfolding next_node
choose fuel k = do
  (next, h) ← next_node fuel k
  if next == null
      then (do k' ← thread_unblock fuel k.idle_t (record k { nodes = h }); some (k.idle_t, k'))
      else some (thread_of_node next, record k { nodes = h })

-- Where schedule puts the thread that it takes the processor from.
unfoldable pub put_back : Tasks → Option Tasks
put_back k = do
  let cur = k.current
  let k₁ = if is_running (k.state cur) then set_state cur ready k else k
  h₁ ←
      (if is_dying (k₁.state cur)
        then list_insert k₁.dying_threads (node_of cur) k₁.nodes
        else some k₁.nodes)
  h₂ ←
      (if is_ready (k₁.state cur)
        then list_insert_end (tail_of k₁.ready_threads) (node_of cur) h₁
        else some h₁)
  some (record k₁ { nodes = h₂ })

unfoldable pub switch_to : ℕ → Ptr → Tasks → Option Tasks
unfolding finish_schedule enable_interrupts
switch_to fuel next k =
    if next == k.current || not (is_ready (k.state next))
    then some (enable_interrupts (set_state k.current running k))
    else finish_schedule fuel (record k { current = next })

unfoldable pub schedule : ℕ → Tasks → Option Tasks
unfolding choose put_back switch_to finish_schedule disable_interrupts
schedule fuel k = do
  (next, k₁) ← choose fuel (disable_interrupts k)
  k₂ ← put_back k₁
  k₃ ←
      (if next == k₂.current && is_dying (k₂.state k₂.current)
        then finish_schedule fuel k₂
        else some k₂)
  switch_to fuel next k₃

unfoldable pub thread_block : ℕ → Tasks → Option Tasks
unfolding schedule disable_interrupts enable_interrupts
thread_block fuel k = do
  (node, h) ← list_delete fuel k.ready_threads (node_of k.current) k.nodes
  let k₁ = record (disable_interrupts k) { nodes = h }
  if node == null || not (is_running (k.state k.current)) then some (enable_interrupts k₁) else (do
    h' ← list_insert k.blocked_threads node h
    schedule fuel (record (set_state k.current blocked k₁) { nodes = h' }))

unfoldable pub thread_yield : ℕ → Tasks → Option Tasks
unfolding schedule
thread_yield fuel k = schedule fuel k

-- `ret` is NULL, as in every call of the kernel.
unfoldable pub thread_exit : ℕ → Tasks → Option Tasks
unfolding thread_yield disable_interrupts
thread_exit fuel k = do
  let t = k.current
  (_, h) ← list_delete fuel k.ready_threads (node_of t) k.nodes
  (_, k₁) ←
      thread_notify fuel t true (pos 0)
        (record (set_state t dying (disable_interrupts k)) { nodes = h })
  thread_yield fuel k₁

-- The result is `none` where the caller has given up the processor: it reads its `wait_code` when it
-- runs again.
unfoldable pub thread_wait : ℕ → Ptr → Tasks → Option (Option ℤ × Tasks)
unfolding thread_block
thread_wait fuel t k = if t == null then some (some (neg 1), k) else (do
  h ← list_insert (waiters_of t) (wait_node_of k.current) k.nodes
  k' ← thread_block fuel (record k { nodes = h })
  some (if k'.current == k.current then some (k'.wait_code k'.current) else none, k'))

-- The end of thread_kill: it wakes the waiting threads with -1 and cleans up.
unfoldable pub finish_kill : ℕ → Ptr → Tasks → Option (Option ℤ × Tasks)
unfolding enable_interrupts
finish_kill fuel t k = do
  (_, k₁) ← thread_notify fuel t true (neg 1) k
  (_, k₂) ← thread_cleanup fuel t k₁
  some (some (pos 0), enable_interrupts k₂)

-- thread_kill on a thread that stands in the list at `l`.
unfoldable pub kill_in : ℕ → Ptr → Ptr → Tasks → Option (Option ℤ × Tasks)
unfolding finish_kill enable_interrupts
kill_in fuel l t k = do
  (node, h) ← list_delete fuel l (node_of t) k.nodes
  let k₁ = record (set_state t dying k) { nodes = h }
  if node == null then some (some (neg 1), enable_interrupts k₁) else finish_kill fuel t k₁

-- What thread_kill does to a thread that is not running.
unfoldable pub kill_stopped : ℕ → Ptr → Tasks → Option (Option ℤ × Tasks)
unfolding kill_in
kill_stopped fuel t k =
    if is_ready (k.state t)
    then kill_in fuel k.ready_threads t k
    else if is_blocked (k.state t)
    then kill_in fuel k.blocked_threads t k
    else finish_kill fuel t k

-- The result is `none` where the call does not return: a running thread exits, and goes on here only
-- if schedule chose it again.
unfoldable pub thread_kill : ℕ → Ptr → Tasks → Option (Option ℤ × Tasks)
unfolding kill_stopped thread_exit disable_interrupts enable_interrupts
thread_kill fuel t k =
    if t == null
    then some (some (neg 1), k)
    else if is_running (k.state t)
    then (do
      k' ← thread_exit fuel (disable_interrupts k)
      if k'.current == k.current then kill_stopped fuel t k' else some (none, k'))
    else kill_stopped fuel t (disable_interrupts k)

-- `for (i = 0; i < MAX_TID; i++) if (tids[i] == false) …`, over the rest of the table from `i` on.
unfoldable pub allocate_from : ℕ → List Bool → Option ℕ
allocate_from i [] = none
allocate_from i (used ∷ tids) =
    let rest = allocate_from (i + 1) tids in if used then rest else some i

unfoldable pub allocate_tid : List Bool → ℕ × List Bool
allocate_tid tids = elim (allocate_from 0 tids) [
  | some i ↦ (i, set tids i true)
  | none ↦ (max_tid + 1, tids)
]

-- The members that thread_create fills in, at the page `t` that it got. `entry` is what the new
-- stack makes the thread run: its function and its argument. The stack pointer, the name and the
-- magic number are left out.
unfoldable pub new_thread : Ptr → ℕ → Ptr → ℕ → Ptr → Ptr → Tasks → Tasks
unfolding allocate_tid
new_thread t priority proc child_num func aux k =
    let (tid, tids) = allocate_tid k.tids in
    record (set_state t ready k) {
      tids = tids;
      tid = at k.tid t tid;
      priority = at k.priority t priority;
      pid = at k.pid t (k.proc_pid proc);
      child_num = at k.child_num t child_num;
      proc_of = at k.proc_of t proc;
      threads = at k.threads proc (at (k.threads proc) child_num t);
      entry = at k.entry t (func, aux);
      wait_code = at k.wait_code t (pos 0);
    }

-- `kfree` is the allocator of small blocks, called when the id that lies in the fresh page is that
-- of a full table: the member is read before it is set.
module _ (kfree : Ptr → Tasks → Option Tasks) where
  unfoldable pub thread_create : ℕ → ℕ → Ptr → ℕ → Ptr → Ptr → Tasks → Option (ℤ × Tasks)
  unfolding new_thread disable_interrupts enable_interrupts
  thread_create fuel priority proc child_num func aux k = do
    (t, pages) ← palloc_mult fuel 1 k.pages
    let k₁ = record k { pages = pages }
    if t == null
        then some (neg 1, k₁)
        else if k.tid t == max_tid + 1
        then (do k₂ ← kfree t k₁; some (neg 1, k₂))
        else (do
          let k₂ = new_thread t priority proc child_num func aux k₁
          h₁ ← list_init (waiters_of t) k₂.nodes
          h₂ ← list_insert k₂.ready_threads (node_of t) h₁
          some (pos (k₂.tid t), enable_interrupts (record (disable_interrupts k₂) { nodes = h₂ })))

  -- `idle` is the address of the idle function. The thread that runs at start-up is blocked, and
  -- in no list.
  unfoldable pub init_threads : ℕ → Ptr → Ptr → Tasks → Option Tasks
  unfolding thread_create
  init_threads fuel init idle k = do
    h₁ ← list_init k.ready_threads k.nodes
    h₂ ← list_init k.blocked_threads h₁
    h₃ ← list_init k.dying_threads h₂
    (_, k') ← thread_create fuel 0 init 0 idle null (record k { nodes = h₃ })
    some (set_state k'.current blocked (record k' { idle_t = k'.threads init 0 }))

-- `thread_ticks` is a `uint8_t`, and a thread's `ticks` a `uint32_t`.
unfoldable pub timer_interrupt_handler : ℕ → Tasks → Option Tasks
unfolding schedule
timer_interrupt_handler fuel k =
    let k₁ = record k {
      thread_ticks = (k.thread_ticks + 1) % 256;
      ticks = at k.ticks k.current (add_u32 (k.ticks k.current) 1);
    } in
    if k₁.thread_ticks % max_thread_ticks == 0 then schedule fuel k₁ else some k₁
