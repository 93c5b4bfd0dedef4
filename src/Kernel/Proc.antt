-- ===== src/Kernel/Proc.antt =====
-- kernel/proc.c: processes as containers of threads, on the state of Kernel/Task, which has
-- proc_notify and proc_cleanup. Names and standard streams are left out.
pub mod Slots
mod Tests
use longhorn.Base.{
  ℕ, zero, suc, ◌+◌, ◌%◌, Bool, true, false, not, ◌||◌, ◌&&◌, Option, none, some, ◌==◌,
  if◌then◌else◌, ◌>>=◌, ℤ, pos, neg, ◌-ℤ◌, ◌==ℤ◌, add_u32, sub_u32,
}
use longhorn.Libk.LinkedList.{
  Ptr, null, Nodes, tail_of, list_init, list_insert, list_insert_end, list_peek, list_get_next,
  list_has_next, head_of,
}
use longhorn.Kernel.Kalloc.{palloc}
use longhorn.Kernel.Task.{
  Tasks, ThreadState, terminated, is_running, is_dying, at, wait_node_of, proc_waiters_of,
  proc_node_of, set_state,
}
use longhorn.Kernel.Thread.{thread_block, thread_kill, thread_exit, thread_create, init_threads}

abbrev pub max_num_threads : ℕ
max_num_threads = 8

-- THREAD_CREATE_FAIL
abbrev pub thread_create_fail : ℕ
thread_create_fail = 2

-- `proc->threads[i] == NULL`, for `i` from `i` on with the rounds left.
unfoldable pub free_from : ℕ → ℕ → (ℕ → Ptr) → ℤ
free_from i zero threads = neg 1
free_from i (suc rounds) threads =
    let rest = free_from (i + 1) rounds threads in if threads i == null then pos i else rest

unfoldable pub proc_get_free_thread : Ptr → Tasks → ℤ
unfolding free_from
proc_get_free_thread p k = free_from 0 max_num_threads (k.threads p)

-- The loop of proc_create over `threads[i]`, which the fresh page fills with what lay there before.
unfoldable pub mark_slots : ℕ → ℕ → Ptr → Tasks → Tasks
mark_slots i zero p k = k
mark_slots i (suc rounds) p k =
    mark_slots (i + 1) rounds p (record (set_state (k.threads p i) terminated k) {
      child_num = at k.child_num (k.threads p i) i;
    })

-- `threads[i] = NULL` for every `i` below the number of rounds.
unfoldable pub clear_slots : ℕ → (ℕ → Ptr) → ℕ → Ptr
clear_slots zero threads = threads
clear_slots (suc rounds) threads = at (clear_slots rounds threads) rounds null

-- A slot of the table, where thread_create reports one as an index.
abbrev pub nat_of : ℤ → ℕ
nat_of (pos n) = n
nat_of _ = 0

module _ (kfree : Ptr → Tasks → Option Tasks) where
  -- The result is the address of the process, or NULL.
  unfoldable pub proc_create : ℕ → Ptr → Ptr → Tasks → Option (Ptr × Tasks)
  unfolding mark_slots
  proc_create fuel func aux k = do
    (p, pages) ← palloc fuel k.pages
    let k₁ = record k { pages = pages }
    if p == null then some (null, k₁) else (do
      let k₂ =
          mark_slots 0 max_num_threads p (record k₁ {
            proc_pid = at k.proc_pid p k.pid_count;
            pid_count = add_u32 k.pid_count 1;
          })
      h₁ ← list_init (proc_waiters_of p) k₂.nodes
      (code, k₃) ←
          thread_create kfree fuel 0 p 0 func aux
            (record k₂ { nodes = h₁; proc_wait_code = at k₂.proc_wait_code p (pos 0) })
      if code ==ℤ neg thread_create_fail then some (null, k₃) else (do
        h₂ ← list_insert_end (tail_of k₃.all_procs) (proc_node_of p) k₃.nodes
        some (
          p,
          record k₃ {
            nodes = h₂;
            num_live_threads = at k₃.num_live_threads p 1;
            active_thread = at k₃.active_thread p (k₃.threads p 0);
          },
        )))

  -- At start-up. Without a page the source halts the processor, which is no result here.
  unfoldable pub init_processes : ℕ → Ptr → Tasks → Option Tasks
  init_processes fuel idle k = do
    h₁ ← list_init k.all_procs k.nodes
    (p, pages) ← palloc fuel k.pages
    let k₁ = record k {
      pages = pages;
      pid_count = 1;
      proc_pid = at k.proc_pid p 0;
      threads = at k.threads p (clear_slots max_num_threads (k.threads p));
    }
    h₂ ← list_init (proc_waiters_of p) h₁
    k₂ ←
        init_threads kfree fuel p idle
          (record k₁ { nodes = h₂; proc_wait_code = at k₁.proc_wait_code p (pos 0) })
    h₃ ← list_insert k₂.all_procs (proc_node_of p) k₂.nodes
    let k₃ = record k₂ { nodes = h₃; active_thread = at k₂.active_thread p (k₂.threads p 0) }
    if p == null then none else some k₃

  unfoldable pub proc_create_thread : ℕ → ℕ → Ptr → Ptr → Tasks → Option (ℤ × Tasks)
  unfolding proc_get_free_thread
  proc_create_thread fuel priority func aux k = do
    let p = k.proc_of k.current
    let slot = proc_get_free_thread p k
    if slot ==ℤ neg 1 then some (neg 1, k) else (do
      (tid, k₁) ← thread_create kfree fuel priority p (nat_of slot) func aux k
      some (
        tid,
        if tid ==ℤ neg thread_create_fail then k₁ else record k₁ {
          num_live_threads = at k₁.num_live_threads p ((k₁.num_live_threads p + 1) % 256);
        },
      ))

-- `none` where the caller has given up the processor.
unfoldable pub proc_wait : ℕ → Ptr → Tasks → Option (Option ℤ × Tasks)
unfolding thread_block
proc_wait fuel p k = if p == null then some (some (neg 1), k) else (do
  h ← list_insert (proc_waiters_of p) (wait_node_of k.current) k.nodes
  k' ← thread_block fuel (record k { nodes = h })
  some (if k'.current == k.current then some (k'.proc_wait_code p) else none, k'))

-- Whether proc_kill kills the thread in a slot.
abbrev pub is_killable : Ptr → Tasks → Bool
is_killable t k = not (t == null) && not (is_dying (k.state t)) && not (is_running (k.state t))

-- The loop of proc_kill from slot `i` on: how many threads are left of `num_alive`. thread_kill
-- returns here, since no running thread is killed.
unfoldable pub kill_from : ℕ → ℕ → ℕ → Ptr → ℤ → Tasks → Option (ℤ × Tasks)
kill_from i zero fuel p num_alive k = some (num_alive, k)
kill_from i (suc rounds) fuel p num_alive k =
    let rest = λ (n : ℤ) (m : Tasks). kill_from (i + 1) rounds fuel p n m in
    if is_killable (k.threads p i) k
    then (do
      (code, k') ← thread_kill fuel (k.threads p i) k
      elim code [
        | some c ↦ rest (if c ==ℤ neg 1 then num_alive else num_alive -ℤ pos 1) k'
        | none ↦ none
      ])
    else rest num_alive k

-- With what proc_kill stores through `ret`: nothing for NULL.
unfoldable pub proc_kill : ℕ → Ptr → Tasks → Option (Option ℤ × Tasks)
unfolding kill_from
proc_kill fuel p k = if p == null then some (none, k) else (do
  (num_alive, k₁) ← kill_from 0 max_num_threads fuel p (pos (k.num_live_threads p)) k
  if k₁.proc_of k₁.current == p && num_alive ==ℤ pos 1
      then (do k₂ ← thread_exit fuel k₁; some (some (pos 0), k₂))
      else some (some num_alive, k₁))

unfoldable pub proc_exit : ℕ → Tasks → Option (Option ℤ × Tasks)
unfolding proc_kill
proc_exit fuel k = proc_kill fuel (k.proc_of k.current) k

-- The walk of proc_set_active along all processes.
unfoldable pub active_from : ℕ → Ptr → ℕ → Tasks → Option Tasks
active_from zero node pid k = none
active_from (suc fuel) node pid k = do
  more ← list_has_next node k.nodes
  let p = sub_u32 node 904
  next ← list_get_next node k.nodes
  let rest = active_from fuel next pid k
  if not more
      then some k
      else if not (p == null) && k.proc_pid p == pid
      then some (record k { active = p })
      else rest

unfoldable pub proc_set_active : ℕ → ℕ → Tasks → Option Tasks
unfolding active_from
proc_set_active fuel pid k = do
  first ← list_get_next (head_of k.all_procs) k.nodes
  active_from fuel first pid k

unfoldable pub proc_set_active_p : Ptr → Tasks → Tasks
proc_set_active_p p k = record k { active = p }

unfoldable pub proc_get_state : Ptr → Tasks → ThreadState
proc_get_state p k = k.state (k.active_thread p)

unfoldable pub proc_get_active : Tasks → Ptr
proc_get_active k = k.active

unfoldable pub proc_peek_all_list : Tasks → Option Ptr
proc_peek_all_list k = list_peek k.all_procs k.nodes

unfoldable pub proc_get_live_t_count : Ptr → Tasks → ℕ
proc_get_live_t_count p k = k.num_live_threads p
