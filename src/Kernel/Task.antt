-- ===== src/Kernel/Task.antt =====
-- The state that kernel/thread.c and kernel/proc.c share, and the functions of the two files that
-- wake and clean up: thread_unblock, thread_notify, proc_notify, thread_cleanup, proc_cleanup.
-- A thread is the address of its `struct thread`, a process that of its `struct process`. Each
-- member is a function from addresses. The links of all lists are one memory of list nodes, and a
-- `struct list_node` inside a structure is at the structure's address plus the member's offset on
-- i686. The names of threads and the standard streams of processes are left out. `fuel` bounds
-- each walk along a list and each wait for the lock of the page allocator.
pub mod Lists
pub mod Waiting
pub mod Wake
mod Tests
use longhorn.Base.{
  ℕ, zero, suc, ◌+◌, ◌%◌, Bool, true, false, not, ◌||◌, ◌&&◌, Option, none, some, List, ◌==◌,
  if◌then◌else◌, ◌>>=◌, ℤ, pos, neg, sub_u32,
}
use longhorn.Libk.LinkedList.{Ptr, null, Nodes, list_insert, list_delete, list_pop}
use longhorn.Kernel.Kalloc.{Pages, pfree, pfree_mult}

pub data ThreadState : Type 0 where
  ready : ThreadState
  running : ThreadState
  blocked : ThreadState
  dying : ThreadState
  terminated : ThreadState

abbrev pub is_ready : ThreadState → Bool
is_ready ready = true
is_ready _ = false

abbrev pub is_running : ThreadState → Bool
is_running running = true
is_running _ = false

abbrev pub is_blocked : ThreadState → Bool
is_blocked blocked = true
is_blocked _ = false

abbrev pub is_dying : ThreadState → Bool
is_dying dying = true
is_dying _ = false

-- `ready_threads` and the three below it are the addresses of the static lists. `current` is the
-- thread on whose stack the processor runs, which THREAD_CUR() computes from `esp`.
pub record Tasks : Type 0 where
  pub nodes : Nodes
  pub ready_threads : Ptr
  pub blocked_threads : Ptr
  pub dying_threads : Ptr
  pub all_procs : Ptr
  pub current : Ptr
  pub idle_t : Ptr
  pub interrupts : Bool
  pub tids : List Bool
  pub thread_ticks : ℕ
  pub state : Ptr → ThreadState
  pub tid : Ptr → ℕ
  pub pid : Ptr → ℕ
  pub priority : Ptr → ℕ
  pub ticks : Ptr → ℕ
  pub child_num : Ptr → ℕ
  pub wait_code : Ptr → ℤ
  pub proc_of : Ptr → Ptr
  pub entry : Ptr → Ptr × Ptr
  pub threads : Ptr → ℕ → Ptr
  pub num_live_threads : Ptr → ℕ
  pub active_thread : Ptr → Ptr
  pub proc_pid : Ptr → ℕ
  pub proc_wait_code : Ptr → ℤ
  pub pid_count : ℕ
  pub active : Ptr
  pub pages : Pages

-- A write to one member of one structure.
abbrev pub at {ℓ} : {A : Type ℓ} → (Ptr → A) → Ptr → A → Ptr → A
at f p v q = if p == q then v else f q

-- The nodes inside a `struct thread`, and the thread that a node lies in.
abbrev pub node_of : Ptr → Ptr
node_of t = t + 96

abbrev pub wait_node_of : Ptr → Ptr
wait_node_of t = t + 88

abbrev pub waiters_of : Ptr → Ptr
waiters_of t = t + 68

abbrev pub thread_of_node : Ptr → Ptr
thread_of_node n = sub_u32 n 96

abbrev pub thread_of_wait_node : Ptr → Ptr
thread_of_wait_node n = sub_u32 n 88

-- The nodes inside a `struct process`.
abbrev pub proc_waiters_of : Ptr → Ptr
proc_waiters_of p = p + 876

abbrev pub proc_node_of : Ptr → Ptr
proc_node_of p = p + 904

abbrev pub set_state : Ptr → ThreadState → Tasks → Tasks
set_state t s k = record k { state = at k.state t s }

unfoldable pub disable_interrupts : Tasks → Tasks
disable_interrupts k = record k { interrupts = false }

unfoldable pub enable_interrupts : Tasks → Tasks
enable_interrupts k = record k { interrupts = true }

unfoldable pub thread_unblock : ℕ → Ptr → Tasks → Option Tasks
unfolding disable_interrupts enable_interrupts
thread_unblock fuel t k =
    if not (is_blocked (k.state t)) then some (enable_interrupts (disable_interrupts k)) else (do
      (node, h) ← list_delete fuel k.blocked_threads (node_of t) k.nodes
      if node == null
          then some (enable_interrupts (disable_interrupts (record k { nodes = h })))
          else (do
            h' ← list_insert k.ready_threads node h
            some (
                enable_interrupts
                  (record (set_state t ready (disable_interrupts k)) { nodes = h' }))))

-- The loop of thread_notify and proc_notify over the list at `waiters`, from the node that was
-- popped on. Each round pops a node, so the list bounds the rounds.
unfoldable pub wake_from : ℕ → ℕ → Ptr → Bool → ℤ → Ptr → Tasks → Option Tasks
wake_from zero fuel waiters all ret node k = none
wake_from (suc rounds) fuel waiters all ret node k = do
  let wait_t = thread_of_wait_node node
  k₁ ← thread_unblock fuel wait_t (record k { wait_code = at k.wait_code wait_t ret })
  (next, h) ← list_pop fuel waiters k₁.nodes
  let rest = wake_from rounds fuel waiters all ret next (record k₁ { nodes = h })
  if all && not (next == null) then rest else some (record k₁ { nodes = h })

-- The common body of thread_notify and proc_notify.
unfoldable pub notify : ℕ → Ptr → Bool → ℤ → Tasks → Option (ℤ × Tasks)
unfolding wake_from
notify fuel waiters all ret k = do
  (node, h) ← list_pop fuel waiters k.nodes
  if node == null then some (neg 1, record k { nodes = h }) else (do
    k' ← wake_from fuel fuel waiters all ret node (record k { nodes = h })
    some (pos 0, k'))

unfoldable pub thread_notify : ℕ → Ptr → Bool → ℤ → Tasks → Option (ℤ × Tasks)
unfolding notify
thread_notify fuel t all ret k = notify fuel (waiters_of t) all ret k

unfoldable pub proc_notify : ℕ → Ptr → Bool → ℤ → Tasks → Option (ℤ × Tasks)
unfolding notify
proc_notify fuel p all ret k = notify fuel (proc_waiters_of p) all ret k

unfoldable pub proc_cleanup : ℕ → Ptr → Tasks → Option Tasks
unfolding proc_notify
proc_cleanup fuel p k = if p == null || not (k.num_live_threads p == 0) then some k else (do
  (_, k₁) ← proc_notify fuel p true (pos 0) k
  (_, h) ← list_delete fuel k₁.all_procs (proc_node_of p) k₁.nodes
  some (record k₁ { nodes = h }))

-- `num_live_threads` is a `uint8_t`.
abbrev pub dec_u8 : ℕ → ℕ
dec_u8 n = (n + 255) % 256

abbrev pub clear_slot : (Ptr → ℕ → Ptr) → Ptr → ℕ → Ptr → ℕ → Ptr
clear_slot f p i = at f p (at (f p) i null)

-- What thread_cleanup does to the process of a thread: it forgets the thread, and with its last
-- thread the process goes.
unfoldable pub drop_thread : ℕ → Ptr → Ptr → Tasks → Option Tasks
unfolding proc_cleanup
drop_thread fuel t p k =
    let k₁ = record k {
      threads = clear_slot k.threads p (k.child_num t);
      num_live_threads = at k.num_live_threads p (dec_u8 (k.num_live_threads p));
    } in
    if k₁.num_live_threads p == 0
    then (do
      k₂ ← proc_cleanup fuel p k₁
      (_, pages) ← pfree fuel p k₂.pages
      some (record k₂ { pages = pages }))
    else some k₁

unfoldable pub thread_cleanup : ℕ → Ptr → Tasks → Option (ℤ × Tasks)
unfolding drop_thread
thread_cleanup fuel t k = if t == null || not (is_dying (k.state t)) then some (neg 1, k) else (do
  k₁ ← drop_thread fuel t (k.proc_of t) k
  (_, pages) ← pfree_mult fuel t 1 k₁.pages
  some (pos 0, record k₁ { pages = pages }))
