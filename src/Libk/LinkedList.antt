-- ===== src/Libk/LinkedList.antt =====
-- libk/list.c and include/libk/list.h: the doubly linked list with a sentinel head and tail.
-- A node is the address of a `struct list_node`; `Nodes` is the part of memory that holds the
-- `next` and `prev` members of all nodes. A `list_t` at address `l` has its head node at `l` and
-- its tail node behind it. Each function takes the memory and returns it with its result; a read
-- or write through NULL, and a walk that does not end within its fuel, is `none`.
pub mod Chain
pub mod Insert
pub mod Delete
pub mod Walk
pub mod Frame
pub mod Leave
mod Tests
use longhorn.Base.{
  ℕ, zero, suc, ◌+◌, ◌≡◌, ◌≢◌, Bool, ◌||◌, ◌&&◌, not, Option, none, some, ◌==◌, if◌then◌else◌,
  ==_ne, ◌>>=◌,
}

abbrev pub Ptr : Type 0
Ptr = ℕ

abbrev pub null : Ptr
null = 0

pub record Nodes : Type 0 where
  pub next : Ptr → Ptr
  pub prev : Ptr → Ptr

-- The value of a node as a C function receives it, by copy.
pub record Node : Type 0 where
  pub next : Ptr
  pub prev : Ptr

abbrev pub update : (Ptr → Ptr) → Ptr → Ptr → Ptr → Ptr
update f p v q = if p == q then v else f q

-- `&list->head` and `&list->tail`: a node is two pointers of 4 bytes.
abbrev pub head_of : Ptr → Ptr
head_of l = l

abbrev pub tail_of : Ptr → Ptr
tail_of l = l + 8

unfoldable pub list_get_next : Ptr → Nodes → Option Ptr
list_get_next p h = if p == null then none else some (h.next p)

unfoldable pub list_get_prev : Ptr → Nodes → Option Ptr
list_get_prev p h = if p == null then none else some (h.prev p)

unfoldable pub node_set_next : Ptr → Ptr → Nodes → Option Nodes
node_set_next p v h = if p == null then none else some (record h { next = update h.next p v })

unfoldable pub node_set_prev : Ptr → Ptr → Nodes → Option Nodes
node_set_prev p v h = if p == null then none else some (record h { prev = update h.prev p v })

pub node_equals : Ptr → Ptr → Bool
node_equals a b = a == b

unfoldable pub list_init : Ptr → Nodes → Option Nodes
unfolding node_set_next node_set_prev
list_init l h = do
  h₁ ← node_set_prev (head_of l) null h
  h₂ ← node_set_next (head_of l) (tail_of l) h₁
  h₃ ← node_set_prev (tail_of l) (head_of l) h₂
  node_set_next (tail_of l) null h₃

pub list_set_head : Ptr → Node → Nodes → Option Nodes
unfolding node_set_next node_set_prev
list_set_head l n h = do
  h₁ ← node_set_prev (head_of l) n.prev h
  node_set_next (head_of l) n.next h₁

pub list_set_tail : Ptr → Node → Nodes → Option Nodes
unfolding node_set_next node_set_prev
list_set_tail l n h = do
  h₁ ← node_set_prev (tail_of l) n.prev h
  node_set_next (tail_of l) n.next h₁

unfoldable pub list_insert_end : Ptr → Ptr → Nodes → Option Nodes
unfolding list_get_prev node_set_next node_set_prev
list_insert_end tail node h = do
  before ← list_get_prev tail h
  h₁ ← node_set_next before node h
  before' ← list_get_prev tail h₁
  h₂ ← node_set_prev node before' h₁
  h₃ ← node_set_prev tail node h₂
  node_set_next node tail h₃

unfoldable pub list_insert_front : Ptr → Ptr → Nodes → Option Nodes
unfolding list_get_next node_set_next node_set_prev
list_insert_front head node h = do
  after ← list_get_next head h
  h₁ ← node_set_prev after node h
  after' ← list_get_next head h₁
  h₂ ← node_set_next node after' h₁
  h₃ ← node_set_next head node h₂
  node_set_prev node head h₃

unfoldable pub list_insert : Ptr → Ptr → Nodes → Option Nodes
unfolding list_insert_front
list_insert l node h = list_insert_front (head_of l) node h

-- `while (curr != NULL && curr != node) curr = curr->next`, on fuel.
unfoldable pub find_node : ℕ → Ptr → Ptr → Nodes → Option Ptr
find_node zero curr node h = none
find_node (suc fuel) curr node h =
    let rest = find_node fuel (h.next curr) node h in
    if not (curr == null) && not (curr == node) then rest else some curr

-- The new links that `list_delete` makes round the node that it found.
unfoldable pub unlink : Ptr → Nodes → Option Nodes
unfolding list_get_prev list_get_next node_set_prev node_set_next
unlink curr h = do
  before ← list_get_prev curr h
  after ← list_get_next curr h
  h₁ ← node_set_next before after h
  after' ← list_get_next curr h₁
  before' ← list_get_prev curr h₁
  h₂ ← node_set_prev after' before' h₁
  h₃ ← node_set_next curr null h₂
  node_set_prev curr null h₃

unfoldable pub list_delete : ℕ → Ptr → Ptr → Nodes → Option (Ptr × Nodes)
unfolding find_node unlink
list_delete fuel l node h = do
  curr ← find_node fuel (head_of l) node h
  if (curr == null) || (curr == head_of l) || (curr == tail_of l)
      then some (null, h)
      else (do h' ← unlink curr h; some (curr, h'))

unfoldable pub list_is_empty : Ptr → Nodes → Option Bool
unfolding list_get_next
list_is_empty l h = do first ← list_get_next (head_of l) h; some (first == tail_of l)

unfoldable pub list_pop : ℕ → Ptr → Nodes → Option (Ptr × Nodes)
unfolding list_is_empty list_get_next
list_pop fuel l h = do
  empty ← list_is_empty l h
  first ← list_get_next (head_of l) h
  if empty then some (null, h) else list_delete fuel l first h

unfoldable pub list_peek : Ptr → Nodes → Option Ptr
unfolding list_is_empty list_get_next
list_peek l h = do
  empty ← list_is_empty l h
  if empty then some null else list_get_next (head_of l) h

unfoldable pub list_has_next : Ptr → Nodes → Option Bool
unfolding list_get_next
list_has_next p h = do n ← list_get_next p h; some (not (n == null))

-- `while (curr != NULL && list_hasNext(curr)) { curr = curr->next; size++; }`, on fuel. The test
-- and the step read the same member.
unfoldable pub size_loop : ℕ → Ptr → ℕ → Nodes → Option ℕ
size_loop zero curr size h = none
size_loop (suc fuel) curr size h =
    let rest = size_loop fuel (h.next curr) (size + 1) h in
    if not (curr == null) && not (h.next curr == null) then rest else some size

unfoldable pub list_size : ℕ → Ptr → Nodes → Option ℕ
unfolding list_get_next size_loop
list_size fuel l h = do first ← list_get_next (head_of l) h; size_loop fuel first 0 h
