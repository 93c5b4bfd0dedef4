-- ===== src/Libk/LinkedList/Walk.antt =====
-- libk/list.c: list_size, list_isEmpty and list_peek.
use longhorn.Base.{
  ℕ, zero, suc, ◌+◌, ◌≡◌, ◌≢◌, ◌<◌, false, some, List, [], ◌∷◌, ◌++◌, arith, length,
}
use longhorn.Libk.LinkedList.{
  Ptr, null, Nodes, tail_of, size_loop, list_size, list_is_empty, list_peek,
}
use longhorn.Libk.LinkedList.Chain.{
  has, Chain, IsList, has-after, has-snoc, ne_of_has, is_nil, first_or_null,
}

size_loop-length :
    (fuel : ℕ) (next prev : Ptr → Ptr) (p : Ptr) (xs : List Ptr) (q : Ptr) (n : ℕ)
    → length xs + 1 < fuel
    → has null (p ∷ xs) ≡ false
    → q ≢ null
    → next q ≡ null
    → Chain next prev p xs q
    → size_loop fuel (next p) n (record { next = next; prev = prev }) ≡ some (n + length xs)
unfolding size_loop
size_loop-length zero next prev p xs q n f z qn e c = absurd (omega arith)
size_loop-length (suc fuel) next prev p [] q n f z qn e c = ground arith
size_loop-length (suc fuel) next prev p (x ∷ xs) q n f z qn e c = ground (
  arith,
  size_loop-length fuel next prev x xs q (n + 1),
  has-after next prev x x xs q c.2,
  has-snoc null q xs,
  ne_of_has (next x) null (xs ++ q ∷ []),
)

-- list_size counts the nodes between the sentinels; list_isEmpty says whether there are none, and
-- list_peek returns the first of them, or NULL. Two rounds more than the list has nodes are enough.
pub list_size-length :
    (fuel : ℕ) (l : Ptr) (xs : List Ptr) (h : Nodes)
    → IsList h l xs
    → length xs + 1 < fuel
    → (list_size fuel l h ≡ some (length xs))
      × (list_is_empty l h ≡ some (is_nil xs))
      × (list_peek l h ≡ some (first_or_null xs))
unfolding list_size list_is_empty list_peek
list_size-length fuel l [] h v f =
    ground (arith, size_loop-length fuel h.next h.prev l [] (tail_of l) 0)
list_size-length fuel l (x ∷ xs) h v f =
    ground (arith, size_loop-length fuel h.next h.prev l (x ∷ xs) (tail_of l) 0)
