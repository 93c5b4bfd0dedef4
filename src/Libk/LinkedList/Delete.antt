-- ===== src/Libk/LinkedList/Delete.antt =====
-- libk/list.c: list_delete and list_pop.
use longhorn.Base.{
  ℕ, zero, suc, ◌≡◌, ◌≢◌, ◌<◌, ◌+◌, if◌then◌else◌, true, false, some, List, [], ◌∷◌, ◌++◌, arith,
  length, drop, Bool-cases, inl, inr, ==_iff, ==_self, ◌==◌,
}
use longhorn.Libk.LinkedList.{
  Ptr, null, Nodes, update, tail_of, find_node, unlink, list_delete, list_pop,
}
use longhorn.Libk.LinkedList.Chain.{
  has, Distinct, Chain, IsList, erase, has-erase, Distinct-erase, Chain-update_next,
  Chain-update_prev, has-before, has-after, inner_ne, ne_of_has, has-append, has-snoc,
  first_or_null,
}

abbrev pub cut_next : (next prev : Ptr → Ptr) → Ptr → Ptr → Ptr
cut_next next prev n = update (update next (prev n) (next n)) n null

abbrev pub cut_prev : (next prev : Ptr → Ptr) → Ptr → Ptr → Ptr
cut_prev next prev n = update (update prev (next n) (prev n)) n null

abbrev pub cut_nodes : Nodes → Ptr → Nodes
cut_nodes h n = record { next = cut_next h.next h.prev n; prev = cut_prev h.next h.prev n }

-- The first node of a chain goes.
cut_first-Chain :
    (next prev : Ptr → Ptr) (n p : Ptr) (ys : List Ptr) (q : Ptr)
    → Distinct (p ∷ n ∷ ys)
    → has q (p ∷ n ∷ ys) ≡ false
    → Chain next prev p (n ∷ ys) q
    → Chain (update (update next p (next n)) n null) (update (update prev (next n) p) n null) p ys q
cut_first-Chain next prev n p [] q d hq c = ground arith
cut_first-Chain next prev n p (y ∷ ys) q d hq c = ground (
  arith,
  Chain-update_next (update next p y) (update (update prev y p) n null) n null y ys q,
  Chain-update_next next (update (update prev y p) n null) p y y ys q,
  Chain-update_prev next (update prev y p) n null y ys q,
  Chain-update_prev next prev y p y ys q,
)

cut-Chain :
    (next prev : Ptr → Ptr) (n p : Ptr) (xs : List Ptr) (q : Ptr)
    → Distinct (p ∷ xs)
    → has q (p ∷ xs) ≡ false
    → n ≢ p
    → has n xs ≡ true
    → Chain next prev p xs q
    → Chain (cut_next next prev n) (cut_prev next prev n) p (erase n xs) q
cut-Chain next prev n p [] q d hq np m c = ground arith
cut-Chain next prev n p (x ∷ xs) q d hq np m c = elim (Bool-cases (n == x)) [
  | inl e ↦
      let e' : n ≡ x = (==_iff n x).0 e in
      rw (e, e', c.1) (cut_first-Chain next prev x p xs q d hq c)
  | inr e ↦ ground (
    arith,
    cut-Chain next prev n x xs q,
    has-before next prev n x xs q c.2,
    ne_of_has (prev n) p (x ∷ xs),
    has-after next prev n x xs q c.2,
    has-append (next n) xs (q ∷ []),
    ne_of_has (next n) x xs,
  )
]

-- The search stops at a node of the list within one round more than the list has nodes.
pub find_node-mem :
    (fuel : ℕ) (next prev : Ptr → Ptr) (p n : Ptr) (xs : List Ptr) (q : Ptr)
    → length xs < fuel
    → has null (p ∷ xs) ≡ false
    → has n (p ∷ xs) ≡ true
    → Chain next prev p xs q
    → find_node fuel p n (record { next = next; prev = prev }) ≡ some n
unfolding find_node
find_node-mem zero next prev p n xs q f z m c = absurd (omega arith)
find_node-mem (suc fuel) next prev p n [] q f z m c = ground arith
find_node-mem (suc fuel) next prev p n (x ∷ xs) q f z m c =
    ground (arith, find_node-mem fuel next prev x n xs q)

-- The search for a node that is not in the chain ends at the tail or, behind it, at NULL.
find_node-absent :
    (fuel : ℕ) (next prev : Ptr → Ptr) (p n : Ptr) (xs : List Ptr) (q : Ptr)
    → length xs + 2 < fuel
    → has null (p ∷ xs) ≡ false
    → q ≢ null
    → next q ≡ null
    → has n (p ∷ xs) ≡ false
    → Chain next prev p xs q
    → find_node fuel p n (record { next = next; prev = prev }) ≡ some (if n == q then q else null)
unfolding find_node
find_node-absent zero next prev p n xs q f z qn e m c = absurd (omega arith)
find_node-absent (suc zero) next prev p n xs q f z qn e m c = absurd (omega arith)
find_node-absent (suc (suc zero)) next prev p n xs q f z qn e m c = absurd (omega arith)
find_node-absent (suc (suc (suc fuel))) next prev p n [] q f z qn e m c = ground arith
find_node-absent (suc (suc (suc fuel))) next prev p n (x ∷ xs) q f z qn e m c =
    ground (arith, find_node-absent (suc (suc fuel)) next prev x n xs q)

pub unlink-cut :
    (n : Ptr) (h : Nodes)
    → n ≢ null
    → h.prev n ≢ null
    → h.next n ≢ null
    → unlink n h ≡ some (cut_nodes h n)
unfolding unlink
unlink-cut n h p q r = ground arith

-- list_delete of a node of the list returns it with both links NULL, and leaves the others in
-- their order. One round more than the list has nodes is enough fuel.
pub list_delete-erase :
    (fuel : ℕ) (l node : Ptr) (xs : List Ptr) (h : Nodes)
    → IsList h l xs
    → has node xs ≡ true
    → length xs < fuel
    → (h' : Nodes) × (list_delete fuel l node h ≡ some (node, h'))
      × IsList h' l (erase node xs)
      × (h'.next node ≡ null)
      × (h'.prev node ≡ null)
unfolding list_delete
list_delete-erase fuel l n xs h v m f = (
  cut_nodes h n,
  ground (
    arith,
    find_node-mem fuel h.next h.prev l n xs (tail_of l),
    unlink-cut n h,
    before,
    after,
    ne_of_has n null xs,
    ne_of_has n (tail_of l) xs,
    ne_of_has n l xs,
  ),
  record {
    here = v.here;
    chain = ground (arith, cut-Chain h.next h.prev n l xs (tail_of l), ne_of_has n l xs);
    first = ground (arith, ne_of_has n l xs, after_head);
    last = ground (arith, ne_of_has n (tail_of l) xs, before);
    apart = record {
      distinct = Distinct-erase n xs v.apart.distinct;
      no_null = has-erase n null xs v.apart.no_null;
      no_head = has-erase n l xs v.apart.no_head;
      no_tail = has-erase n (tail_of l) xs v.apart.no_tail;
    };
  },
  ground arith,
  ground arith,
)
  where
    before : (h.prev n ≢ null) × (h.prev n ≢ tail_of l)
    before = inner_ne (h.prev n) v (has-before h.next h.prev n l xs (tail_of l) v.chain m)

    inner : has (h.next n) (xs ++ tail_of l ∷ []) ≡ true
    inner = has-after h.next h.prev n l xs (tail_of l) v.chain (ground arith)

    after : h.next n ≢ null
    after =
        ne_of_has (h.next n) null (xs ++ tail_of l ∷ []) inner
          (has-snoc null (tail_of l) xs v.apart.no_null (omega arith))

    after_head : h.next n ≢ l
    after_head =
        ne_of_has (h.next n) l (xs ++ tail_of l ∷ []) inner
          (has-snoc l (tail_of l) xs v.apart.no_head (omega arith))

-- list_delete of a node that is not in the list, its sentinels included, returns NULL and changes
-- nothing. Three rounds more than the list has nodes are enough fuel.
pub list_delete-absent :
    (fuel : ℕ) (l node : Ptr) (xs : List Ptr) (h : Nodes)
    → IsList h l xs
    → has node xs ≡ false
    → length xs + 2 < fuel
    → list_delete fuel l node h ≡ some (null, h)
unfolding list_delete
list_delete-absent fuel l n xs h v m f = elim (Bool-cases (n == l)) [
  | inl e ↦ ground (arith, find_node-mem fuel h.next h.prev l n xs (tail_of l))
  | inr e ↦ ground (arith, find_node-absent fuel h.next h.prev l n xs (tail_of l))
]

list_pop-head :
    (fuel : ℕ) (l x : Ptr) (xs : List Ptr) (h : Nodes)
    → IsList h l (x ∷ xs)
    → length xs + 1 < fuel
    → (h' : Nodes) × (list_pop fuel l h ≡ some (x, h')) × IsList h' l xs
unfolding list_pop
list_pop-head fuel l x xs h v f =
    let (h', run, v', _, _) =
      list_delete-erase fuel l x (x ∷ xs) h v (rw (==_self x)) (omega arith) in
    (h', ground (arith, run), rw (==_self x) at v')

pub list_pop-none :
    (fuel : ℕ) (l : Ptr) (h : Nodes) → IsList h l [] → list_pop fuel l h ≡ some (null, h)
unfolding list_pop
list_pop-none fuel l h v = ground arith

-- list_pop returns the first node, or NULL if there is none, and leaves the list with the others.
-- One round more than the list has nodes is enough fuel.
pub list_pop-first :
    (fuel : ℕ) (l : Ptr) (xs : List Ptr) (h : Nodes)
    → IsList h l xs
    → length xs < fuel
    → (h' : Nodes) × (list_pop fuel l h ≡ some (first_or_null xs, h')) × IsList h' l (drop 1 xs)
unfolding list_pop
list_pop-first fuel l [] h v f = (h, ground arith, v)
list_pop-first fuel l (x ∷ xs) h v f = list_pop-head fuel l x xs h v (omega arith)
