-- ===== src/Libk/LinkedList/Insert.antt =====
-- libk/list.c: list_init, list_insert, list_insert_front and list_insert_end.
use longhorn.Base.{◌≡◌, ◌≢◌, refl, sym, false, some, List, [], ◌∷◌, ◌++◌, arith}
use longhorn.Libk.LinkedList.{
  Ptr, null, Nodes, update, tail_of, list_init, list_insert, list_insert_end,
}
use longhorn.Libk.LinkedList.Chain.{
  has, Distinct, Chain, IsList, has-snoc, Distinct-snoc, Chain-update_next, Chain-update_prev,
  has-last, inner_ne,
}

-- `node` may be linked into the list at `l` that holds `xs`.
pub record IsFresh (node l : Ptr) (xs : List Ptr) : Type 0 where
  pub ne_null : node ≢ null
  pub ne_head : node ≢ l
  pub ne_tail : node ≢ tail_of l
  pub unused : has node xs ≡ false

abbrev pub init_nodes : Nodes → Ptr → Nodes
init_nodes h l = record {
  next = update (update h.next l (tail_of l)) (tail_of l) null;
  prev = update (update h.prev l null) (tail_of l) l;
}

-- list_init at an address other than NULL leaves an empty list, and changes no other node.
pub list_init-IsList :
    (l : Ptr) (h : Nodes)
    → l ≢ null
    → (h' : Nodes) × (list_init l h ≡ some h')
      × IsList h' l []
      × ((a : Ptr) → a ≢ l → a ≢ tail_of l → (h'.next a ≡ h.next a) × (h'.prev a ≡ h.prev a))
unfolding list_init
list_init-IsList l h ne = (
  init_nodes h l,
  ground arith,
  record {
    here = ne;
    chain = ground arith;
    first = ground arith;
    last = ground arith;
    apart = record { distinct = tt; no_null = refl; no_head = refl; no_tail = refl };
  },
  λ a p q. ground arith,
)

abbrev pub front_nodes : Nodes → Ptr → Ptr → Nodes
front_nodes h l n = record {
  next = update (update h.next n (h.next l)) l n;
  prev = update (update h.prev (h.next l) n) n l;
}

front-Chain :
    (next prev : Ptr → Ptr) (l n : Ptr) (xs : List Ptr) (q : Ptr)
    → has l xs ≡ false
    → l ≢ q
    → Distinct xs
    → has q xs ≡ false
    → n ≢ l
    → n ≢ q
    → has n xs ≡ false
    → Chain next prev l xs q
    → Chain (update (update next n (next l)) l n) (update (update prev (next l) n) n l) l (n ∷ xs) q
front-Chain next prev l n [] q hl lq d hq nl nq hn c = ground arith
front-Chain next prev l n (y ∷ ys) q hl lq d hq nl nq hn c = ground (
  arith,
  Chain-update_next next (update (update prev y n) n l) n y y ys q,
  Chain-update_next (update next n y) (update (update prev y n) n l) l n y ys q,
  Chain-update_prev next (update prev y n) n l y ys q,
  Chain-update_prev next prev y n y ys q,
)

abbrev pub back_nodes : Nodes → Ptr → Ptr → Nodes
back_nodes h q n = record {
  next = update (update h.next (h.prev q) n) n q;
  prev = update (update h.prev n (h.prev q)) q n;
}

back-Chain :
    (next prev : Ptr → Ptr) (p n : Ptr) (xs : List Ptr) (q : Ptr)
    → Distinct (p ∷ xs)
    → has q (p ∷ xs) ≡ false
    → has n (p ∷ xs) ≡ false
    → n ≢ q
    → Chain next prev p xs q
    → Chain
        (update (update next (prev q) n) n q)
        (update (update prev n (prev q)) q n)
        p
        (xs ++ n ∷ [])
        q
back-Chain next prev p n [] q d hq hn nq c = ground arith
back-Chain next prev p n (x ∷ xs) q d hq hn nq c =
    ground (arith, back-Chain next prev x n xs q, has-last next prev x xs q c.2)

-- list_insert of a node that is not in the list and is not NULL or a sentinel puts it before the
-- others: the list then holds `node ∷ xs`.
pub list_insert-IsList :
    (l node : Ptr) (xs : List Ptr) (h : Nodes)
    → IsList h l xs
    → IsFresh node l xs
    → (h' : Nodes) × (list_insert l node h ≡ some h') × IsList h' l (node ∷ xs)
unfolding list_insert
list_insert-IsList l n [] h v f = (
  front_nodes h l n,
  ground arith,
  record {
    here = v.here;
    chain = ground arith;
    first = ground arith;
    last = ground arith;
    apart = ground arith;
  },
)
list_insert-IsList l n (y ∷ ys) h v f = (
  front_nodes h l n,
  ground arith,
  record {
    here = v.here;
    chain = ground (arith, front-Chain h.next h.prev l n (y ∷ ys) (tail_of l));
    first = ground arith;
    last = ground arith;
    apart = ground arith;
  },
)

-- list_insert_end of a node that is not in the list and is not NULL or a sentinel puts it behind
-- the others: the list then holds `xs` and `node`.
pub list_insert_end-IsList :
    (l node : Ptr) (xs : List Ptr) (h : Nodes)
    → IsList h l xs
    → IsFresh node l xs
    → (h' : Nodes) × (list_insert_end (tail_of l) node h ≡ some h') × IsList h' l (xs ++ node ∷ [])
unfolding list_insert_end
list_insert_end-IsList l n xs h v f = (
  back_nodes h (tail_of l) n,
  ground (arith, before),
  record {
    here = v.here;
    chain = ground (arith, back-Chain h.next h.prev l n xs (tail_of l));
    first = ground arith;
    last = ground (arith, before);
    apart = record {
      distinct = Distinct-snoc n xs v.apart.distinct f.unused;
      no_null = has-snoc null n xs v.apart.no_null (λ e. f.ne_null (sym e));
      no_head = has-snoc l n xs v.apart.no_head (λ e. f.ne_head (sym e));
      no_tail = has-snoc (tail_of l) n xs v.apart.no_tail (λ e. f.ne_tail (sym e));
    };
  },
)
  where
    before : (h.prev (tail_of l) ≢ null) × (h.prev (tail_of l) ≢ tail_of l)
    before = inner_ne (h.prev (tail_of l)) v (has-last h.next h.prev l xs (tail_of l) v.chain)
