-- ===== src/Libk/LinkedList/Frame.antt =====
-- What list_insert and list_insert_end of libk/list.c leave alone: the links of every node that is
-- not in their list.
use longhorn.Base.{◌≡◌, sym, subst, Option, ◌∙◌, true, false, some, List, [], ◌∷◌, ◌++◌, arith}
use longhorn.Libk.LinkedList.{Ptr, Nodes, tail_of, list_insert, list_insert_end}
use longhorn.Libk.LinkedList.Chain.{has, Chain, IsList, has-last, inner_ne, ne_of_has}
use longhorn.Libk.LinkedList.Insert.{
  IsFresh, front_nodes, back_nodes, list_insert-IsList, list_insert_end-IsList,
}

-- The nodes that a list consists of.
abbrev pub area : Ptr → List Ptr → List Ptr
area l xs = l ∷ tail_of l ∷ xs

abbrev pub Disjoint : List Ptr → List Ptr → Type 0
Disjoint xs ys = (a : Ptr) → has a xs ≡ true → has a ys ≡ false

pub record SameOutside (h h' : Nodes) (zs : List Ptr) : Type 0 where
  pub next_same : (a : Ptr) → has a zs ≡ false → h'.next a ≡ h.next a
  pub prev_same : (a : Ptr) → has a zs ≡ false → h'.prev a ≡ h.prev a

Chain-SameOutside :
    {h h' : Nodes} (p : Ptr) (xs : List Ptr) (q : Ptr) (zs : List Ptr)
    → SameOutside h h' zs
    → has p zs ≡ false
    → has q zs ≡ false
    → Disjoint xs zs
    → Chain h.next h.prev p xs q
    → Chain h'.next h'.prev p xs q
Chain-SameOutside p [] q zs s hp hq d c = ground (arith, s.next_same p, s.prev_same q)
Chain-SameOutside p (x ∷ xs) q zs s hp hq d c =
    let hx : has x zs ≡ false = d x (ground arith) in
    let rest = Chain-SameOutside x xs q zs s hx hq (λ a m. d a (ground arith)) c.2 in
    ground (arith, s.next_same p, s.prev_same x, rest)

-- A list whose nodes are outside is still the same list.
pub IsList-SameOutside :
    {h h' : Nodes} {l : Ptr} {xs : List Ptr} (zs : List Ptr)
    → SameOutside h h' zs
    → Disjoint (area l xs) zs
    → IsList h l xs
    → IsList h' l xs
IsList-SameOutside {l = l} {xs = xs} zs s d v =
    let head_out : has l zs ≡ false = d l (ground arith) in
    let tail_out : has (tail_of l) zs ≡ false = d (tail_of l) (ground arith) in
    record {
      here = v.here;
      chain =
          Chain-SameOutside l xs (tail_of l) zs s head_out tail_out (λ a m. d a (ground arith))
            v.chain;
      first = ground (arith, s.prev_same l, v.first);
      last = ground (arith, s.next_same (tail_of l), v.last);
      apart = v.apart;
    }

pub some_injective : {h h' : Nodes} → ◌≡◌ {A = Option Nodes} (some h) (some h') → h ≡ h'
some_injective e = cc

front-SameOutside :
    (h : Nodes) (l n : Ptr) (xs : List Ptr)
    → IsList h l xs
    → SameOutside h (front_nodes h l n) (n ∷ area l xs)
front-SameOutside h l n [] v = record {
  next_same = λ a m. ground (arith, v.chain);
  prev_same = λ a m. ground (arith, v.chain);
}
front-SameOutside h l n (x ∷ xs) v = record {
  next_same = λ a m. ground (arith, v.chain);
  prev_same = λ a m. ground (arith, v.chain);
}

list_insert-front_nodes :
    (h : Nodes) (l n : Ptr) (xs : List Ptr)
    → IsList h l xs
    → IsFresh n l xs
    → list_insert l n h ≡ some (front_nodes h l n)
unfolding list_insert
list_insert-front_nodes h l n [] v f = ground arith
list_insert-front_nodes h l n (x ∷ xs) v f = ground arith

-- list_insert with its frame.
pub list_insert-SameOutside :
    (l n : Ptr) (xs : List Ptr) (h : Nodes)
    → IsList h l xs
    → IsFresh n l xs
    → (h' : Nodes) × (list_insert l n h ≡ some h')
      × IsList h' l (n ∷ xs)
      × SameOutside h h' (n ∷ area l xs)
list_insert-SameOutside l n xs h v f =
    let (h', run, v') = list_insert-IsList l n xs h v f in
    (
      h',
      run,
      v',
      subst (λ m. SameOutside h m (n ∷ area l xs))
          (some_injective (sym (list_insert-front_nodes h l n xs v f) ∙ run))
          (front-SameOutside h l n xs v),
    )

back-SameOutside :
    (h : Nodes) (l n : Ptr) (xs : List Ptr)
    → IsList h l xs
    → SameOutside h (back_nodes h (tail_of l) n) (n ∷ area l xs)
back-SameOutside h l n xs v = record {
  next_same = λ a m. ground (arith, last_in, ne_of_has (h.prev (tail_of l)) a (l ∷ xs) last_in);
  prev_same = λ a m. ground arith;
}
  where
    last_in : has (h.prev (tail_of l)) (l ∷ xs) ≡ true
    last_in = has-last h.next h.prev l xs (tail_of l) v.chain

list_insert_end-back_nodes :
    (h : Nodes) (l n : Ptr) (xs : List Ptr)
    → IsList h l xs
    → IsFresh n l xs
    → list_insert_end (tail_of l) n h ≡ some (back_nodes h (tail_of l) n)
unfolding list_insert_end
list_insert_end-back_nodes h l n xs v f =
    ground
      (arith, inner_ne (h.prev (tail_of l)) v (has-last h.next h.prev l xs (tail_of l) v.chain))

-- list_insert_end with its frame.
pub list_insert_end-SameOutside :
    (l n : Ptr) (xs : List Ptr) (h : Nodes)
    → IsList h l xs
    → IsFresh n l xs
    → (h' : Nodes) × (list_insert_end (tail_of l) n h ≡ some h')
      × IsList h' l (xs ++ n ∷ [])
      × SameOutside h h' (n ∷ area l xs)
list_insert_end-SameOutside l n xs h v f =
    let (h', run, v') = list_insert_end-IsList l n xs h v f in
    (
      h',
      run,
      v',
      subst (λ m. SameOutside h m (n ∷ area l xs))
          (some_injective (sym (list_insert_end-back_nodes h l n xs v f) ∙ run))
          (back-SameOutside h l n xs v),
    )
