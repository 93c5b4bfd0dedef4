-- ===== src/Libk/LinkedList/Leave.antt =====
-- What list_delete and list_pop of libk/list.c leave alone, and a node that moves from one list to
-- another.
use longhorn.Base.{
  Bool-cases, inl, inr, ℕ, ◌<◌, ◌+◌, ◌≡◌, ==_self, refl, sym, subst, Option, ◌∙◌, true, false, some,
  List, [], ◌∷◌, ◌++◌, arith, length,
}
use longhorn.Libk.LinkedList.{Ptr, null, Nodes, tail_of, list_insert, list_delete, list_pop}
use longhorn.Libk.LinkedList.Chain.{
  has, Distinct, IsList, erase, has-before, has-after, has-append, has-snoc, inner_ne, ne_of_has,
}
use longhorn.Libk.LinkedList.Insert.{IsFresh}
use longhorn.Libk.LinkedList.Delete.{cut_nodes, find_node-mem, unlink-cut, list_delete-erase}
use longhorn.Libk.LinkedList.Frame.{
  area, Disjoint, SameOutside, IsList-SameOutside, list_insert-SameOutside,
}

cut-SameOutside :
    (h : Nodes) (l n : Ptr) (xs : List Ptr)
    → IsList h l xs
    → has n xs ≡ true
    → SameOutside h (cut_nodes h n) (area l xs)
cut-SameOutside h l n xs v m = record {
  next_same = λ a out. ground (arith, ne_of_has (h.prev n) a (l ∷ xs) before, ne_of_has n a xs m);
  prev_same = λ a out. ground (
    arith,
    ne_of_has (h.next n) a (xs ++ tail_of l ∷ []) after,
    has-snoc a (tail_of l) xs,
    ne_of_has n a xs m,
  );
}
  where
    before : has (h.prev n) (l ∷ xs) ≡ true
    before = has-before h.next h.prev n l xs (tail_of l) v.chain m

    after : has (h.next n) (xs ++ tail_of l ∷ []) ≡ true
    after = has-after h.next h.prev n l xs (tail_of l) v.chain (ground arith)

pair_injective :
    {p q : Ptr} {h h' : Nodes}
    → ◌≡◌ {A = Option (Ptr × Nodes)} (some (p, h)) (some (q, h'))
    → h ≡ h'
pair_injective e = cc

list_delete-cut_nodes :
    (fuel : ℕ) (l n : Ptr) (xs : List Ptr) (h : Nodes)
    → IsList h l xs
    → has n xs ≡ true
    → length xs < fuel
    → list_delete fuel l n h ≡ some (n, cut_nodes h n)
unfolding list_delete
list_delete-cut_nodes fuel l n xs h v m f = ground (
  arith,
  find_node-mem fuel h.next h.prev l n xs (tail_of l),
  unlink-cut n h,
  inner_ne (h.prev n) v (has-before h.next h.prev n l xs (tail_of l) v.chain m),
  ne_of_has (h.next n) null (xs ++ tail_of l ∷ [])
      (has-after h.next h.prev n l xs (tail_of l) v.chain (ground arith))
      (has-snoc null (tail_of l) xs v.apart.no_null (omega arith)),
  ne_of_has n null xs,
  ne_of_has n (tail_of l) xs,
  ne_of_has n l xs,
)

-- list_delete with its frame.
pub list_delete-SameOutside :
    (fuel : ℕ) (l n : Ptr) (xs : List Ptr) (h : Nodes)
    → IsList h l xs
    → has n xs ≡ true
    → length xs < fuel
    → (h' : Nodes) × (list_delete fuel l n h ≡ some (n, h'))
      × IsList h' l (erase n xs)
      × SameOutside h h' (area l xs)
list_delete-SameOutside fuel l n xs h v m f =
    let (h', run, v', _, _) = list_delete-erase fuel l n xs h v m f in
    (
      h',
      run,
      v',
      subst (λ k. SameOutside h k (area l xs))
          (pair_injective (sym (list_delete-cut_nodes fuel l n xs h v m f) ∙ run))
          (cut-SameOutside h l n xs v m),
    )

-- list_pop of a list that is not empty, with its frame.
pub list_pop-SameOutside :
    (fuel : ℕ) (l x : Ptr) (xs : List Ptr) (h : Nodes)
    → IsList h l (x ∷ xs)
    → length xs + 1 < fuel
    → (h' : Nodes) × (list_pop fuel l h ≡ some (x, h'))
      × IsList h' l xs
      × SameOutside h h' (area l (x ∷ xs))
unfolding list_pop
list_pop-SameOutside fuel l x xs h v f =
    let (h', run, v', s) =
      list_delete-SameOutside fuel l x (x ∷ xs) h v (rw (==_self x)) (omega arith) in
    (h', ground (arith, run), rw (==_self x) at v', s)

pub Disjoint-sym : (xs ys : List Ptr) → Disjoint xs ys → Disjoint ys xs
Disjoint-sym xs ys d a m = elim (Bool-cases (has a xs)) [
  | inl e ↦ absurd_bool (sym (d a e) ∙ m)
  | inr e ↦ e
]
  where
    absurd_bool : {P : Type 0} → false ≡ true → P
    absurd_bool e = cc

pub has-erase_inner : (n a : Ptr) (xs : List Ptr) → has a (erase n xs) ≡ true → has a xs ≡ true
has-erase_inner n a [] m = m
has-erase_inner n a (x ∷ xs) m = ground (arith, has-erase_inner n a xs)

pub has-erase_self : (n : Ptr) (xs : List Ptr) → Distinct xs → has n (erase n xs) ≡ false
has-erase_self n [] d = refl
has-erase_self n (x ∷ xs) d = ground (arith, has-erase_self n xs)

pub SameOutside-trans :
    {h h' h'' : Nodes} (ys zs : List Ptr)
    → SameOutside h h' ys
    → SameOutside h' h'' zs
    → SameOutside h h'' (ys ++ zs)
SameOutside-trans ys zs s t = record {
  next_same = λ a m. ground (arith, has-append a ys zs, s.next_same a, t.next_same a);
  prev_same = λ a m. ground (arith, has-append a ys zs, s.prev_same a, t.prev_same a);
}

-- A node that goes from one list to the front of another: both are lists again, and every other
-- node is as it was.
pub move-IsList :
    (fuel : ℕ) (l m n : Ptr) (xs ys : List Ptr) (h : Nodes)
    → IsList h l xs
    → IsList h m ys
    → Disjoint (area l xs) (area m ys)
    → has n xs ≡ true
    → length xs < fuel
    → (h' h'' : Nodes) × (list_delete fuel l n h ≡ some (n, h'))
      × (list_insert m n h' ≡ some h'')
      × IsList h'' l (erase n xs)
      × IsList h'' m (n ∷ ys)
      × Disjoint (area l (erase n xs)) (area m (n ∷ ys))
      × SameOutside h h'' (area l xs ++ area m ys)
move-IsList fuel l m n xs ys h v w d inside f =
    let (h', run, v', s) = list_delete-SameOutside fuel l n xs h v inside f in
    let w' : IsList h' m ys =
      IsList-SameOutside (area l xs) s (Disjoint-sym (area l xs) (area m ys) d) w in
    let out : has n (area m ys) ≡ false = d n (ground arith) in
    let fresh : IsFresh n m ys = ground (arith, ne_of_has n null xs, v.apart.no_null) in
    let (h'', run', w'', t) = list_insert-SameOutside m n ys h' w' fresh in
    let gone : has n (erase n xs) ≡ false = has-erase_self n xs v.apart.distinct in
    let apart : Disjoint (area l (erase n xs)) (area m (n ∷ ys)) = λ a p. ground (
      arith,
      d a,
      has-erase_inner n a xs,
      ne_of_has n l xs inside v.apart.no_head,
      ne_of_has n (tail_of l) xs inside v.apart.no_tail,
    ) in
    (
      h',
      h'',
      run,
      run',
      IsList-SameOutside (n ∷ area m ys) t (λ a p. ground (arith, apart a)) v',
      w'',
      apart,
      record {
        next_same = λ a p. ground (
          arith,
          has-append a (area l xs) (area m ys),
          s.next_same a,
          t.next_same a,
          ne_of_has n a xs inside,
        );
        prev_same = λ a p. ground (
          arith,
          has-append a (area l xs) (area m ys),
          s.prev_same a,
          t.prev_same a,
          ne_of_has n a xs inside,
        );
      },
    )
