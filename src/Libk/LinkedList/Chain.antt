-- ===== src/Libk/LinkedList/Chain.antt =====
-- What the links of a list stand for: the sequence of its nodes.
use longhorn.Base.{
  ◌≡◌, ◌≢◌, refl, Bool, true, false, ◌||◌, List, [], ◌∷◌, ◌++◌, ◌==◌, if◌then◌else◌, arith,
}
use longhorn.Libk.LinkedList.{Ptr, null, Nodes, update, tail_of}

abbrev pub has : Ptr → List Ptr → Bool
has a [] = false
has a (x ∷ xs) = (a == x) || has a xs

abbrev pub Distinct : List Ptr → Type 0
Distinct [] = Unit
Distinct (x ∷ xs) = (has x xs ≡ false) × Distinct xs

-- From `p` the `next` links lead through `xs` to `q`, and the `prev` links lead back.
abbrev pub Chain : (next prev : Ptr → Ptr) → Ptr → List Ptr → Ptr → Type 0
Chain next prev p [] q = (next p ≡ q) × (prev q ≡ p)
Chain next prev p (x ∷ xs) q = (next p ≡ x) × (prev x ≡ p) × Chain next prev x xs q

-- The nodes `xs` may be linked into the list at `l`.
pub record Apart (l : Ptr) (xs : List Ptr) : Type 0 where
  pub distinct : Distinct xs
  pub no_null : has null xs ≡ false
  pub no_head : has l xs ≡ false
  pub no_tail : has (tail_of l) xs ≡ false

-- The list at `l` holds the nodes `xs`, in this order.
pub record IsList (h : Nodes) (l : Ptr) (xs : List Ptr) : Type 0 where
  pub here : l ≢ null
  pub chain : Chain h.next h.prev l xs (tail_of l)
  pub first : h.prev l ≡ null
  pub last : h.next (tail_of l) ≡ null
  pub apart : Apart l xs

-- The sequence without its first occurrence of `a`.
abbrev pub erase : Ptr → List Ptr → List Ptr
erase a [] = []
erase a (x ∷ xs) = if a == x then xs else x ∷ erase a xs

abbrev pub is_nil : List Ptr → Bool
is_nil [] = true
is_nil (x ∷ xs) = false

abbrev pub first_or_null : List Ptr → Ptr
first_or_null [] = null
first_or_null (x ∷ xs) = x

pub has-append : (a : Ptr) (xs ys : List Ptr) → has a (xs ++ ys) ≡ (has a xs || has a ys)
has-append a [] ys = refl
has-append a (x ∷ xs) ys = ground (arith, has-append a xs ys)

pub has-erase : (a b : Ptr) (xs : List Ptr) → has b xs ≡ false → has b (erase a xs) ≡ false
has-erase a b [] h = refl
has-erase a b (x ∷ xs) h = ground (arith, has-erase a b xs)

pub Distinct-erase : (a : Ptr) (xs : List Ptr) → Distinct xs → Distinct (erase a xs)
Distinct-erase a [] d = tt
Distinct-erase a (x ∷ xs) d = ground (arith, Distinct-erase a xs, has-erase a x xs)

pub has-snoc : (a b : Ptr) (xs : List Ptr) → has a xs ≡ false → a ≢ b → has a (xs ++ b ∷ []) ≡ false
has-snoc a b xs h k = ground (arith, has-append a xs (b ∷ []))

pub Distinct-snoc :
    (a : Ptr) (xs : List Ptr) → Distinct xs → has a xs ≡ false → Distinct (xs ++ a ∷ [])
Distinct-snoc a [] d h = (refl, tt)
Distinct-snoc a (x ∷ xs) d h = ground (arith, Distinct-snoc a xs, has-snoc x a xs)

module _ (next prev : Ptr → Ptr) where
  -- A chain survives a write to the `next` of a node outside.
  pub Chain-update_next :
      (a v p : Ptr) (xs : List Ptr) (q : Ptr)
      → a ≢ p
      → has a xs ≡ false
      → Chain next prev p xs q
      → Chain (update next a v) prev p xs q
  Chain-update_next a v p [] q h k c = ground arith
  Chain-update_next a v p (x ∷ xs) q h k c = ground (arith, Chain-update_next a v x xs q)

  pub Chain-update_prev :
      (a v p : Ptr) (xs : List Ptr) (q : Ptr)
      → has a xs ≡ false
      → a ≢ q
      → Chain next prev p xs q
      → Chain next (update prev a v) p xs q
  Chain-update_prev a v p [] q h k c = ground arith
  Chain-update_prev a v p (x ∷ xs) q h k c = ground (arith, Chain-update_prev a v x xs q)

  -- The node before the end.
  pub has-last :
      (p : Ptr) (xs : List Ptr) (q : Ptr) → Chain next prev p xs q → has (prev q) (p ∷ xs) ≡ true
  has-last p [] q c = ground arith
  has-last p (x ∷ xs) q c = ground (arith, has-last x xs q c.2)

  -- The nodes before and after a node of the chain.
  pub has-before :
      (n p : Ptr) (xs : List Ptr) (q : Ptr)
      → Chain next prev p xs q
      → has n xs ≡ true
      → has (prev n) (p ∷ xs) ≡ true
  has-before n p [] q c h = ground arith
  has-before n p (x ∷ xs) q c h = ground (arith, has-before n x xs q c.2)

  pub has-after :
      (n p : Ptr) (xs : List Ptr) (q : Ptr)
      → Chain next prev p xs q
      → has n (p ∷ xs) ≡ true
      → has (next n) (xs ++ q ∷ []) ≡ true
  has-after n p [] q c h = ground arith
  has-after n p (x ∷ xs) q c h = ground (arith, has-after n x xs q c.2)

pub ne_of_has : (a b : Ptr) (xs : List Ptr) → has a xs ≡ true → has b xs ≡ false → a ≢ b
ne_of_has a b xs p q = ground arith

pub IsList-Distinct : {h : Nodes} {l : Ptr} {xs : List Ptr} → IsList h l xs → Distinct (l ∷ xs)
IsList-Distinct v = (v.apart.no_head, v.apart.distinct)

-- A node of the list, its head included, is neither NULL nor the tail.
pub inner_ne :
    {h : Nodes} {l : Ptr} {xs : List Ptr} (a : Ptr)
    → IsList h l xs
    → has a (l ∷ xs) ≡ true
    → (a ≢ null) × (a ≢ tail_of l)
inner_ne {xs = xs} a v p = ground (arith, ne_of_has a null xs, ne_of_has a (tail_of _) xs)
