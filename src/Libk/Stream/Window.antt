-- ===== src/Libk/Stream/Window.antt =====
-- The bytes that a circular array holds, and what a write and a step do to them.
use longhorn.Base.{
  ℕ, zero, suc, ◌+◌, ◌-◌, ◌^◌, ◌≤◌, ◌<◌, ◌≡◌, ◌≢◌, refl, ◌⊎◌, List, [], ◌∷◌, ◌++◌, arith, ◌==◌, leb,
  if◌then◌else◌, length, get_or, set, get_or-set_self, get_or-set_ne, ap₂, some, add_u32, sub_u32,
  ◌∙◌, length-set, get_or-set, ◌&&◌, ltb, lt→ltb, le→ltb, false, true, mod_round, add_u32_small,
}
use longhorn.Libk.Stream.{rem, zero_from}

-- The index behind `i`.
abbrev pub succ_index : ℕ → ℕ → ℕ
succ_index size i = if suc i == size then 0 else suc i

-- The `n` bytes from index `i` on, round the array of `size` bytes.
abbrev pub held : List ℕ → ℕ → ℕ → ℕ → List ℕ
held a size i zero = []
held a size i (suc n) = get_or a i 0 ∷ held a size (succ_index size i) n

-- How many bytes lie between the two indices.
abbrev pub fill : ℕ → ℕ → ℕ → ℕ
fill size in_index out_index =
    if leb out_index in_index then in_index - out_index else in_index + size - out_index

pub length-held : (a : List ℕ) (size i n : ℕ) → length (held a size i n) ≡ n
length-held a size i zero = refl
length-held a size i (suc n) = omega (arith, length-held a size (succ_index size i) n)

-- A write behind the last byte appends to what is held.
pub held-set :
    (a : List ℕ) (size out_index n in_index c : ℕ)
    → size ≤ length a
    → out_index < size
    → in_index < size
    → n < size
    → (out_index + n ≡ in_index) ⊎ (out_index + n ≡ in_index + size)
    → held (set a in_index c) size out_index (suc n) ≡ held a size out_index n ++ c ∷ []
held-set a size o zero i c hs ho hi hn e =
    let same : o ≡ i = omega arith in rw same (ap₂ ◌∷◌ (get_or-set_self a i c 0 (omega arith)) refl)
held-set a size o (suc n) i c hs ho hi hn e =
    ap₂ ◌∷◌ (get_or-set_ne a {i = i} {j = o} c 0 (omega arith))
      (held-set a size (succ_index size o) n i c hs (ground arith) hi (omega arith) (ground arith))

-- `(i + 1) % size`
pub step_lem :
    (size i : ℕ) → size ≤ 2 ^ 31 → i < size → rem (add_u32 i 1) size ≡ some (succ_index size i)
step_lem zero i small h = absurd (omega arith)
step_lem (suc k) i small h = ground (arith, mod_round (add_u32 i 1) (suc k), add_u32_small i 1)

-- `(i - 1 + size) % size`
pub back_lem :
    (size i : ℕ)
    → size ≤ 2 ^ 31
    → i < size
    → rem (add_u32 (sub_u32 i 1) size) size ≡ some (if i == 0 then size - 1 else i - 1)
back_lem zero i small h = absurd (omega arith)
back_lem (suc k) i small h = ground (arith, mod_round (back i) (suc k), value)
  where
    back : ℕ → ℕ
    back j = add_u32 (sub_u32 j 1) (suc k)

    value : back i ≡ i + k
    value = omega arith

abbrev pub contents_of : List ℕ → ℕ → ℕ → ℕ → List ℕ
contents_of a size i o = held a size o (fill size i o)

-- The index that is left free before the oldest byte.
abbrev pub last_free : ℕ → ℕ → ℕ
last_free size o = if o == 0 then size - 1 else o - 1

-- A circular array with both indices in range: when it is full, when there is room, and what a
-- write and a read do to the bytes that it holds.
module _ (a : List ℕ) (size i o : ℕ) (hi : i < size) (ho : o < size) where
  pub no_room : i ≡ last_free size o → ltb (length (contents_of a size i o)) (size - 1) ≡ false
  no_room e = le→ltb _ _ (ground (arith, length-held a size o (fill size i o)))

  pub room : i ≢ last_free size o → ltb (length (contents_of a size i o)) (size - 1) ≡ true
  room e = lt→ltb _ _ (ground (arith, length-held a size o (fill size i o)))

  pub contents-write :
      (c : ℕ)
      → i ≢ last_free size o
      → size ≤ length a
      → contents_of (set a i c) size (succ_index size i) o ≡ contents_of a size i o ++ c ∷ []
  contents-write c e hs =
      let grown : fill size (succ_index size i) o ≡ suc (fill size i o) = ground arith in
      rw grown (held-set a size o (fill size i o) i c hs ho hi (ground arith) (ground arith))

  pub contents-same : i ≡ o → contents_of a size i o ≡ []
  contents-same e = let none_held : fill size i o ≡ 0 = ground arith in rw none_held

  pub contents-read :
      i ≢ o → contents_of a size i o ≡ get_or a o 0 ∷ contents_of a size i (succ_index size o)
  contents-read e =
      let less : fill size i o ≡ suc (fill size i (succ_index size o)) = ground arith in rw less

-- The clearing loop stays in the array, and clears the cells of its range alone.
pub zero_from-total :
    (i rounds : ℕ) (a : List ℕ)
    → i + rounds ≤ length a
    → (a' : List ℕ) × (zero_from i rounds a ≡ some a')
      × (length a' ≡ length a)
      × ((j : ℕ) → get_or a' j 0 ≡ (if leb i j && ltb j (i + rounds) then 0 else get_or a j 0))
unfolding zero_from
zero_from-total i zero a h = (a, refl, refl, λ j. ground arith)
zero_from-total i (suc rounds) a h =
    let (a', run, len, cells) = zero_from-total (i + 1) rounds (set a i 0) (omega (arith, keep)) in
    (a', ground (arith, run), len ∙ keep, λ j. ground (arith, cells j, get_or-set a i j 0 0))
  where
    keep : length (set a i 0) ≡ length a
    keep = length-set a i 0
