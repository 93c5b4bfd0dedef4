-- ===== src/Libc/Strip/Spaces.antt =====
-- libc/string.c: trim and strim.
use longhorn.Base.{
  ℕ, zero, suc, ◌+◌, ◌-◌, ◌≤◌, ◌<◌, ◌≡◌, ◌≢◌, refl, ◌∙◌, ap, false, some, List, arith, ◌==◌, ==_ne,
  if◌then◌else◌, length, leb, Bool-cases, inl, inr, get_or, get_elem?, set, lt→ltb,
}
use longhorn.Libc.Str.Text.{Text, get_elem?-get_or, strlen-length, length-Text}
use longhorn.Libc.Strip.{skip_front, skip_back, bounds, trim}

-- A string with a byte that is no space: the first one is at `i`, and the last one before `j`.
pub record IsPadded (xs : List ℕ) (i j : ℕ) : Type 0 where
  pub some_byte : i < j
  pub inside : j ≤ length xs
  pub front : (k : ℕ) → k < i → get_or xs k 0 ≡ 32
  pub first : get_or xs i 0 ≢ 32
  pub back : (k : ℕ) → j ≤ k → k < length xs → get_or xs k 0 ≡ 32
  pub last : get_or xs (j - 1) 0 ≢ 32

module _ (str xs : List ℕ) (i j : ℕ) (t : Text str xs) (p : IsPadded xs i j) where
  byte : (k : ℕ) → k < length xs → get_elem? str k ≡ some (get_or xs k 0)
  byte k h = get_elem?-get_or k t (omega arith)

  skip_front-first :
      (k rounds : ℕ) → k ≤ i → k + rounds ≡ length xs → skip_front k rounds str ≡ some i
  unfolding skip_front
  skip_front-first k zero h e = absurd (omega (arith, p.some_byte, p.inside))
  skip_front-first k (suc rounds) h e = elim (Bool-cases (k == i)) [
    | inl same ↦
        let here : k ≡ i = ground (arith, same) in
        let no_space : (get_or xs k 0 == 32) ≡ false = ==_ne _ _ (λ e'.
          p.first (ap (λ (n : ℕ). get_or xs n 0) {x = i} {y = k} (omega (arith, here)) ∙ e')) in
        rw (byte k (omega (arith, e)), no_space) (ap some here)
    | inr differ ↦
        let space : get_or xs k 0 ≡ 32 = p.front k (ground (arith, differ, h)) in
        rw (byte k (omega (arith, e)), space)
          (skip_front-first (k + 1) rounds (ground (arith, differ, h)) (omega (arith, e)))
  ]

  skip_back-last : (k : ℕ) → j ≤ k → k ≤ length xs → skip_back k str ≡ some j
  unfolding skip_back
  skip_back-last zero h e = absurd (omega (arith, p.some_byte))
  skip_back-last (suc k) h e = elim (Bool-cases (suc k == j)) [
    | inl same ↦
        let here : suc k ≡ j = ground (arith, same) in
        let no_space : (get_or xs k 0 == 32) ≡ false = ==_ne _ _ (λ e'.
          p.last (ap (λ (n : ℕ). get_or xs n 0) {x = j - 1} {y = k} (omega (arith, here)) ∙ e')) in
        rw (byte k (omega (arith, e)), no_space) (ap some here)
    | inr differ ↦
        let space : get_or xs k 0 ≡ 32 = p.back k (ground (arith, differ, h)) (omega arith) in
        rw (byte k (omega (arith, e)), space)
          (skip_back-last k (ground (arith, differ, h)) (omega arith))
  ]

  bounds-first_last : bounds str ≡ some (i, j)
  unfolding bounds
  bounds-first_last =
      rw
        (
          strlen-length t,
          skip_front-first 0 (length xs) (omega arith) (omega arith),
          skip_back-last (length xs) p.inside (omega arith),
        )
        refl

-- trim of a string with a byte that is no space, the first one at `i` and the last one before `j`: it
-- ends the string at `j` and returns its place `i`, when there are two bytes or more between them; a
-- single one is taken for none, and the string becomes empty.
pub trim-stripped :
    (str xs : List ℕ) (i j : ℕ)
    → Text str xs
    → IsPadded xs i j
    → trim str ≡ some (if leb j (i + 1) then (0, set str 0 0) else (i, set str j 0))
unfolding trim
trim-stripped str xs i j t p =
    let run = bounds-first_last str xs i j t p in
    let first_in = lt→ltb 0 (length str) (omega (arith, length-Text t)) in
    let last_in = lt→ltb j (length str) (omega (arith, length-Text t, p.inside)) in
    elim (Bool-cases (leb j (i + 1))) [
      | inl e ↦ rw (run, e, first_in) refl
      | inr e ↦ rw (run, e, last_in) refl
    ]
