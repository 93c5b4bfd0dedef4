-- ===== src/Libc/Str/Search.antt =====
-- libc/string.c: memchr, strchr and strrchr.
use longhorn.Base.{
  ℕ, zero, suc, ◌+◌, ◌%◌, ◌<◌, ◌≡◌, ◌≢◌, Option, none, some, List, [], ◌∷◌, ◌++◌, arith, length,
  ltb, ◌==◌, if◌then◌else◌, true, false, ◌&&◌, get_or, ◌≤◌, refl, Bool-cases, inl, inr, ==_iff,
}
use longhorn.Libc.Str.{strchr_from, strchr, strrchr_from, strrchr, is_char}
use longhorn.Libc.Str.Text.{Text, done, more, strlen-length, get_elem?-get_or}

-- The first and the last index of a byte, counted from `i`.
abbrev pub first_index : ℕ → ℕ → List ℕ → Option ℕ
first_index i c [] = none
first_index i c (x ∷ xs) = if x == c then some i else first_index (i + 1) c xs

abbrev pub last_index : ℕ → ℕ → List ℕ → Option ℕ
last_index i c [] = none
last_index i c (x ∷ xs) = elim (last_index (i + 1) c xs) [
  | some j ↦ some j
  | none ↦ if x == c then some i else none
]

is_char-lem : (b c : ℕ) → is_char b c ≡ (b == c % 256 && ltb b 128)
is_char-lem b c = ground arith

strchr_from-first :
    (i c : ℕ) {str xs : List ℕ}
    → Text str xs
    → strchr_from i (length xs + 1) str c
      ≡ some (if ltb (c % 256) 128 then first_index i (c % 256) (xs ++ 0 ∷ []) else none)
unfolding strchr_from
strchr_from-first i c done = ground arith
strchr_from-first i c (more p t) = ground (arith, strchr_from-first (i + 1) c t)

-- strchr returns the first place of the character, the terminator included; a character of 128 or
-- more is never found.
pub strchr-first :
    (c : ℕ) {str xs : List ℕ}
    → Text str xs
    → strchr str c
      ≡ some (if ltb (c % 256) 128 then first_index 0 (c % 256) (xs ++ 0 ∷ []) else none)
unfolding strchr
strchr-first c t = rw (strlen-length t) (strchr_from-first 0 c t)

-- `r` is the last place below `n` where `c` stands in `xs`, or nothing if there is none.
abbrev pub LastBelow : ℕ → ℕ → List ℕ → Option ℕ → Type 0
LastBelow n c xs none = (j : ℕ) → j < n → get_or xs j 0 ≢ c
LastBelow n c xs (some i) =
    (i < n) × (get_or xs i 0 ≡ c) × ((j : ℕ) → i < j → j < n → get_or xs j 0 ≢ c)

LastBelow-suc :
    (n c : ℕ) (xs : List ℕ) (r : Option ℕ)
    → get_or xs n 0 ≢ c
    → LastBelow n c xs r
    → LastBelow (suc n) c xs r
LastBelow-suc n c xs none h l = λ j lt. elim (Bool-cases (j == n)) [
  | inl e ↦ rw ((==_iff j n).0 e) h
  | inr e ↦ l j (ground arith)
]
LastBelow-suc n c xs (some i) h (lo, at, none_after) = (
  omega arith,
  at,
  λ j after lt. elim (Bool-cases (j == n)) [
    | inl e ↦ rw ((==_iff j n).0 e) h
    | inr e ↦ none_after j after (ground arith)
  ],
)

strrchr_from-last :
    (n c : ℕ) {str xs : List ℕ}
    → Text str xs
    → n ≤ length xs
    → c % 256 < 128
    → (r : Option ℕ) × (strrchr_from n str c ≡ some r) × LastBelow n (c % 256) xs r
unfolding strrchr_from
strrchr_from-last zero c t h small = (none, refl, λ j lt. absurd (omega arith))
strrchr_from-last (suc n) c {xs = xs} t h small =
    let (r, run, last) = strrchr_from-last n c t (omega arith) small in
    elim (Bool-cases (get_or xs n 0 == c % 256)) [
      | inl e ↦
          let same : get_or xs n 0 ≡ c % 256 = (==_iff _ _).0 e in
          let found : is_char (get_or xs n 0) c ≡ true = ground arith in
          (
            some n,
            rw (get_elem?-get_or n t (omega arith), found) refl,
            (omega arith, same, λ j after lt. absurd (omega arith)),
          )
      | inr e ↦
          let other : get_or xs n 0 ≢ c % 256 = ground arith in
          let missed : is_char (get_or xs n 0) c ≡ false = ground arith in
          (
            r,
            rw (get_elem?-get_or n t (omega arith), missed) run,
            LastBelow-suc n (c % 256) xs r other last,
          )
    ]

-- strrchr, for a character below 128, returns the last place before the terminator where it stands,
-- or NULL if there is none: it does not find the terminator.
pub strrchr-last :
    (c : ℕ) {str xs : List ℕ}
    → Text str xs
    → c % 256 < 128
    → (r : Option ℕ) × (strrchr str c ≡ some r) × LastBelow (length xs) (c % 256) xs r
unfolding strrchr
strrchr-last c {xs = xs} t small =
    rw (strlen-length t) (strrchr_from-last (length xs) c t (omega arith) small)
