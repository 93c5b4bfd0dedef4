-- ===== src/Libc/Str/Compare.antt =====
-- libc/string.c: strcmp and strncmp; libc/memcmp.c.
use longhorn.Base.{
  ℕ, zero, suc, ◌≡◌, some, List, [], ◌∷◌, arith, min, true, false, ◌==◌, if◌then◌else◌, ℤ, ◌-ℤ◌,
  char_value, get_or, refl, sym, ==_ne,
}
use longhorn.Libc.Str.{strcmp, strncmp}
use longhorn.Libc.Str.Text.{Text, done, more}

-- How many bytes two texts have in common before they differ or one ends.
abbrev pub common : List ℕ → List ℕ → ℕ
common [] ys = 0
common (x ∷ xs) [] = 0
common (x ∷ xs) (y ∷ ys) = if x == y then suc (common xs ys) else 0

-- The difference of the characters at an index; the terminator is behind each text.
abbrev pub difference_at : List ℕ → List ℕ → ℕ → ℤ
difference_at xs ys k = char_value (get_or xs k 0) -ℤ char_value (get_or ys k 0)

-- strcmp returns the difference of the two texts at the first place where they differ or end.
pub strcmp-common :
    {str1 str2 xs ys : List ℕ}
    → Text str1 xs
    → Text str2 ys
    → strcmp str1 str2 ≡ some (difference_at xs ys (common xs ys))
unfolding strcmp
strcmp-common done done = ground arith
strcmp-common done (more p t) = ground arith
strcmp-common (more p t) done = ground arith
strcmp-common (more p t) (more q u) = ground (arith, strcmp-common t u)

strncmp-at :
    (n k : ℕ) {s1 s2 xs ys : List ℕ}
    → Text s1 xs
    → Text s2 ys
    → k ≡ min n (common xs ys)
    → strncmp s1 s2 n ≡ some (difference_at xs ys k)
unfolding strncmp
strncmp-at zero k done done e = refl
strncmp-at (suc n) k done done e = refl
strncmp-at zero k done (more p t) e = let z : k ≡ zero = omega arith in rw z refl
strncmp-at (suc n) k done (more {c = c} p t) e =
    let z : k ≡ zero = omega arith in rw (z, ==_ne 0 c (λ q. p (sym q))) refl
strncmp-at zero k (more p t) done e = let z : k ≡ zero = omega arith in rw z refl
strncmp-at (suc n) k (more {c = c} p t) done e =
    let z : k ≡ zero = omega arith in rw (z, ==_ne c 0 p) refl
strncmp-at zero k (more p t) (more q u) e = let z : k ≡ zero = omega arith in rw z refl
strncmp-at (suc n) zero (more {c = c} p t) (more {c = d} q u) e =
    let b : (c == d) ≡ false = ground arith in rw b refl
strncmp-at (suc n) (suc k) (more {c = c} p t) (more {c = d} q u) e =
    let b : (c == d) ≡ true = ground arith in
    rw (b, ==_ne c 0 p) (strncmp-at n k t u (ground arith))

-- strncmp looks at one place more than it is asked to: it returns the difference at the first place
-- where the texts differ or end, or at place `n` if they are the same up to there.
pub strncmp-common :
    (n : ℕ) {s1 s2 xs ys : List ℕ}
    → Text s1 xs
    → Text s2 ys
    → strncmp s1 s2 n ≡ some (difference_at xs ys (min n (common xs ys)))
strncmp-common n t u = strncmp-at n _ t u refl
