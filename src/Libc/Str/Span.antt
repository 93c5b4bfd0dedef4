-- ===== src/Libc/Str/Span.antt =====
-- libc/string.c: strspn, strcspn and strpbrk.
use longhorn.Base.{
  ℕ, suc, ◌+◌, ◌≡◌, none, some, List, [], ◌∷◌, arith, length, Bool, true, false, not, ◌==◌,
  if◌then◌else◌,
}
use longhorn.Libc.Str.{
  strspn_from, strspn, strcspn_has, strcspn_from, strcspn, strpbrk_from, strpbrk,
}
use longhorn.Libc.Str.Text.{Text, done, more, has, strlen-length, strspn_has-has}

-- How many bytes at the start of a text are in the set, where `inside` is true, or outside it.
abbrev pub span : Bool → List ℕ → List ℕ → ℕ
span inside set [] = 0
span inside set (x ∷ xs) =
    if (if has x set then inside else not inside) then suc (span inside set xs) else 0

strspn_from-span :
    (i : ℕ) {str1 str2 xs ys : List ℕ}
    → Text str1 xs
    → Text str2 ys
    → strspn_from i str1 str2 ≡ some (i + span true ys xs)
unfolding strspn_from
strspn_from-span i done u = ground arith
strspn_from-span i (more {c = c} p t) u =
    ground (arith, strspn_has-has c u, strspn_from-span (i + 1) t u)

strcspn_has-has :
    (c : ℕ) {str2 ys : List ℕ}
    → Text str2 ys
    → strcspn_has (length ys + 1) c str2 ≡ some (if c == 0 then true else has c ys)
unfolding strcspn_has
strcspn_has-has c done = ground arith
strcspn_has-has c (more p t) = ground (arith, strcspn_has-has c t)

strcspn_from-span :
    (i : ℕ) {str1 str2 xs ys : List ℕ}
    → Text str1 xs
    → Text str2 ys
    → strcspn_from i (length xs + 1) str1 str2 ≡ some (some (i + span false ys xs))
unfolding strcspn_from
strcspn_from-span i done u = ground (arith, strlen-length u, strcspn_has-has 0 u)
strcspn_from-span i (more {c = c} p t) u =
    ground (arith, strlen-length u, strcspn_has-has c u, strcspn_from-span (i + 1) t u)

strpbrk_from-span :
    (i : ℕ) {str1 str2 xs ys : List ℕ}
    → Text str1 xs
    → Text str2 ys
    → strpbrk_from i str1 str2
      ≡ some (if span false ys xs == length xs then none else some (i + span false ys xs))
unfolding strpbrk_from
strpbrk_from-span i done u = ground arith
strpbrk_from-span i (more {c = c} p t) u =
    ground (arith, strspn_has-has c u, strpbrk_from-span (i + 1) t u)

-- strspn measures the start of a text that consists of the bytes of another, strcspn the start
-- without any of them, and strpbrk returns the place behind that start, or NULL at the end.
pub strspn-span :
    {str1 str2 xs ys : List ℕ}
    → Text str1 xs
    → Text str2 ys
    → (strspn str1 str2 ≡ some (span true ys xs))
      × (strcspn str1 str2 ≡ some (span false ys xs))
      × (strpbrk str1 str2
          ≡ some (if span false ys xs == length xs then none else some (span false ys xs)))
unfolding strspn strcspn strpbrk
strspn-span t u = (
  ground (arith, strspn_from-span 0 t u),
  ground (arith, strlen-length t, strcspn_from-span 0 t u),
  ground (arith, strpbrk_from-span 0 t u),
)
