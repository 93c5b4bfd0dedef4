-- ===== src/Libc/Strip/Substring.antt =====
-- libc/string.c: strstr.
use longhorn.Base.{
  ℕ, zero, suc, ◌+◌, ◌≤◌, ◌≡◌, refl, ◌∙◌, ap, false, some, List, [], ◌∷◌, ◌++◌, arith, ==_ne,
  ==_self, length, drop, ◌<◌, ◌==◌, true, length-drop, Option-cases, Bool-cases, inl, inr,
}
use longhorn.Libc.Str.Text.{Text, done, more}
use longhorn.Libc.Strip.{Found, fault, missing, place, match_from, strstr_from, strstr}

-- The inner loop runs to the end of a string that a longer one starts with.
match_from-prefix :
    (j y : ℕ) (ys : List ℕ) {str1 str2 xs : List ℕ}
    → Text str1 xs
    → Text str2 (xs ++ y ∷ ys)
    → match_from j str1 str2 ≡ some (j + length xs, false)
unfolding match_from
match_from-prefix j y ys done (more ne t) =
    rw (==_ne _ _ ne) (ap (λ (n : ℕ). some (n, false)) (omega arith))
match_from-prefix j y ys (more {c} ne s) (more ne' t) =
    rw (==_ne _ _ ne, ==_self c)
      (match_from-prefix (j + 1) y ys s t ∙ ap (λ (n : ℕ). some (n, false)) (omega arith))

drop-all : (n : ℕ) (str : List ℕ) → length str ≤ n → drop n str ≡ []
drop-all zero [] h = refl
drop-all (suc n) [] h = refl
drop-all zero (x ∷ str) h = absurd (omega arith)
drop-all (suc n) (x ∷ str) h = drop-all n str (omega arith)

-- strstr of a string that is not empty, whose block ends with its terminator, for a longer string that
-- starts with it: it reads behind the block, and does not return NULL.
pub strstr-fault :
    (x y : ℕ) (xs ys str1 str2 : List ℕ)
    → Text str1 (x ∷ xs)
    → length str1 ≡ suc (suc (length xs))
    → Text str2 ((x ∷ xs) ++ y ∷ ys)
    → strstr str1 str2 ≡ some fault
unfolding strstr strstr_from
strstr-fault x y xs ys [] str2 s len t = elim s [ ]
strstr-fault x y xs ys (c ∷ []) str2 (more ne s) len t = absurd (omega (arith, len))
strstr-fault x y xs ys (c ∷ (b ∷ str)) str2 (more ne s) len t =
    let matched = match_from-prefix 0 y ys (more ne s) t in
    let ended : drop (0 + length (x ∷ xs)) (b ∷ str) ≡ [] =
      drop-all (0 + length (x ∷ xs)) (b ∷ str) (omega (arith, len)) in
    rw (==_ne _ _ ne, matched, ended) refl

-- With any two numbers of rounds above the length of the string the search comes to an end, and to
-- the same one.
strstr_from-ends :
    (f g i : ℕ) (str1 str2 : List ℕ)
    → length str1 < f
    → length str1 < g
    → (r : Found) × (strstr_from f i str1 str2 ≡ some r) × (strstr_from g i str1 str2 ≡ some r)
unfolding strstr_from
strstr_from-ends zero g i str1 str2 hf hg = absurd (omega arith)
strstr_from-ends (suc f) zero i str1 str2 hf hg = absurd (omega arith)
strstr_from-ends (suc f) (suc g) i [] str2 hf hg = (fault, refl, refl)
strstr_from-ends (suc f) (suc g) i (c ∷ str1) str2 hf hg = elim (Bool-cases (c == 0)) [
  | inl e ↦ (missing, rw e refl, rw e refl)
  | inr e ↦ elim (Option-cases (match_from 0 (c ∷ str1) str2)) [
    | inl fails ↦ (fault, rw (e, fails) refl, rw (e, fails) refl)
    | inr ((j, true), found) ↦ (place i, rw (e, found) refl, rw (e, found) refl)
    | inr ((j, false), missed) ↦
        let (r, run_f, run_g) =
          strstr_from-ends f g (i + j + 1) (drop j str1) str2 (omega (arith, length-drop j str1))
            (omega (arith, length-drop j str1)) in
        (r, rw (e, missed) run_f, rw (e, missed) run_g)
  ]
]

-- The loops of strstr end for all pairs of blocks: with any number of rounds above the length of
-- `str1` the search does not run out of them, and ends as strstr does, with a match, with NULL, or
-- with a read behind one of the blocks.
pub strstr-enough :
    (fuel : ℕ) (str1 str2 : List ℕ)
    → length str1 < fuel
    → (r : Found) × (strstr_from fuel 0 str1 str2 ≡ some r) × (strstr str1 str2 ≡ some r)
unfolding strstr
strstr-enough fuel str1 str2 h =
    strstr_from-ends fuel (suc (length str1)) 0 str1 str2 h (omega arith)
