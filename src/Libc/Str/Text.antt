-- ===== src/Libc/Str/Text.antt =====
-- What a null-terminated string stands for: the bytes before its terminator.
use longhorn.Base.{
  ℕ, ◌+◌, ◌≤◌, ◌<◌, ◌≡◌, ◌≢◌, some, List, [], ◌∷◌, arith, length, Bool, true, false, ◌==◌,
  if◌then◌else◌, ap, take, zero, suc, get_elem?, get_or, refl,
}
use longhorn.Libc.Str.{strlen_from, strlen, strspn_has}

pub data Text : List ℕ → List ℕ → Type 0 where
  done : {rest : List ℕ} → Text (0 ∷ rest) []
  more : {c : ℕ} {str xs : List ℕ} → c ≢ 0 → Text str xs → Text (c ∷ str) (c ∷ xs)

-- Whether a byte is in a list.
abbrev pub has : ℕ → List ℕ → Bool
has c [] = false
has c (x ∷ xs) = if c == x then true else has c xs

strlen_from-length :
    (i : ℕ) {str xs : List ℕ} → Text str xs → strlen_from i str ≡ some (i + length xs)
unfolding strlen_from
strlen_from-length i done = ap some (omega arith)
strlen_from-length i (more p t) = ground (arith, strlen_from-length (i + 1) t)

pub strlen-length : {str xs : List ℕ} → Text str xs → strlen str ≡ some (length xs)
unfolding strlen
strlen-length t = ground (arith, strlen_from-length 0 t)

strlen_from-le : (i : ℕ) (str : List ℕ) (n : ℕ) → strlen_from i str ≡ some n → n < i + length str
unfolding strlen_from
strlen_from-le i [] n e = cc
strlen_from-le i (c ∷ cs) n e = ground (arith, strlen_from-le (i + 1) cs n)

pub strlen-le : (str : List ℕ) (n : ℕ) → strlen str ≡ some n → n ≤ length str
unfolding strlen
strlen-le str n e = omega (arith, strlen_from-le 0 str n e)

pub strspn_has-has : (c : ℕ) {str xs : List ℕ} → Text str xs → strspn_has c str ≡ some (has c xs)
unfolding strspn_has
strspn_has-has c done = ground arith
strspn_has-has c (more p t) = ground (arith, strspn_has-has c t)

-- Every read up to the terminator succeeds.
pub get_elem?-get_or :
    (i : ℕ) {str xs : List ℕ} → Text str xs → i ≤ length xs → get_elem? str i ≡ some (get_or xs i 0)
get_elem?-get_or zero done h = refl
get_elem?-get_or (suc i) done h = absurd (omega arith)
get_elem?-get_or zero (more p t) h = refl
get_elem?-get_or (suc i) (more p t) h = get_elem?-get_or i t (omega arith)

pub length-Text : {str xs : List ℕ} → Text str xs → length xs < length str
length-Text done = omega arith
length-Text (more p t) = omega (arith, length-Text t)

-- A string by its bytes: no terminator below `n`, and one at `n`.
pub Text-take :
    (n : ℕ) (str : List ℕ)
    → n < length str
    → get_or str n 0 ≡ 0
    → ((k : ℕ) → k < n → get_or str k 0 ≢ 0)
    → Text str (take n str)
Text-take n [] h e ne = absurd (omega arith)
Text-take zero (c ∷ str) h e ne = rw e done
Text-take (suc n) (c ∷ str) h e ne =
    more (ne 0 (omega arith)) (Text-take n str (omega arith) e (λ k lt. ne (suc k) (omega arith)))
