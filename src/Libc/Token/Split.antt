-- ===== src/Libc/Token/Split.antt =====
-- libc/string.c: what one call of strtok does.
use longhorn.Base.{
  ℕ, zero, suc, ◌+◌, ◌≤◌, ◌<◌, ◌≡◌, ◌≢◌, ◌⊎◌, inl, inr, refl, sym, ◌∙◌, ap, subst, Option, none,
  some, List, [], ◌∷◌, arith, length, take, drop, set, get_elem?, length-drop, Bool, true, false,
  ◌==◌, Bool-cases, lt→ltb, ==_iff, ==_ne,
}
use longhorn.Libc.Str.{strspn}
use longhorn.Libc.Str.Text.{Text, done, more, strlen-length, length-Text, get_elem?-get_or}
use longhorn.Libc.Str.Span.{span, strspn-span}
use longhorn.Libc.Token.{start_at, cut_token, strtok}

drop-drop : (m n : ℕ) (xs : List ℕ) → drop (m + n) xs ≡ drop n (drop m xs)
drop-drop zero n xs = ap (λ (k : ℕ). drop k xs) (omega arith)
drop-drop (suc m) n [] = drop_nil (suc m + n) n
  where
    drop_nil : (a b : ℕ) → drop {A = ℕ} a [] ≡ drop b []
    drop_nil zero zero = refl
    drop_nil zero (suc b) = refl
    drop_nil (suc a) zero = refl
    drop_nil (suc a) (suc b) = refl
drop-drop (suc m) n (x ∷ xs) =
    let e : suc m + n ≡ suc (m + n) = omega arith in rw e (drop-drop m n xs)

drop-set : (m n : ℕ) (xs : List ℕ) → drop m (set xs (m + n) 0) ≡ set (drop m xs) n 0
drop-set zero n xs = ap (λ (k : ℕ). set xs k 0) (omega arith)
drop-set (suc m) n [] = refl
drop-set (suc m) n (x ∷ xs) =
    let e : suc m + n ≡ suc (m + n) = omega arith in rw e (drop-set m n xs)

drop-set_before : (m n : ℕ) (xs : List ℕ) → n < m → drop m (set xs n 0) ≡ drop m xs
drop-set_before zero n xs h = absurd (omega arith)
drop-set_before (suc m) n [] h = refl
drop-set_before (suc m) zero (x ∷ xs) h = refl
drop-set_before (suc m) (suc n) (x ∷ xs) h = drop-set_before m n xs (omega arith)

-- The text from a later place on, and the text cut off at a place.
Text-drop : (k : ℕ) {str xs : List ℕ} → Text str xs → k ≤ length xs → Text (drop k str) (drop k xs)
Text-drop zero t h = t
Text-drop (suc k) done h = absurd (omega arith)
Text-drop (suc k) (more p t) h = Text-drop k t (omega arith)

Text-set : (k : ℕ) {str xs : List ℕ} → Text str xs → k ≤ length xs → Text (set str k 0) (take k xs)
Text-set zero done h = done
Text-set zero (more p t) h = done
Text-set (suc k) done h = absurd (omega arith)
Text-set (suc k) (more p t) h = more p (Text-set k t (omega arith))

span-le : (inside : Bool) (ds xs : List ℕ) → span inside ds xs ≤ length xs
span-le inside ds [] = omega arith
span-le inside ds (x ∷ xs) = ground (arith, span-le inside ds xs)

get_elem?-drop : (m : ℕ) (xs : List ℕ) → get_elem? xs m ≡ get_elem? (drop m xs) 0
get_elem?-drop zero xs = refl
get_elem?-drop (suc m) [] = refl
get_elem?-drop (suc m) (x ∷ xs) = get_elem?-drop m xs

take-all : (xs : List ℕ) → take (length xs) xs ≡ xs
take-all [] = refl
take-all (x ∷ xs) = ap (λ ys. x ∷ ys) (take-all xs)

drop-all : (k : ℕ) (xs : List ℕ) → length xs ≤ k → drop k xs ≡ []
drop-all zero [] h = refl
drop-all zero (x ∷ xs) h = absurd (omega arith)
drop-all (suc k) [] h = refl
drop-all (suc k) (x ∷ xs) h = drop-all k xs (omega arith)

-- The token at `token` is the first `b` bytes of `ys`, and the text at `oldstr` what is behind them
-- and the delimiter.
pub record IsCut (token b oldstr : ℕ) (ys mem : List ℕ) : Type 0 where
  pub token_text : Text (drop token mem) (take b ys)
  pub rest_text : Text (drop oldstr mem) (drop (suc b) ys)

IsCut-last :
    (token : ℕ) (mem ys : List ℕ)
    → Text (drop token mem) ys
    → IsCut token (length ys) (token + length ys) ys mem
IsCut-last token mem ys t = record {
  token_text = rw (take-all ys) t;
  rest_text =
      rw
        (
          drop-drop token (length ys) mem,
          drop-all (suc (length ys)) ys (omega arith) ∙ sym (drop-all (length ys) ys (omega arith)),
        )
        (Text-drop (length ys) t (omega arith));
}

IsCut-delimiter :
    (token b : ℕ) (mem ys : List ℕ)
    → Text (drop token mem) ys
    → b < length ys
    → IsCut token b (token + b + 1) ys (set mem (token + b) 0)
IsCut-delimiter token b mem ys t h =
    let place : token + b + 1 ≡ token + suc b = omega arith in
    record {
      token_text = rw (drop-set token b mem) (Text-set b t (omega arith));
      rest_text =
          rw
            (
              drop-set_before (token + b + 1) (token + b) mem (omega arith),
              ap (λ (k : ℕ). drop k mem) place ∙ drop-drop token (suc b) mem,
            )
            (Text-drop (suc b) t (omega arith));
    }

cut_token-IsCut :
    (token : ℕ) (delimeters ds mem ys : List ℕ)
    → Text delimeters ds
    → Text (drop token mem) ys
    → (oldstr : ℕ) × (mem' : List ℕ) × (cut_token token delimeters mem
        ≡ some (some token, oldstr, mem'))
      × IsCut token (span false ds ys) oldstr ys mem'
unfolding cut_token
cut_token-IsCut token delimeters ds mem ys d t = elim (Bool-cases (span false ds ys == length ys)) [
  | inl e ↦
      let whole : span false ds ys ≡ length ys = (==_iff _ _).0 e in
      (
        token + length ys,
        mem,
        rw ((strspn-span t d).2, e, strlen-length t) refl,
        subst (λ (k : ℕ). IsCut token k (token + length ys) ys mem) (sym whole)
            (IsCut-last token mem ys t),
      )
  | inr e ↦
      let part : span false ds ys < length ys = ground (arith, span-le false ds ys) in
      let room : token + span false ds ys < length mem =
        omega (arith, length-Text t, length-drop token mem) in
      (
        token + span false ds ys + 1,
        set mem (token + span false ds ys) 0,
        rw ((strspn-span t d).2, e, lt→ltb _ (length mem) room) refl,
        IsCut-delimiter token (span false ds ys) mem ys t part,
      )
]

Text-head : {c : ℕ} {str xs : List ℕ} → Text str (c ∷ xs) → c ≢ 0
Text-head (more p t) = p

-- What a call makes of the text `ys` that is left when the delimiters are skipped.
abbrev pub Outcome : Option (Option ℕ × ℕ × List ℕ) → ℕ → List ℕ → List ℕ → List ℕ → Type 0
Outcome result token ds ys mem =
    ((ys ≡ []) × (result ≡ some (none, token, mem)))
    ⊎ ((ys ≢ [])
        × ((left : ℕ) × (mem' : List ℕ) × (result ≡ some (some token, left, mem'))
            × IsCut token (span false ds ys) left ys mem'))

strtok-skipped :
    (str : Option ℕ) (oldstr skipped : ℕ) (delimeters ds mem ys : List ℕ)
    → Text delimeters ds
    → strspn (drop (start_at str oldstr) mem) delimeters ≡ some skipped
    → Text (drop (start_at str oldstr + skipped) mem) ys
    → Outcome (strtok str delimeters oldstr mem) (start_at str oldstr + skipped) ds ys mem
unfolding strtok
strtok-skipped str oldstr skipped delimeters ds mem [] d run t =
    let head : get_elem? mem (start_at str oldstr + skipped) ≡ some 0 =
      get_elem?-drop (start_at str oldstr + skipped) mem ∙ get_elem?-get_or 0 t (omega arith) in
    inl (refl, rw (run, head) refl)
strtok-skipped str oldstr skipped delimeters ds mem (c ∷ ys) d run t =
    let head : get_elem? mem (start_at str oldstr + skipped) ≡ some c =
      get_elem?-drop (start_at str oldstr + skipped) mem ∙ get_elem?-get_or 0 t (omega arith) in
    let (left, mem', cut, is_cut) =
      cut_token-IsCut (start_at str oldstr + skipped) delimeters ds mem (c ∷ ys) d t in
    inr (λ e. cc, (left, mem', rw (run, head, ==_ne c 0 (Text-head t)) cut, is_cut))

-- For terminated strings, strtok skips the delimiters at the start of its text, or of what the last
-- call left if it is given NULL. If nothing is left it returns NULL, changes no byte of the memory, and
-- moves `oldstr` to the terminator behind those delimiters; otherwise it returns the place of a token that
-- reaches to the next delimiter or to the end, and leaves the text behind.
pub strtok-Outcome :
    (str : Option ℕ) (oldstr : ℕ) (delimeters ds mem xs : List ℕ)
    → Text delimeters ds
    → Text (drop (start_at str oldstr) mem) xs
    → Outcome
        (strtok str delimeters oldstr mem)
        (start_at str oldstr + span true ds xs)
        ds
        (drop (span true ds xs) xs)
        mem
strtok-Outcome str oldstr delimeters ds mem xs d t =
    strtok-skipped str oldstr (span true ds xs) delimeters ds mem (drop (span true ds xs) xs) d
      (strspn-span t d).0
      (subst (λ m. Text m (drop (span true ds xs) xs))
        (sym (drop-drop (start_at str oldstr) (span true ds xs) mem))
        (Text-drop (span true ds xs) t (span-le true ds xs)))
