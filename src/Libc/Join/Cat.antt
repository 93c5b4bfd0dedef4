-- ===== src/Libc/Join/Cat.antt =====
-- libc/string.c: strcat, and what strncat does with a string shorter than its count.
use longhorn.Base.{
  ℕ, suc, ◌+◌, ◌<◌, ◌≡◌, refl, ◌∙◌, sym, ap, ap₂, some, List, [], ◌∷◌, ◌++◌, arith, ==_ne, length,
  length-append, append_assoc, drop, zero, store, store-append,
}
use longhorn.Libc.Str.Text.{Text, done, more, strlen-length}
use longhorn.Libc.Join.{cat_from, strcat}

-- A write of the first byte behind `front`.
pub store-first :
    (front : List ℕ) (old : ℕ) (room : List ℕ) (p c : ℕ)
    → p ≡ length front
    → store (front ++ old ∷ room) p c ≡ some ((front ++ c ∷ []) ++ room)
store-first front old room p c e =
    store-append front (old ∷ room) 0 p c (omega (arith, e)) (omega arith)
    ∙ ap some (sym (append_assoc front (c ∷ []) room))

pub next-place : (front : List ℕ) (p c : ℕ) → p ≡ length front → p + 1 ≡ length (front ++ c ∷ [])
next-place front p c e = omega (arith, e, length-append front (c ∷ []))

-- A destination of the bytes `xs`, the terminator and what is behind it.
pub Text-split : {str xs : List ℕ} → Text str xs → (rest : List ℕ) × (str ≡ xs ++ 0 ∷ rest)
Text-split (done {rest}) = (rest, refl)
Text-split (more {c} p t) = let (rest, e) = Text-split t in (rest, ap (λ ys. c ∷ ys) e)

pub Text-append :
    {str xs str' ys : List ℕ} → Text str xs → Text str' ys → Text (xs ++ str') (xs ++ ys)
Text-append done t = t
Text-append (more p s) t = more p (Text-append s t)

pub Text-end : {str xs : List ℕ} → Text str xs → (rest : List ℕ) → Text (xs ++ 0 ∷ rest) xs
Text-end done rest = done
Text-end (more p t) rest = more p (Text-end t rest)

-- The loop of strcat writes the bytes of the source behind `front`.
cat_from-append :
    {src ys : List ℕ} (front room : List ℕ) (p : ℕ)
    → Text src ys
    → p ≡ length front
    → length ys < length room
    → (old : ℕ) × (rest : List ℕ) × (cat_from p src (front ++ room)
        ≡ some (p + length ys, front ++ (ys ++ old ∷ rest)))
      × (old ∷ rest ≡ drop (length ys) room)
      × (length ys + suc (length rest) ≡ length room)
unfolding cat_from
cat_from-append front [] p t e h = absurd (omega arith)
cat_from-append front (x ∷ room) p done e h =
    (x, room, ap (λ (n : ℕ). some (n, front ++ x ∷ room)) (omega arith), refl, omega arith)
cat_from-append front (x ∷ room) p (more {c} {str} {xs} ne t) e h =
    let (old, rest, run, behind, size) =
      cat_from-append (front ++ (c ∷ [])) room (p + 1) t (next-place front p c e) (omega arith) in
    (
      old,
      rest,
      rw (==_ne _ _ ne, store-first front x room p c e, run)
          (ap₂ (λ (n : ℕ) (ys : List ℕ). some (n, ys)) (omega arith)
            (append_assoc front (c ∷ []) (xs ++ old ∷ rest))),
      behind,
      omega (arith, size),
    )

drop-append : (xs ys : List ℕ) (n : ℕ) → drop (length xs + n) (xs ++ ys) ≡ drop n ys
drop-append [] ys n = ap (λ m. drop m ys) (omega arith)
drop-append (x ∷ xs) ys n =
    ap (λ m. drop m (x ∷ (xs ++ ys))) {y = suc (length xs + n)} (omega arith) ∙ drop-append xs ys n

drop-tail :
    (n : ℕ) (ys : List ℕ) {y : ℕ} {rest : List ℕ} → y ∷ rest ≡ drop n ys → rest ≡ drop (suc n) ys
drop-tail n ys e = drop-suc_tail n ys (sym e)
  where
    drop-suc_tail :
        (n : ℕ) (ys : List ℕ) {y : ℕ} {rest : List ℕ}
        → drop n ys ≡ y ∷ rest
        → rest ≡ drop (suc n) ys
    drop-suc_tail zero [] e = absurd (cc e)
    drop-suc_tail zero (x ∷ ys) e = cc e
    drop-suc_tail (suc n) [] e = absurd (cc e)
    drop-suc_tail (suc n) (x ∷ ys) e = drop-suc_tail n ys e

-- strcat of two strings, the block of the first with room for both and a terminator, leaves the bytes
-- of the first followed by those of the second there, terminated; the block behind that terminator is
-- unchanged.
pub strcat-Text :
    {dest src xs ys : List ℕ}
    → Text dest xs
    → Text src ys
    → length xs + length ys < length dest
    → (strcat dest src ≡ some (xs ++ (ys ++ 0 ∷ drop (suc (length xs + length ys)) dest)))
      × Text (xs ++ (ys ++ 0 ∷ drop (suc (length xs + length ys)) dest)) (xs ++ ys)
      × (length (xs ++ (ys ++ 0 ∷ drop (suc (length xs + length ys)) dest)) ≡ length dest)
unfolding strcat
strcat-Text {dest} {src} {xs} {ys} s t h =
    let (room, split) = Text-split s in
    let sizes : length dest ≡ length xs + suc (length room) =
      ap length split ∙ length-append xs (0 ∷ room) in
    let (old, rest, run, behind, size) =
      cat_from-append xs (0 ∷ room) (length xs) t refl (omega (arith, sizes)) in
    let copied : cat_from (length xs) src dest
        ≡ some (length xs + length ys, xs ++ (ys ++ old ∷ rest)) =
      ap (cat_from (length xs) src) split ∙ run in
    let ended =
      store-append (xs ++ ys) (old ∷ rest) 0 (length xs + length ys) 0
        (omega (arith, length-append xs ys)) (omega arith) in
    let unchanged : rest ≡ drop (suc (length xs + length ys)) dest =
      drop-tail (length ys) (0 ∷ room) behind
      ∙ sym (drop-append xs (0 ∷ room) (suc (length ys)))
      ∙ ap (λ n. drop n (xs ++ 0 ∷ room)) {y = suc (length xs + length ys)} (omega arith)
      ∙ ap (drop (suc (length xs + length ys))) (sym split) in
    (
      rw (strlen-length s, copied)
          (ap (λ m. store m (length xs + length ys) 0) (sym (append_assoc xs ys (old ∷ rest)))
            ∙ ended
            ∙ ap some (append_assoc xs ys (0 ∷ rest))
            ∙ ap (λ r. some (xs ++ (ys ++ 0 ∷ r))) unchanged),
      Text-append s (Text-end t (drop (suc (length xs + length ys)) dest)),
      ap (λ r. length (xs ++ (ys ++ 0 ∷ r))) (sym unchanged)
          ∙ omega
              (arith, sizes, size, length-append xs (ys ++ 0 ∷ rest), length-append ys (0 ∷ rest)),
    )
