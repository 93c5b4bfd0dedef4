-- ===== src/Libc/Join/Copies.antt =====
-- libc/string.c: strncpy, and strncat with a count that goes past the end of its source.
use longhorn.Base.{
  ℕ, zero, suc, ◌+◌, ◌≤◌, ◌<◌, ◌≡◌, ◌≢◌, refl, ◌∙◌, ap, none, some, List, [], ◌∷◌, ◌++◌, arith,
  ==_ne, length, append_assoc, store, drop, get_elem?, get_elem?-out, Option-cases, inl, inr,
}
use longhorn.Libc.Str.{strlen}
use longhorn.Libc.Str.Text.{Text, done, more}
use longhorn.Libc.Join.{pad_from, ncpy_from, strncpy, ncat_from, strncat}
use longhorn.Libc.Join.Cat.{store-first, next-place}

-- The first `n` bytes of `xs`, filled up with zeros.
abbrev pub padded : ℕ → List ℕ → List ℕ
padded zero xs = []
padded (suc n) [] = 0 ∷ padded n []
padded (suc n) (x ∷ xs) = x ∷ padded n xs

pad_from-padded :
    (n : ℕ) (front room : List ℕ) (p : ℕ)
    → p ≡ length front
    → n ≤ length room
    → pad_from p n (front ++ room) ≡ some (front ++ (padded n [] ++ drop n room))
unfolding pad_from
pad_from-padded zero front room p e h = refl
pad_from-padded (suc n) front [] p e h = absurd (omega arith)
pad_from-padded (suc n) front (x ∷ room) p e h = rw (store-first front x room p 0 e) (
    pad_from-padded n (front ++ 0 ∷ []) room (p + 1) (next-place front p 0 e) (omega arith)
    ∙ ap some (append_assoc front (0 ∷ []) (padded n [] ++ drop n room)))

pub ncpy_from-padded :
    (n : ℕ) {src xs : List ℕ} (front room : List ℕ) (p : ℕ)
    → Text src xs
    → p ≡ length front
    → n ≤ length room
    → ncpy_from p n src (front ++ room) ≡ some (front ++ (padded n xs ++ drop n room))
unfolding ncpy_from
ncpy_from-padded zero front room p t e h = refl
ncpy_from-padded (suc n) front [] p t e h = absurd (omega arith)
ncpy_from-padded (suc n) front (x ∷ room) p done e h =
    pad_from-padded (suc n) front (x ∷ room) p e h
ncpy_from-padded (suc n) front (x ∷ room) p (more {c} {str} {xs} ne t) e h =
    rw (==_ne _ _ ne, store-first front x room p c e)
      (ncpy_from-padded n (front ++ c ∷ []) room (p + 1) t (next-place front p c e) (omega arith)
        ∙ ap some (append_assoc front (c ∷ []) (padded n xs ++ drop n room)))

-- strncpy into a block of `n` bytes or more writes exactly the first `n` bytes: those of the string as
-- far as they go, and zeros behind them; a string of `n` bytes or more is left without a terminator.
pub strncpy-padded :
    (n : ℕ) {src xs : List ℕ} (dest : List ℕ)
    → Text src xs
    → n ≤ length dest
    → strncpy dest src n ≡ some (padded n xs ++ drop n dest)
unfolding strncpy
strncpy-padded n dest t h = ncpy_from-padded n [] dest 0 t refl h

ncat_from-fault :
    (rounds : ℕ) (c : ℕ) (src : List ℕ) (i p : ℕ) (dest : List ℕ)
    → c ≢ 0
    → i ≤ length (c ∷ src)
    → length (c ∷ src) < i + rounds
    → ncat_from (c ∷ src) i rounds p dest ≡ none
unfolding ncat_from
ncat_from-fault zero c src i p dest ne lo hi = absurd (omega arith)
ncat_from-fault (suc rounds) c src i p dest ne lo hi = elim (Option-cases (get_elem? (c ∷ src) i)) [
  | inl out ↦ rw (==_ne _ _ ne, out) refl
  | inr (b, found) ↦ elim (Option-cases (store dest p b)) [
    | inl full ↦ rw (==_ne _ _ ne, found, full) refl
    | inr (dest', wrote) ↦
        rw (==_ne _ _ ne, found, wrote)
          (ncat_from-fault rounds c src (i + 1) (p + 1) dest' ne (inside i b found) (omega arith))
  ]
]
  where
    inside : (i b : ℕ) → get_elem? (c ∷ src) i ≡ some b → i + 1 ≤ length (c ∷ src)
    inside i b found = ground (arith, found, get_elem?-out (c ∷ src) i)

-- strncat with a count above the number of bytes of its source's block reads behind that block,
-- wherever the string in it ends: it looks for the end of the string at its first byte alone. For a
-- source that is not the empty string.
pub strncat-fault :
    (dest src : List ℕ) (c len num : ℕ)
    → strlen dest ≡ some len
    → c ≢ 0
    → length (c ∷ src) < num
    → strncat dest (c ∷ src) num ≡ none
unfolding strncat
strncat-fault dest src c len num e ne h =
    rw (e, ncat_from-fault num c src 0 len dest ne (omega arith) (omega arith)) refl
