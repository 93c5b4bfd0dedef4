-- ===== src/Kernel/Thread/Ids.antt =====
-- kernel/thread.c: allocate_tid.
use longhorn.Base.{
  ℕ, ◌+◌, ◌≡◌, ◌⊎◌, inl, inr, refl, Bool, true, false, ◌&&◌, some, none, List, [], ◌∷◌, ◌++◌, arith,
  length, set, ap, ◌∙◌,
}
use longhorn.Kernel.Thread.{allocate_from, allocate_tid, max_tid}

abbrev pub all_used : List Bool → Bool
all_used [] = true
all_used (used ∷ tids) = used && all_used tids

allocate_from-split :
    (i : ℕ) (tids : List Bool)
    → ((used rest : List Bool) × (tids ≡ used ++ false ∷ rest)
        × (all_used used ≡ true)
        × (allocate_from i tids ≡ some (i + length used)))
      ⊎ ((all_used tids ≡ true) × (allocate_from i tids ≡ none))
unfolding allocate_from
allocate_from-split i [] = inr (refl, refl)
allocate_from-split i (false ∷ tids) = inl ([], tids, refl, refl, ap some (omega arith))
allocate_from-split i (true ∷ tids) = elim (allocate_from-split (i + 1) tids) [
  | inl (used, rest, e, all, run) ↦
      inl (true ∷ used, rest, ap (λ ys. true ∷ ys) e, all, run ∙ ap some (omega arith))
  | inr (all, run) ↦ inr (all, run)
]

set-append :
    (used rest : List Bool) → set (used ++ false ∷ rest) (length used) true ≡ used ++ true ∷ rest
set-append [] rest = refl
set-append (u ∷ used) rest = ap (λ ys. u ∷ ys) (set-append used rest)

-- allocate_tid takes the first id that is not used and marks it, or returns MAX_TID + 1 and changes
-- nothing if all are used.
pub allocate_tid-split :
    (tids : List Bool)
    → ((used rest : List Bool) × (tids ≡ used ++ false ∷ rest)
        × (all_used used ≡ true)
        × (allocate_tid tids ≡ (length used, used ++ true ∷ rest)))
      ⊎ ((all_used tids ≡ true) × (allocate_tid tids ≡ (max_tid + 1, tids)))
unfolding allocate_tid
allocate_tid-split tids = elim (allocate_from-split 0 tids) [
  | inl (used, rest, e, all, run) ↦
      let place : 0 + length used ≡ length used = omega arith in
      inl (
        used,
        rest,
        e,
        all,
        rw (run, allocate_tid, place, e) (ap (λ ys. (length used, ys)) (set-append used rest)),
      )
  | inr (all, run) ↦ inr (all, rw (run, allocate_tid) refl)
]
