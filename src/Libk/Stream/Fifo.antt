-- ===== src/Libk/Stream/Fifo.antt =====
-- What a stream promises: a queue of bytes, oldest first, that holds at most `cap`.
use longhorn.Base.{
  ℕ, Bool, true, false, List, [], ◌∷◌, ◌++◌, length, ltb, if◌then◌else◌, drop, get_or,
}

-- Whether there was room, and the queue after it.
abbrev pub push : ℕ → List ℕ → ℕ → Bool × List ℕ
push cap q c = if ltb (length q) cap then (true, q ++ c ∷ []) else (false, q)

-- The oldest byte, or `d`, and the queue after it.
abbrev pub pop : ℕ → List ℕ → ℕ × List ℕ
pop d q = (get_or q 0 d, drop 1 q)
