-- ===== src/Libk/LinkedList/Tests.antt =====
-- The list functions on a small memory, and the theorems at it: the list at 100, its tail at 108.
use longhorn.Base.{◌≡◌, refl, some, [], ◌∷◌, arith, ◌>>=◌}
use longhorn.Libk.LinkedList.{
  Nodes, update, list_init, list_insert, list_insert_end, list_delete, list_size,
}
use longhorn.Libk.LinkedList.Chain.{IsList}
use longhorn.Libk.LinkedList.Delete.{list_delete-erase}

-- Unset memory.
abbrev blank : Nodes
blank = record { next = λ p. 7; prev = λ p. 9 }

-- 16 and 24, in this order.
abbrev two : Nodes
two = record {
  next = update (update (update (update (λ p. 7) 100 16) 16 24) 24 108) 108 0;
  prev = update (update (update (update (λ p. 9) 100 0) 16 100) 24 16) 108 24;
}

two-IsList : IsList two 100 (16 ∷ 24 ∷ [])
two-IsList = ground arith

list_delete-erase_example :
    (h' : Nodes) × (list_delete 3 100 24 two ≡ some (24, h'))
    × IsList h' 100 (16 ∷ [])
    × (h'.next 24 ≡ 0)
    × (h'.prev 24 ≡ 0)
list_delete-erase_example =
    list_delete-erase 3 100 24 (16 ∷ 24 ∷ []) two two-IsList refl (omega arith)

-- Two insertions and a pop, run.
queue_run :
    (do
      h₁ ← list_init 100 blank
      h₂ ← list_insert 100 16 h₁
      h₃ ← list_insert_end 108 24 h₂
      list_size 4 100 h₃)
    ≡ some 2
unfolding list_init list_insert list_insert_end list_size
queue_run = refl
