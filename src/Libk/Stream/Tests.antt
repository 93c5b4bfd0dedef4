-- ===== src/Libk/Stream/Tests.antt =====
-- Streams at work, and the theorems at small streams.
use longhorn.Base.{◌≡◌, refl, some, none, [], ◌∷◌, ◌++◌, arith, pos, replicate}
use longhorn.Libk.Stream.{
  StdStream, CharStream, init_std, put_std, get_std, init_c, put_c, get_c, resize_c,
}
use longhorn.Libk.Stream.Std
use longhorn.Libk.Stream.Std.{
  put, get, returned, char, put_std_refines, get_std_refines, flush_std_lem, run_refines,
}
use longhorn.Libk.Stream.Chars
use longhorn.Libk.Stream.Chars.{put_c_refines, get_c_refines, flush_c_lem}

-- 104 at the end of the array and 105 at its start.
abbrev wrapped : StdStream
wrapped = record {
  stream = 105 ∷ (replicate 254 0 ++ 104 ∷ []);
  size = 256;
  in_index = 1;
  out_index = 255;
}

-- Three cells, two characters: full.
abbrev small_full : CharStream
small_full = record { stream = 9 ∷ 7 ∷ 8 ∷ []; size = 3; in_index = 1; out_index = 2 }

wrapped-IsValid : Std.IsValid wrapped
wrapped-IsValid = record {
  cells = refl;
  size = refl;
  in_range = omega arith;
  out_range = omega arith;
}

small_full-IsValid : Chars.IsValid small_full
small_full-IsValid = omega arith

run_refines_example :
    Std.run wrapped (put 33 ∷ get ∷ get ∷ get ∷ get ∷ [])
    ≡ some (Std.run_fifo (104 ∷ 105 ∷ []) (put 33 ∷ get ∷ get ∷ get ∷ get ∷ []))
run_refines_example = run_refines (put 33 ∷ get ∷ get ∷ get ∷ get ∷ []) wrapped wrapped-IsValid

-- A stream of size 0 divides by it.
empty_array_faults : put_c (init_c [] 0) 65 ≡ none
unfolding put_c init_c
empty_array_faults = refl

resized_is_empty : get_c (resize_c (0 ∷ 0 ∷ []) small_full 2) ≡ some (255, init_c (0 ∷ 0 ∷ []) 2)
unfolding get_c resize_c
resized_is_empty = refl

fresh_runs :
    Std.run (init_std wrapped) (get ∷ put 65 ∷ get ∷ [])
    ≡ some (char 255 ∷ returned (pos 0) ∷ char 65 ∷ [])
unfolding Std.run init_std put_std get_std
fresh_runs = refl
