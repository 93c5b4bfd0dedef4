-- ===== src/Drivers/Line/Tests.antt =====
-- A line of 1100 cells with two characters in it, cooked and raw, and the theorems at it.
use longhorn.Base.{
  ℕ, zero, suc, ◌<◌, ◌≡◌, ◌≢◌, refl, false, some, [], ◌∷◌, ◌++◌, pos, get_or, length, arith,
  replicate,
}
use longhorn.Libk.Stream.{StdStream}
use longhorn.Libk.Stream.Std.{contents}
use longhorn.Libc.Str.Text.{done, more}
use longhorn.Drivers.Line.{LineDisc, cooked, line_in, line_recv, line_recs, line_send}
use longhorn.Drivers.Line.Edit.{IsLine, text}
use longhorn.Drivers.Line.Typing.{IsAfter, line_in-after_key, typed, typed-IsLine}
use longhorn.Drivers.Line.Receive.{line_recs-overrun}
use longhorn.Drivers.Line.Send.{line_send-push_all}

abbrev empty_out : StdStream
empty_out = record { stream = replicate 256 0; size = 256; in_index = 0; out_index = 0 }

abbrev hi : LineDisc
hi = record {
  line_buffer = 104 ∷ 105 ∷ replicate 1098 0;
  buffer_i = 2;
  ts = record { capitalize = false; alt_pressed = false; ctrl_pressed = false };
  dis = [];
  out = some empty_out;
  mode = cooked;
}

hi_cells : 1100 ≡ length hi.line_buffer
hi_cells = refl

hi-IsLine : IsLine hi empty_out
hi-IsLine = record {
  cells = omega (arith, hi_cells);
  index = omega arith;
  connected = refl;
  stream = record { cells = refl; size = refl; in_range = omega arith; out_range = omega arith };
}

-- The letter a, whose keycode is 30.
line_in-after_key_example :
    (ld' : LineDisc) × (line_in 30 hi ≡ some (pos 0, ld'))
    × IsAfter ld' hi.ts (104 ∷ 105 ∷ 97 ∷ []) (97 ∷ [])
line_in-after_key_example = line_in-after_key 30 hi empty_out hi-IsLine refl

typed-IsLine_example :
    (ld' : LineDisc) × (s' : StdStream) × (typed (42 ∷ 30 ∷ 170 ∷ 14 ∷ 28 ∷ []) hi ≡ some ld')
    × IsLine ld' s'
typed-IsLine_example = typed-IsLine (42 ∷ 30 ∷ 170 ∷ 14 ∷ 28 ∷ []) hi empty_out hi-IsLine refl

line_recs-overrun_example :
    (ld' : LineDisc) × (line_recs (33 ∷ 0 ∷ []) (record hi { buffer_i = 1023 }) ≡ some (2, ld'))
    × (text ld' ≡ text (record hi { buffer_i = 1023 }) ++ 33 ∷ 0 ∷ [])
    × (get_or ld'.line_buffer 1025 1 ≡ 0)
    × (ld'.buffer_i ≡ 1025)
    × ((c : ℕ) → (next : LineDisc) × (line_recv c ld' ≡ some (pos 0, next)))
line_recs-overrun_example =
    line_recs-overrun (record hi { buffer_i = 1023 }) (more (λ e. absurd (omega (arith, e))) done)
      (omega (arith, hi_cells)) (omega arith) (omega arith)

hi_nonzero : (k : ℕ) → k < 2 → get_or hi.line_buffer k 0 ≢ 0
hi_nonzero zero h = λ e. absurd (omega (arith, e))
hi_nonzero (suc zero) h = λ e. absurd (omega (arith, e))
hi_nonzero (suc (suc k)) h = absurd (omega arith)

line_send-push_all_example :
    (ld' : LineDisc) × (s' : StdStream) × (line_send hi ≡ some (2, ld'))
    × IsLine ld' s'
    × (contents s' ≡ 104 ∷ 105 ∷ [])
    × (text ld' ≡ [])
line_send-push_all_example = line_send-push_all hi empty_out hi-IsLine hi_nonzero
