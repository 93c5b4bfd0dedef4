-- ===== src/Drivers/Line/Receive.antt =====
-- drivers/line.c: line_recv and line_recs, which put output of a process into the line.
use longhorn.Base.{
  ℕ, zero, suc, ◌+◌, ◌-◌, ◌<◌, ◌≤◌, ◌≡◌, refl, sym, ◌∙◌, ap, true, false, not, ◌&&◌, ltb, some,
  List, [], ◌∷◌, ◌++◌, ◌==◌, if◌then◌else◌, ℤ, pos, neg, get_or, set, take, length, arith, add_u32,
  length-set, length-take, append_assoc, append-nil, lt→ltb, Bool-cases, inl, inr, get_or-set_self,
}
use longhorn.Libc.Str.Text.{Text, done, more, strlen-length, length-Text}
use longhorn.Drivers.Line.{LineDisc, line_recv, put_char, copy_to, recs_size, line_recs}
use longhorn.Drivers.Line.Edit.{text, take-set, take-set_end, take-take}

-- What line_recv makes of a character: its result, and the line. A backspace replaces the last
-- character of a line that is not empty.
abbrev pub received : ℕ → List ℕ → ℤ × List ℕ
received c line =
    if length line == 1023
    then (neg 3, line)
    else if c == 8 && not (length line == 0)
    then (pos 0, take (length line - 1) line ++ c ∷ [])
    else (pos 0, line ++ c ∷ [])

put_char-text :
    (c : ℕ) (ld : LineDisc)
    → 1024 ≤ length ld.line_buffer
    → ld.buffer_i < 1023
    → (ld' : LineDisc) × (put_char c ld ≡ some (pos 0, ld'))
      × (text ld' ≡ text ld ++ c ∷ [])
      × (length ld'.line_buffer ≡ length ld.line_buffer)
      × (ld'.buffer_i < 1024)
unfolding put_char
put_char-text c ld h room =
    let fits : ltb ld.buffer_i (length ld.line_buffer) ≡ true = lt→ltb _ _ (omega arith) in
    let next : add_u32 ld.buffer_i 1 ≡ suc ld.buffer_i = omega arith in
    (
      record ld { line_buffer = set ld.line_buffer ld.buffer_i c; buffer_i = suc ld.buffer_i },
      rw (fits, next) refl,
      take-set_end ld.line_buffer ld.buffer_i c (omega arith),
      length-set ld.line_buffer ld.buffer_i c,
      omega arith,
    )

-- line_recv on a line of fewer than 1024 characters in its buffer of 1024: a character is put at its
-- end, and a backspace takes the place of its last character. With 1023 characters the result is -3
-- and the line stays.
pub line_recv-received :
    (c : ℕ) (ld : LineDisc)
    → 1024 ≤ length ld.line_buffer
    → ld.buffer_i < 1024
    → (ld' : LineDisc) × (line_recv c ld ≡ some ((received c (text ld)).0, ld'))
      × (text ld' ≡ (received c (text ld)).1)
      × (length ld'.line_buffer ≡ length ld.line_buffer)
      × (ld'.buffer_i < 1024)
unfolding line_recv
line_recv-received c ld cells index =
    let len : length (text ld) ≡ ld.buffer_i =
      omega (arith, length-take ld.buffer_i ld.line_buffer) in
    let fits : ltb ld.buffer_i (length ld.line_buffer) ≡ true = lt→ltb _ _ (omega arith) in
    elim (Bool-cases (ld.buffer_i == 1023)) [
      | inl full ↦ (ld, rw (len, full) refl, rw (len, full) refl, refl, index)
      | inr room ↦ elim (Bool-cases (c == 8 && not (ld.buffer_i == 0))) [
        | inl back ↦
            let (ld', run, line, cells', index') =
              put_char-text c
                (record ld {
                  line_buffer = set ld.line_buffer ld.buffer_i 0;
                  buffer_i = ld.buffer_i - 1;
                })
                (omega (arith, length-set ld.line_buffer ld.buffer_i 0)) (ground (arith, room)) in
            (
              ld',
              rw (len, room, back, fits) run,
              rw (len, room, back)
                  (line
                    ∙ ap (λ q. q ++ c ∷ [])
                        (take-set (ld.buffer_i - 1) ld.line_buffer ld.buffer_i 0 (omega arith)
                          ∙ sym (
                              take-take (ld.buffer_i - 1) ld.buffer_i ld.line_buffer
                                (omega arith)))),
              cells' ∙ length-set ld.line_buffer ld.buffer_i 0,
              index',
            )
        | inr plain ↦
            let (ld', run, line, cells', index') =
              put_char-text c ld cells (ground (arith, room, index)) in
            (ld', rw (len, room, plain) run, rw (len, room, plain) line, cells', index')
      ]
    ]

copy_to-take :
    (i n : ℕ) (src dest : List ℕ)
    → n ≤ length src
    → i + n ≤ length dest
    → (dest' : List ℕ) × (copy_to i n src dest ≡ some dest')
      × (length dest' ≡ length dest)
      × (take (i + n) dest' ≡ take i dest ++ take n src)
unfolding copy_to
copy_to-take i zero src dest h k =
    (dest, refl, refl, rw append-nil (ap (λ m. take m dest) (omega arith)))
copy_to-take i (suc n) [] dest h k = absurd (omega arith)
copy_to-take i (suc n) (c ∷ src) dest h k =
    let fits : ltb i (length dest) ≡ true = lt→ltb _ _ (omega arith) in
    let (dest', run, len, same) =
      copy_to-take (i + 1) n src (set dest i c) (omega arith)
        (omega (arith, length-set dest i c)) in
    (
      dest',
      rw (fits) run,
      len ∙ length-set dest i c,
      ap (λ m. take m dest') (omega arith)
          ∙ same
          ∙ ap (λ m. take m (set dest i c) ++ take n src) {y = suc i} (omega arith)
          ∙ ap (λ q. q ++ take n src) (take-set_end dest i c (omega arith))
          ∙ append_assoc (take i dest) (c ∷ []) (take n src),
    )

take-Text : {str xs : List ℕ} → Text str xs → take (length xs) str ≡ xs
take-Text done = refl
take-Text {str = c ∷ str} (more p t) = ap (λ q. c ∷ q) (take-Text t)

-- line_recs of a string that fits in the line buffer with its terminator: the string is put at the end of the
-- line, with a terminator behind it, and the result is its length.
pub line_recs-append :
    {str xs : List ℕ} (ld : LineDisc)
    → Text str xs
    → 1024 ≤ length ld.line_buffer
    → ld.buffer_i + length xs < 1024
    → (ld' : LineDisc) × (line_recs str ld ≡ some (length xs, ld'))
      × (text ld' ≡ text ld ++ xs)
      × (get_or ld'.line_buffer ld'.buffer_i 1 ≡ 0)
      × (ld'.buffer_i ≡ ld.buffer_i + length xs)
unfolding line_recs
line_recs-append {str} {xs} ld t cells room =
    let (mem, run, len, line) =
      copy_to-take ld.buffer_i (length xs) str ld.line_buffer (omega (arith, length-Text t))
        (omega arith) in
    let size : recs_size (length xs) ld.buffer_i ≡ length xs = ground arith in
    let next : add_u32 ld.buffer_i (length xs) ≡ ld.buffer_i + length xs = omega arith in
    let fits : ltb (ld.buffer_i + length xs) (length mem) ≡ true =
      lt→ltb _ _ (omega (arith, len)) in
    (
      record ld {
        line_buffer = set mem (ld.buffer_i + length xs) 0;
        buffer_i = ld.buffer_i + length xs;
      },
      rw (strlen-length t, size, run, next, fits) refl,
      take-set (ld.buffer_i + length xs) mem (ld.buffer_i + length xs) 0 (omega arith)
          ∙ line
          ∙ ap (λ q. text ld ++ q) (take-Text t),
      get_or-set_self mem (ld.buffer_i + length xs) 0 1 (omega (arith, len)),
      refl,
    )

-- line_recv behind the end of the line: the test for a full line is for the index 1023 alone.
not_refused :
    (c : ℕ) (ld : LineDisc)
    → 1026 ≤ length ld.line_buffer
    → ld.buffer_i ≡ 1025
    → (next : LineDisc) × (line_recv c ld ≡ some (pos 0, next))
unfolding line_recv put_char
not_refused c ld cells at =
    let fits : ltb ld.buffer_i (length ld.line_buffer) ≡ true = lt→ltb _ _ (omega arith) in
    let back : ltb (ld.buffer_i - 1) (length (set ld.line_buffer ld.buffer_i 0)) ≡ true =
      lt→ltb _ _ (omega (arith, length-set ld.line_buffer ld.buffer_i 0)) in
    let room : (ld.buffer_i == 1023) ≡ false = ground arith in
    let inside : (ld.buffer_i == 0) ≡ false = ground arith in
    elim (Bool-cases (c == 8)) [
      | inl erases ↦ (
        record ld {
          line_buffer = set (set ld.line_buffer ld.buffer_i 0) (ld.buffer_i - 1) c;
          buffer_i = add_u32 (ld.buffer_i - 1) 1;
        },
        rw (room, inside, erases, fits, back) refl,
      )
      | inr plain ↦ (
        record ld {
          line_buffer = set ld.line_buffer ld.buffer_i c;
          buffer_i = add_u32 ld.buffer_i 1;
        },
        rw (room, plain, fits) refl,
      )
    ]

-- line_recs of a string that reaches LINE_BUFFER_SIZE, 1024, from an index of at most that, in a buffer
-- with 1026 cells or more, as
-- line_init's kcalloc of 4096 bytes gives: it copies one character more than the 1024 that it means to
-- have room for, to cell 1024, puts the terminator in cell 1025, and leaves the index at 1025. The
-- next line_recv is not refused, although the line is more than full.
pub line_recs-overrun :
    {str xs : List ℕ} (ld : LineDisc)
    → Text str xs
    → 1026 ≤ length ld.line_buffer
    → ld.buffer_i ≤ 1024
    → 1024 ≤ ld.buffer_i + length xs
    → (ld' : LineDisc) × (line_recs str ld ≡ some (1025 - ld.buffer_i, ld'))
      × (text ld' ≡ text ld ++ take (1025 - ld.buffer_i) str)
      × (get_or ld'.line_buffer 1025 1 ≡ 0)
      × (ld'.buffer_i ≡ 1025)
      × ((c : ℕ) → (next : LineDisc) × (line_recv c ld' ≡ some (pos 0, next)))
unfolding line_recs
line_recs-overrun {str} {xs} ld t cells index long =
    let (mem, run, len, line) =
      copy_to-take ld.buffer_i (1025 - ld.buffer_i) str ld.line_buffer
        (omega (arith, length-Text t)) (omega arith) in
    let size : recs_size (length xs) ld.buffer_i ≡ 1025 - ld.buffer_i = ground arith in
    let next : add_u32 ld.buffer_i (1025 - ld.buffer_i) ≡ 1025 = omega arith in
    let fits : ltb 1025 (length mem) ≡ true = lt→ltb _ _ (omega (arith, len)) in
    (
      record ld { line_buffer = set mem 1025 0; buffer_i = 1025 },
      rw (strlen-length t, size, run, next, fits) refl,
      take-set 1025 mem 1025 0 (omega arith) ∙ ap (λ m. take m mem) {x = 1025} (omega arith) ∙ line,
      get_or-set_self mem 1025 0 1 (omega (arith, len)),
      refl,
      λ c.
          not_refused c (record ld { line_buffer = set mem 1025 0; buffer_i = 1025 })
            (omega (arith, len, length-set mem 1025 0)) refl,
    )
