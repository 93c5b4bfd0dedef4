-- ===== src/Drivers/Line/Typing.antt =====
-- drivers/line.c and drivers/keyboard.c: keys that arrive at a line discipline in cooked mode.
use longhorn.Base.{
  ℕ, ◌<◌, ◌≤◌, ◌≡◌, refl, sym, ◌∙◌, ap, true, false, ◌||◌, ltb, Option, none, some, List, [], ◌∷◌,
  ◌==◌, ◌>>=◌, get_elem?-out, length, arith, Bool-cases, inl, inr,
}
use longhorn.Libk.Stream.{StdStream}
use longhorn.Libk.Stream.Std.{contents}
use longhorn.Drivers.Keys.{TerminalState, eval_kc, kc_getchar, kc_ascii, kc_ascii_cap}
use longhorn.Drivers.Line.{LineDisc, cooked, raw, is_raw, line_in, type_char}
use longhorn.Drivers.Keyboard.{keyboard_handler, terminal_in}
use longhorn.Drivers.Line.Edit.{
  IsLine, ts_after, eval_kc-ts_after, text, is_char_key, after_key, type_char-text, eval_kc-char,
  eval_kc-other, length-text, rub_out_lem,
}

-- What a call makes of the terminal, the line, the stream and the mode.
pub record IsAfter (ld : LineDisc) (ts : TerminalState) (line sent : List ℕ) : Type 0 where
  pub stream : StdStream
  pub valid : IsLine ld stream
  pub line_is : text ld ≡ line
  pub sent_is : contents stream ≡ sent
  pub still : ld.mode ≡ cooked
  pub ts_is : ld.ts ≡ ts

-- line_in in cooked mode with any byte, on a valid line with a connected stream: nothing is accessed out of
-- bounds, and the line, the queue, the state of the terminal and the result are those that the key stands
-- for. A character key puts its character at the end of the line and into the queue, a backspace
-- takes the last character off the line, any other key changes neither. Alt, shift, caps lock and
-- ctrl turn their flags over, on a full line too. On a line of 1023 characters the line and the queue
-- stay and the result is -3, -LINE_IN_FAIL, for every key; else it is 0.
pub line_in-after_key :
    (c : ℕ) (ld : LineDisc) (s : StdStream)
    → IsLine ld s
    → ld.mode ≡ cooked
    → (ld' : LineDisc) × (line_in c ld ≡ some ((after_key ld.ts c (text ld) (contents s)).0, ld'))
      × IsAfter ld'
          (ts_after ld.ts c)
          (after_key ld.ts c (text ld) (contents s)).1.0
          (after_key ld.ts c (text ld) (contents s)).1.1
unfolding line_in
line_in-after_key c ld s v m =
    let not_raw : is_raw ld.mode ≡ false = ap is_raw m in
    elim (Bool-cases (ld.buffer_i == 1023)) [
      | inl full ↦
          let full_line : (length (text ld) == 1023) ≡ true = rw (length-text ld s v) full in
          (
            record ld { ts = (eval_kc ld.ts c).1 },
            rw (full, full_line) refl,
            rw full_line (record {
              stream = s;
              valid = v;
              line_is = refl;
              sent_is = refl;
              still = m;
              ts_is = eval_kc-ts_after ld.ts c;
            }),
          )
      | inr room ↦
          let room_left : (length (text ld) == 1023) ≡ false = rw (length-text ld s v) room in
          elim (Bool-cases (is_char_key c)) [
            | inr other ↦ (
              record ld { ts = (eval_kc ld.ts c).1 },
              rw (room, room_left, not_raw, eval_kc-other ld.ts c other, other) refl,
              rw (room_left, other)
                  (record {
                    stream = s;
                    valid = v;
                    line_is = refl;
                    sent_is = refl;
                    still = m;
                    ts_is = eval_kc-ts_after ld.ts c;
                  }),
            )
            | inl key ↦
                let some_key : (c == 0) ≡ false = ground (arith, key) in
                let kept : ld.ts ≡ ts_after ld.ts c =
                  sym (ap (λ (r : ℕ × TerminalState). r.1) (eval_kc-char ld.ts c key))
                  ∙ eval_kc-ts_after ld.ts c in
                elim (Bool-cases (c == 14)) [
                  | inl back ↦
                      let (ld', run, v', line, same, ts_same) = rub_out_lem ld s v in
                      (
                        ld',
                        rw (eval_kc-char ld.ts c key, room, room_left, not_raw, key, some_key, back)
                            run,
                        rw (room_left, key, back)
                            (record {
                              stream = s;
                              valid = v';
                              line_is = line;
                              sent_is = refl;
                              still = same ∙ m;
                              ts_is = ts_same ∙ kept;
                            }),
                      )
                  | inr char ↦
                      let (ld', s', run, v', line, sent, same, ts_same) =
                        type_char-text c ld s v (ground (arith, key))
                          (ground (arith, room, v.index)) in
                      (
                        ld',
                        rw (eval_kc-char ld.ts c key, room, room_left, not_raw, key, some_key, char)
                            run,
                        rw (room_left, key, char)
                            (record {
                              stream = s';
                              valid = v';
                              line_is = line;
                              sent_is = sent;
                              still = same ∙ m;
                              ts_is = ts_same ∙ kept;
                            }),
                      )
                ]
          ]
    ]

-- Scancodes that arrive one after the other.
abbrev pub typed : List ℕ → LineDisc → Option LineDisc
typed [] ld = some ld
typed (c ∷ cs) ld = do ld' ← keyboard_handler c ld; typed cs ld'

-- No sequence of scancodes makes the keyboard handler access anything out of bounds, or leave the
-- line invalid, if the line is in cooked mode with a buffer of 1024 cells or more, an index inside it,
-- and a valid stream connected as its output (`out` is not NULL).
pub typed-IsLine :
    (cs : List ℕ) (ld : LineDisc) (s : StdStream)
    → IsLine ld s
    → ld.mode ≡ cooked
    → (ld' : LineDisc) × (s' : StdStream) × (typed cs ld ≡ some ld') × IsLine ld' s'
unfolding keyboard_handler terminal_in
typed-IsLine [] ld s v m = (ld, s, refl, v)
typed-IsLine (c ∷ cs) ld s v m =
    elim (Bool-cases (c == 184 || c == 170 || c == 157 || c == 182 || ltb c 129)) [
      | inl goes ↦
          let (ld₁, run, after) = line_in-after_key c ld s v m in
          let (ld', s', rest, v') = typed-IsLine cs ld₁ after.stream after.valid after.still in
          (ld', s', rw (goes, run) rest, v')
      | inr stays ↦
          let (ld', s', rest, v') = typed-IsLine cs ld s v m in (ld', s', rw stays rest, v')
    ]

-- line_in in raw mode on a line with room: a keycode of 58 or more, such as that of a released
-- shift key, makes it read behind the table of characters.
pub line_in-raw :
    (c : ℕ) (ld : LineDisc) → ld.mode ≡ raw → ld.buffer_i < 1023 → 58 ≤ c → line_in c ld ≡ none
unfolding line_in type_char kc_getchar
line_in-raw c ld m room big =
    let is_raw_mode : is_raw ld.mode ≡ true = ap is_raw m in
    let not_full : (ld.buffer_i == 1023) ≡ false = ground arith in
    rw (not_full, is_raw_mode)
      (ground (arith, get_elem?-out kc_ascii c big, get_elem?-out kc_ascii_cap c big))
