-- ===== src/Drivers/Line/Edit.antt =====
-- drivers/line.c: line_in in cooked mode, against a line of text that is typed and edited.
use longhorn.Base.{
  ℕ, zero, suc, ◌+◌, ◌-◌, ◌<◌, ◌≤◌, ◌≡◌, refl, sym, ◌∙◌, ap, Bool, true, false, not, ◌||◌, ◌&&◌,
  ltb, leb, Option, some, List, [], ◌∷◌, ◌++◌, ◌==◌, if◌then◌else◌, ℤ, pos, neg, get_elem?, get_or,
  set, take, length, arith, add_u32, length-set, length-take, get_elem?-eq-get_or, get_or-set_self,
  lt→ltb, Bool-cases, inl, inr,
}
use longhorn.Libk.Stream.{StdStream}
use longhorn.Libk.Stream.Fifo.{push}
use longhorn.Libk.Stream.Std.{IsValid, contents, put_std_refines}
use longhorn.Drivers.Keys.{TerminalState, kc_ascii, kc_ascii_cap, kc_getchar, eval_kc}
use longhorn.Drivers.Line.{
  LineDisc, put_out, line_sendv, type_char, terminal_write, rub_out, dis_putc, dis_backspace,
  dis_scur,
}

-- The buffer has its 1024 cells, and the discipline sends to the valid stream `s`.
pub record IsLineAt (mem : List ℕ) (i : ℕ) (out : Option StdStream) (s : StdStream) : Type 0 where
  pub cells : 1024 ≤ length mem
  pub index : i < 1024
  pub connected : out ≡ some s
  pub stream : IsValid s

abbrev pub IsLine : LineDisc → StdStream → Type 0
IsLine ld s = IsLineAt ld.line_buffer ld.buffer_i ld.out s

-- The line as it stands.
abbrev pub text : LineDisc → List ℕ
text ld = take ld.buffer_i ld.line_buffer

-- The keys that type a character or erase one.
abbrev pub is_char_key : ℕ → Bool
is_char_key c = ltb 1 c && leb c 57 && not (c == 29 || c == 42 || c == 54 || c == 56)

abbrev pub key_char : TerminalState → ℕ → ℕ
key_char ts c = if ts.capitalize then get_or kc_ascii_cap c 0 else get_or kc_ascii c 0

pub take-set : (n : ℕ) (mem : List ℕ) (i c : ℕ) → n ≤ i → take n (set mem i c) ≡ take n mem
take-set zero mem i c h = refl
take-set (suc n) [] i c h = refl
take-set (suc n) (x ∷ mem) zero c h = absurd (omega arith)
take-set (suc n) (x ∷ mem) (suc i) c h = ap (λ q. x ∷ q) (take-set n mem i c (omega arith))

pub take-set_end :
    (mem : List ℕ) (i c : ℕ) → i < length mem → take (suc i) (set mem i c) ≡ take i mem ++ c ∷ []
take-set_end [] i c h = absurd (omega arith)
take-set_end (x ∷ mem) zero c h = refl
take-set_end (x ∷ mem) (suc i) c h = ap (λ q. x ∷ q) (take-set_end mem i c (omega arith))

pub take-take : (m n : ℕ) (mem : List ℕ) → m ≤ n → take m (take n mem) ≡ take m mem
take-take zero n mem h = refl
take-take (suc m) zero mem h = absurd (omega arith)
take-take (suc m) (suc n) [] h = refl
take-take (suc m) (suc n) (x ∷ mem) h = ap (λ q. x ∷ q) (take-take m n mem (omega arith))

abbrev all_above_zero : List ℕ → Bool
all_above_zero [] = true
all_above_zero (x ∷ xs) = ltb 0 x && all_above_zero xs

get_or-above_zero :
    (xs : List ℕ) (i : ℕ) → all_above_zero xs ≡ true → i < length xs → 0 < get_or xs i 0
get_or-above_zero [] i a h = absurd (omega arith)
get_or-above_zero (x ∷ xs) zero a h = ground (arith, a)
get_or-above_zero (x ∷ xs) (suc i) a h = get_or-above_zero xs i (ground (arith, a)) (omega arith)

kc_getchar-key_char : (ts : TerminalState) (c : ℕ) → c < 58 → kc_getchar ts c ≡ some (key_char ts c)
unfolding kc_getchar
kc_getchar-key_char ts c h =
    ground (arith, get_elem?-eq-get_or kc_ascii c 0 h, get_elem?-eq-get_or kc_ascii_cap c 0 h)

key_char-above_zero : (ts : TerminalState) (c : ℕ) → c < 58 → 0 < key_char ts c
key_char-above_zero ts c h =
    ground (arith, get_or-above_zero kc_ascii c refl h, get_or-above_zero kc_ascii_cap c refl h)

-- A character key: it is shown, sent and put at the end of the line.
type_char_lem :
    (kc : ℕ) (ld : LineDisc) (s : StdStream)
    → IsLine ld s
    → kc < 58
    → ld.buffer_i < 1023
    → (s' : StdStream) × (type_char kc ld
        ≡ some (
          pos 0,
          record ld {
            line_buffer = set ld.line_buffer ld.buffer_i (key_char ld.ts kc);
            buffer_i = ld.buffer_i + 1;
            dis = dis_scur ∷ dis_putc (key_char ld.ts kc) ∷ ld.dis;
            out = some s';
          },
        ))
      × IsValid s'
      × (contents s' ≡ (push 255 (contents s) (key_char ld.ts kc)).1)
unfolding type_char line_sendv put_out terminal_write
type_char_lem kc ld s v h room =
    let (s', run, v', sent) = put_std_refines s (key_char ld.ts kc) v.stream in
    let fits : ltb ld.buffer_i (length ld.line_buffer) ≡ true =
      lt→ltb _ _ (omega (arith, v.cells)) in
    let stored : get_elem? (set ld.line_buffer ld.buffer_i (key_char ld.ts kc)) ld.buffer_i
        ≡ some (key_char ld.ts kc) =
      get_elem?-eq-get_or (set ld.line_buffer ld.buffer_i (key_char ld.ts kc)) ld.buffer_i 0
        (omega (arith, v.cells, length-set ld.line_buffer ld.buffer_i (key_char ld.ts kc)))
      ∙ ap some (
          get_or-set_self ld.line_buffer ld.buffer_i (key_char ld.ts kc) 0
            (omega (arith, v.cells))) in
    let some_char : (key_char ld.ts kc == 0) ≡ false =
      ground (arith, key_char-above_zero ld.ts kc h) in
    let next : add_u32 ld.buffer_i 1 ≡ ld.buffer_i + 1 = omega arith in
    (
      s',
      rw (kc_getchar-key_char ld.ts kc h, fits, stored, some_char, v.connected, run, stored, next)
          refl,
      v',
      sent,
    )

-- A character key puts its character at the end of the line, and into the queue.
pub type_char-text :
    (kc : ℕ) (ld : LineDisc) (s : StdStream)
    → IsLine ld s
    → kc < 58
    → ld.buffer_i < 1023
    → (ld' : LineDisc) × (s' : StdStream) × (type_char kc ld ≡ some (pos 0, ld'))
      × IsLine ld' s'
      × (text ld' ≡ text ld ++ key_char ld.ts kc ∷ [])
      × (contents s' ≡ (push 255 (contents s) (key_char ld.ts kc)).1)
      × (ld'.mode ≡ ld.mode)
      × (ld'.ts ≡ ld.ts)
type_char-text kc ld s v h room =
    let (s', run, v', sent) = type_char_lem kc ld s v h room in
    (
      record ld {
        line_buffer = set ld.line_buffer ld.buffer_i (key_char ld.ts kc);
        buffer_i = ld.buffer_i + 1;
        dis = dis_scur ∷ dis_putc (key_char ld.ts kc) ∷ ld.dis;
        out = some s';
      },
      s',
      run,
      record {
        cells = omega (arith, length-set ld.line_buffer ld.buffer_i (key_char ld.ts kc), v.cells);
        index = omega arith;
        connected = refl;
        stream = v';
      },
      rw (add_one ld.buffer_i)
          (take-set_end ld.line_buffer ld.buffer_i (key_char ld.ts kc) (omega (arith, v.cells))),
      sent,
      refl,
      refl,
    )
  where
    add_one : (n : ℕ) → n + 1 ≡ suc n
    add_one n = omega arith

pub eval_kc-char : (ts : TerminalState) (c : ℕ) → is_char_key c ≡ true → eval_kc ts c ≡ (c, ts)
unfolding eval_kc
eval_kc-char ts c k = ground (arith, k)

pub eval_kc-other : (ts : TerminalState) (c : ℕ) → is_char_key c ≡ false → (eval_kc ts c).0 ≡ 0
unfolding eval_kc
eval_kc-other ts c k = ground (arith, k)

pub length-text : (ld : LineDisc) (s : StdStream) → IsLine ld s → length (text ld) ≡ ld.buffer_i
length-text ld s v = omega (arith, length-take ld.buffer_i ld.line_buffer, v.cells, v.index)

-- The state of the terminal after a key: alt turns its flag over, and so do the shift keys when they
-- are pressed or released and caps lock for the capitals, and ctrl when it is pressed or released.
abbrev pub ts_after : TerminalState → ℕ → TerminalState
ts_after ts c = record {
  capitalize =
      if c == 42 || c == 54 || c == 58 || c == 170 || c == 182
      then not ts.capitalize
      else ts.capitalize;
  alt_pressed = if c == 56 then not ts.alt_pressed else ts.alt_pressed;
  ctrl_pressed = if c == 29 || c == 157 then not ts.ctrl_pressed else ts.ctrl_pressed;
}

pub eval_kc-ts_after : (ts : TerminalState) (c : ℕ) → (eval_kc ts c).1 ≡ ts_after ts c
unfolding eval_kc
eval_kc-ts_after ts c = ground arith

-- What a key does to the line and to what was sent: the result of line_in, the line and the queue.
abbrev pub after_key : TerminalState → ℕ → List ℕ → List ℕ → ℤ × (List ℕ × List ℕ)
after_key ts c line sent =
    if length line == 1023
    then (neg 3, (line, sent))
    else if not (is_char_key c)
    then (pos 0, (line, sent))
    else if c == 14
    then (pos 0, (take (length line - 1) line, sent))
    else (pos 0, (line ++ key_char ts c ∷ [], (push 255 sent (key_char ts c)).1))

-- A backspace takes the last character off the line.
pub rub_out_lem :
    (ld : LineDisc) (s : StdStream)
    → IsLine ld s
    → (ld' : LineDisc) × (rub_out ld ≡ some (pos 0, ld'))
      × IsLine ld' s
      × (text ld' ≡ take (length (text ld) - 1) (text ld))
      × (ld'.mode ≡ ld.mode)
      × (ld'.ts ≡ ld.ts)
unfolding rub_out
rub_out_lem ld s v = elim (Bool-cases (ld.buffer_i == 0)) [
  | inl start ↦
      let zero_i : ld.buffer_i ≡ 0 = ground (arith, start) in
      (ld, rw start refl, v, rw zero_i refl, refl, refl)
  | inr inside ↦
      let fits : ltb ld.buffer_i (length ld.line_buffer) ≡ true =
        lt→ltb _ _ (omega (arith, v.cells, v.index)) in
      (
        record ld {
          line_buffer = set ld.line_buffer ld.buffer_i 0;
          buffer_i = ld.buffer_i - 1;
          dis = dis_scur ∷ dis_backspace ∷ ld.dis;
        },
        rw (inside, fits) refl,
        record {
          cells = omega (arith, length-set ld.line_buffer ld.buffer_i 0, v.cells);
          index = omega (arith, v.index);
          connected = v.connected;
          stream = v.stream;
        },
        take-set (ld.buffer_i - 1) ld.line_buffer ld.buffer_i 0 (omega arith)
            ∙ sym (take-take (ld.buffer_i - 1) ld.buffer_i ld.line_buffer (omega arith))
            ∙ ap (λ n. take (n - 1) (text ld)) (sym (length-text ld s v)),
        refl,
        refl,
      )
]
