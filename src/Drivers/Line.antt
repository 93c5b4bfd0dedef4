-- ===== src/Drivers/Line.antt =====
-- drivers/line.c, and the writing side of drivers/terminal.c: a line discipline with the terminal
-- that it is connected to. `line_buffer` is the memory from the
-- pointer on, and NULL is the empty block. What the terminal makes the display do is a list of the
-- calls through `struct display`, the last one first. The function pointers of the discipline and of the
-- terminal are the functions of these files, as line_init and terminal_init set them.
pub mod Edit
pub mod Typing
pub mod Receive
pub mod Send
mod Tests
use longhorn.Base.{
  ℕ, zero, suc, ◌+◌, ◌-◌, ◌%◌, Bool, true, false, not, ◌||◌, ◌&&◌, ltb, leb, Option, none, some,
  List, [], ◌∷◌, ◌==◌, if◌then◌else◌, ◌>>=◌, ℤ, pos, neg, ◌==ℤ◌, get_elem?, store, min, add_u32,
  sub_u32,
}
use longhorn.Drivers.Keys.{TerminalState, kc_backspace, eval_kc, kc_getchar}
use longhorn.Libk.Stream.{StdStream, put_std, zero_from}
use longhorn.Libc.Str.{strlen}

-- TERMINAL_BUFF_SIZE + 1
abbrev pub line_buffer_size : ℕ
line_buffer_size = 1024

abbrev pub line_init_fail : ℕ
line_init_fail = 1

abbrev pub line_flush_fail : ℕ
line_flush_fail = 2

abbrev pub line_in_fail : ℕ
line_in_fail = 3

abbrev pub line_out_fail : ℕ
line_out_fail = 4

pub data LdMode : Type 0 where
  cooked : LdMode
  raw : LdMode

abbrev pub is_raw : LdMode → Bool
is_raw raw = true
is_raw cooked = false

-- A call through `struct display`.
pub data DisplayCall : Type 0 where
  dis_putc : ℕ → DisplayCall
  dis_puts : List ℕ → DisplayCall
  dis_backspace : DisplayCall
  dis_scur : DisplayCall

pub record LineDisc : Type 0 where
  pub line_buffer : List ℕ
  pub buffer_i : ℕ
  pub ts : TerminalState
  pub dis : List DisplayCall
  pub out : Option StdStream
  pub mode : LdMode

abbrev pub call : DisplayCall → LineDisc → LineDisc
call op ld = record ld { dis = op ∷ ld.dis }

unfoldable pub terminal_write : ℕ → LineDisc → ℤ × LineDisc
terminal_write c ld = (pos 0, call (dis_putc c) ld)

unfoldable pub terminal_writes : List ℕ → LineDisc → ℤ × LineDisc
terminal_writes s ld = (pos 0, call (dis_puts s) ld)

unfoldable pub terminal_init : TerminalState → TerminalState
terminal_init ts = record ts { capitalize = false; alt_pressed = false; ctrl_pressed = false }

-- sizeof(LINE_BUFFER_SIZE), the size of an int.
abbrev pub size_of_int : ℕ
size_of_int = 4

-- `kcalloc n size` is the block that kcalloc returns, `t` the terminal to connect or NULL, and
-- `fresh` the state that lies in the memory of a terminal that kmalloc returned. `ld` is not NULL.
-- The buffer has LINE_BUFFER_SIZE * sizeof(LINE_BUFFER_SIZE) = 4096 bytes.
unfoldable pub line_init :
    (ℕ → ℕ → List ℕ)
    → Option TerminalState
    → TerminalState
    → Option StdStream
    → LdMode
    → LineDisc
    → ℤ × LineDisc
unfolding terminal_init
line_init kcalloc t fresh out m ld = elim (kcalloc line_buffer_size size_of_int) [
  | [] ↦ (neg line_init_fail, record ld { line_buffer = []; buffer_i = 0 })
  | b ∷ mem ↦ (
    pos 0,
    record ld {
      line_buffer = b ∷ mem;
      buffer_i = 0;
      ts = elim t [ some ts ↦ ts | none ↦ terminal_init fresh ];
      out = out;
      mode = m;
    },
  )
]

unfoldable pub line_flush : LineDisc → Option (ℤ × LineDisc)
line_flush ld = elim ld.line_buffer [
  | [] ↦ some (neg line_flush_fail, ld)
  | _ ∷ _ ↦ (do
    mem ← zero_from 0 line_buffer_size ld.line_buffer
    some (pos 0, record ld { line_buffer = mem; buffer_i = 0 }))
]

-- put_std on `ld->out`, whose result every call ignores.
unfoldable pub put_out : ℕ → LineDisc → Option LineDisc
put_out c ld = do s ← ld.out; (_, s') ← put_std s c; some (record ld { out = some s' })

unfoldable pub line_sendv : LineDisc → Option (ℤ × LineDisc)
unfolding put_out
line_sendv ld = do
  c ← get_elem? ld.line_buffer ld.buffer_i
  if c == 0 then some (neg line_out_fail, ld) else (do ld' ← put_out c ld; some (pos 0, ld'))

-- What line_in does with a keycode that stands for a character, in both modes.
unfoldable pub type_char : ℕ → LineDisc → Option (ℤ × LineDisc)
unfolding kc_getchar line_sendv terminal_write
type_char keycode ld = do
  c ← kc_getchar ld.ts keycode
  mem ← store ld.line_buffer ld.buffer_i c
  (_, ld₁) ← line_sendv (record ld { line_buffer = mem })
  shown ← get_elem? ld₁.line_buffer ld₁.buffer_i
  let (_, ld₂) = terminal_write shown (record ld₁ { buffer_i = add_u32 ld₁.buffer_i 1 })
  some (pos 0, call dis_scur ld₂)

-- What line_in does with a backspace.
unfoldable pub rub_out : LineDisc → Option (ℤ × LineDisc)
rub_out ld = if ld.buffer_i == 0 then some (pos 0, ld) else (do
  mem ← store ld.line_buffer ld.buffer_i 0
  some (
    pos 0,
    call dis_scur
        (call dis_backspace (record ld { line_buffer = mem; buffer_i = ld.buffer_i - 1 })),
  ))

unfoldable pub line_in : ℕ → LineDisc → Option (ℤ × LineDisc)
unfolding eval_kc type_char rub_out
line_in c ld =
    let (kc_ret, ts) = eval_kc ld.ts c in
    let ld₁ = record ld { ts = ts } in
    if ld.buffer_i == line_buffer_size - 1
    then some (neg line_in_fail, ld₁)
    else if is_raw ld.mode
    then type_char c ld₁
    else if kc_ret == 0
    then some (pos 0, ld₁)
    else if c == kc_backspace
    then rub_out ld₁
    else type_char c ld₁

-- The loop of line_ins, with the rounds left and the string from `s + i` on.
unfoldable pub ins_from : ℕ → ℕ → List ℕ → LineDisc → Option (ℕ × LineDisc)
ins_from i zero s ld = some (i, ld)
ins_from i (suc rounds) [] ld = none
ins_from i (suc rounds) (c ∷ s) ld = do
  (code, ld') ← line_in c ld
  let rest = ins_from (i + 1) rounds s ld'
  if code ==ℤ neg line_in_fail then some (i, ld') else rest

unfoldable pub line_ins : List ℕ → LineDisc → Option (ℕ × LineDisc)
unfolding ins_from
line_ins s ld = do len ← strlen s; ins_from 0 (min len line_buffer_size) s ld

-- The loop of line_out, with the rounds left.
unfoldable pub out_from : ℕ → ℕ → LineDisc → Option (ℕ × LineDisc)
unfolding terminal_write
out_from i zero ld = some (i, ld)
out_from i (suc rounds) ld = do
  c ← get_elem? ld.line_buffer i
  let (code, ld') = if c == 8 then (pos 0, call dis_backspace ld) else terminal_write c ld
  let rest = out_from (i + 1) rounds ld'
  if not (code ==ℤ pos 0) then some (i, ld') else rest

unfoldable pub line_out : LineDisc → Option (ℕ × LineDisc)
unfolding out_from
line_out ld = out_from 0 (min line_buffer_size ld.buffer_i) ld

-- The loop of line_send, with the rounds left.
unfoldable pub send_from : ℕ → ℕ → LineDisc → Option (ℕ × LineDisc)
send_from i zero ld = some (i, ld)
send_from i (suc rounds) ld = do
  c ← get_elem? ld.line_buffer i
  if c == 0 then some (i, ld) else (do ld' ← put_out c ld; send_from (i + 1) rounds ld')

unfoldable pub line_send : LineDisc → Option (ℕ × LineDisc)
unfolding send_from
line_send ld = do
  (i, ld') ← send_from 0 (min ld.buffer_i line_buffer_size) ld
  some (i, record ld' { buffer_i = 0 })

-- The end of line_recv, after a backspace was looked at.
unfoldable pub put_char : ℕ → LineDisc → Option (ℤ × LineDisc)
put_char c ld = do
  mem ← store ld.line_buffer ld.buffer_i c
  some (pos 0, record ld { line_buffer = mem; buffer_i = add_u32 ld.buffer_i 1 })

unfoldable pub line_recv : ℕ → LineDisc → Option (ℤ × LineDisc)
unfolding put_char
line_recv c ld =
    if ld.buffer_i == line_buffer_size - 1
    then some (neg line_in_fail, ld)
    else if c == 8 && not (ld.buffer_i == 0)
    then (do
      mem ← store ld.line_buffer ld.buffer_i 0
      put_char c (record ld { line_buffer = mem; buffer_i = ld.buffer_i - 1 }))
    else put_char c ld

-- memcpy from one block to another: `n` bytes from the start of `src` to `dest + i`.
unfoldable pub copy_to : ℕ → ℕ → List ℕ → List ℕ → Option (List ℕ)
copy_to i zero src dest = some dest
copy_to i (suc n) [] dest = none
copy_to i (suc n) (c ∷ src) dest = do dest' ← store dest i c; copy_to (i + 1) n src dest'

-- How much line_recs copies.
abbrev pub recs_size : ℕ → ℕ → ℕ
recs_size len i =
    if ltb len (sub_u32 line_buffer_size i) then len else add_u32 (sub_u32 line_buffer_size i) 1

unfoldable pub line_recs : List ℕ → LineDisc → Option (ℕ × LineDisc)
unfolding copy_to
line_recs s ld = do
  len ← strlen s
  let s_size = recs_size len ld.buffer_i
  mem ← copy_to ld.buffer_i s_size s ld.line_buffer
  let i = add_u32 ld.buffer_i s_size
  mem' ← store mem i 0
  some (s_size, record ld { line_buffer = mem'; buffer_i = i })

-- `buf` is the block from the buffer on; NULL is the empty block.
unfoldable pub line_outbufn : List ℕ → ℕ → LineDisc → Option (ℕ × List ℕ)
line_outbufn [] n ld = some (0, [])
line_outbufn (b ∷ buf) n ld =
    let m = if ltb line_buffer_size n then line_buffer_size else n in
    (do buf' ← copy_to 0 m ld.line_buffer (b ∷ buf); some (m, buf'))

unfoldable pub line_outbuf : List ℕ → LineDisc → Option (ℕ × List ℕ)
line_outbuf [] ld = some (0, [])
line_outbuf (b ∷ buf) ld = do
  buf' ← copy_to 0 line_buffer_size ld.line_buffer (b ∷ buf)
  some (line_buffer_size, buf')
