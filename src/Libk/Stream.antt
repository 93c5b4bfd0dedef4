-- ===== src/Libk/Stream.antt =====
-- libk/stream.c and include/libk/stream.h: streams of characters, as circular queues.
-- A character is the byte that it is stored as, so the `-1` of an empty stream is 255. An access
-- outside the array, and a division by a size of 0, is `none`.
pub mod Fifo
pub mod Window
pub mod Std
pub mod Puts
pub mod Chars
mod Tests
use longhorn.Base.{
  ℕ, zero, suc, ◌+◌, ◌%◌, Bool, Option, none, some, List, [], ◌∷◌, ◌==◌, if◌then◌else◌, ◌>>=◌, ℤ,
  pos, negsuc, ◌==ℤ◌, neg, get_elem?, store, add_u32, sub_u32,
}
use longhorn.Libc.Str.{strlen}

-- STD_STREAM_SIZE
abbrev pub std_stream_size : ℕ
std_stream_size = 256

-- `(char) -1`, what a read of an empty stream returns.
abbrev pub no_char : ℕ
no_char = 255

pub record StdStream : Type 0 where
  pub stream : List ℕ
  pub size : ℕ
  pub in_index : ℕ
  pub out_index : ℕ

pub record CharStream : Type 0 where
  pub stream : List ℕ
  pub size : ℕ
  pub in_index : ℕ
  pub out_index : ℕ

-- `a % b` on `size_t`.
abbrev pub rem : ℕ → ℕ → Option ℕ
rem a zero = none
rem a (suc b) = some (a % suc b)

-- `for (i = 0; i < size; i++) stream[i] = 0`, with the rounds left.
unfoldable pub zero_from : ℕ → ℕ → List ℕ → Option (List ℕ)
zero_from i zero a = some a
zero_from i (suc rounds) a = do a' ← store a i 0; zero_from (i + 1) rounds a'

-- `mem` is the array that kcalloc returned.
unfoldable pub init_c : List ℕ → ℕ → CharStream
init_c mem size = record { stream = mem; size = size; in_index = 0; out_index = 0 }

unfoldable pub flush_c : CharStream → Option CharStream
unfolding zero_from
flush_c s = do
  a ← zero_from 0 s.size s.stream
  some (record s { stream = a; in_index = 0; out_index = 0 })

unfoldable pub put_c : CharStream → ℕ → Option (ℤ × CharStream)
put_c s c = do
  last ← rem (add_u32 (sub_u32 s.out_index 1) s.size) s.size
  if s.in_index == last then some (pos 0, s) else (do
    a ← store s.stream s.in_index c
    next ← rem (add_u32 s.in_index 1) s.size
    some (pos 1, record s { stream = a; in_index = next }))

unfoldable pub get_c : CharStream → Option (ℕ × CharStream)
get_c s = if s.in_index == s.out_index then some (no_char, s) else (do
  old ← get_elem? s.stream s.out_index
  next ← rem (add_u32 s.out_index 1) s.size
  some (old, record s { out_index = next }))

-- `mem` is the array that kcalloc returned, after the old one is freed.
unfoldable pub resize_c : List ℕ → CharStream → ℕ → CharStream
unfolding init_c
resize_c mem s size = init_c mem size

-- The array of a `std_stream` is part of it, and init_std leaves its contents.
unfoldable pub init_std : StdStream → StdStream
init_std s = record s { size = std_stream_size; in_index = 0; out_index = 0 }

unfoldable pub flush_std : StdStream → Option StdStream
unfolding zero_from
flush_std s = do
  a ← zero_from 0 s.size s.stream
  some (record s { stream = a; in_index = 0; out_index = 0 })

unfoldable pub put_std : StdStream → ℕ → Option (ℤ × StdStream)
put_std s c =
    if s.in_index == add_u32 (sub_u32 s.out_index 1) std_stream_size % std_stream_size
    then some (neg 1, s)
    else (do
      a ← store s.stream s.in_index c
      some (pos 0, record s { stream = a; in_index = add_u32 s.in_index 1 % std_stream_size }))

unfoldable pub get_std : StdStream → Option (ℕ × StdStream)
get_std s = if s.in_index == s.out_index then some (no_char, s) else (do
  old ← get_elem? s.stream s.out_index
  some (old, record s { out_index = add_u32 s.out_index 1 % std_stream_size }))

-- `for (i = 0; i < len && put_std(stream, s[i]) == 0; i++)`, with the rounds left and the string
-- from `s + i` on.
unfoldable pub puts_from : ℕ → ℕ → List ℕ → StdStream → Option (ℕ × StdStream)
puts_from i zero str s = some (i, s)
puts_from i (suc rounds) [] s = none
puts_from i (suc rounds) (c ∷ cs) s = do
  (code, s') ← put_std s c
  let rest = puts_from (i + 1) rounds cs s'
  if code ==ℤ pos 0 then rest else some (i, s')

unfoldable pub puts_std : StdStream → List ℕ → Option (ℕ × StdStream)
unfolding puts_from
puts_std s str = do len ← strlen str; puts_from 0 len str s
