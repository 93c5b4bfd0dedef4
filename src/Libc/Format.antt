-- ===== src/Libc/Format.antt =====
-- libc/stdio.c: formatted output. A string is the list of the bytes from its address to the end of its
-- block, as in Libc/Str. The arguments behind the format are a list; one of another kind than the
-- format says, and one too few, are `none`. The buffers of int_to_string and int_to_hexstring are
-- carried along, and the result of printf and kprintf, always 0, is left out. What goes to the display
-- is a list of calls, the last one first.
pub mod Render
mod Tests
use longhorn.Base.{
  ℕ, zero, suc, ◌+◌, Bool, not, Option, none, some, List, [], ◌∷◌, ◌==◌, if◌then◌else◌, ◌>>=◌, ℤ,
  pos, negsuc, ◌-◌, ◌%◌, ◌==ℤ◌, store,
}
use longhorn.Libc.Str.{strlen}
use longhorn.Libc.Edit.{int_to_string}
use longhorn.Libc.Strip.{int_to_hexstring}
use longhorn.Libc.Join.{ncpy_from}
use longhorn.Libk.Stream.{StdStream, put_std, puts_std}
use longhorn.Drivers.Line.{DisplayCall, dis_putc, dis_puts}

pub data Arg : Type 0 where
  int_arg : ℤ → Arg
  string_arg : List ℕ → Arg

-- What va_arg reads from, and the two static buffers.
pub record Args : Type 0 where
  pub left : List Arg
  pub decimal : List ℕ
  pub hex : List ℕ

unfoldable pub next_int : Args → Option (ℤ × Args)
next_int a = elim a.left [
  | [] ↦ none
  | arg ∷ left ↦ elim arg [ int_arg n ↦ some (n, record a { left = left }) | string_arg s ↦ none ]
]

unfoldable pub next_string : Args → Option (List ℕ × Args)
next_string a = elim a.left [
  | [] ↦ none
  | arg ∷ left ↦ elim arg [ int_arg n ↦ none | string_arg s ↦ some (s, record a { left = left }) ]
]

-- An `int` argument that is stored as a byte.
abbrev pub byte_of : ℤ → ℕ
byte_of (pos n) = n % 256
byte_of (negsuc n) = 255 - n % 256

-- "true" and "false"
abbrev pub bool_text : ℤ → List ℕ
bool_text n =
    if n ==ℤ pos 0 then 102 ∷ 97 ∷ 108 ∷ 115 ∷ 101 ∷ 0 ∷ [] else 116 ∷ 114 ∷ 117 ∷ 101 ∷ 0 ∷ []

unfoldable pub decimal_text : Args → Option (List ℕ × Args)
unfolding next_int
decimal_text a = do
  (n, a') ← next_int a
  str ← int_to_string n a'.decimal
  some (str, record a' { decimal = str })

unfoldable pub hex_text : Args → Option (List ℕ × Args)
unfolding next_int
hex_text a = do
  (n, a') ← next_int a
  str ← int_to_hexstring n a'.hex
  some (str, record a' { hex = str })

-- The string for the character behind a `%`, of the three kinds that all functions take in the same
-- way: `d`, `x` and `s`; none for another character.
unfoldable pub text_for : ℕ → Args → Option (Option (List ℕ) × Args)
unfolding decimal_text hex_text next_string
text_for d a =
    if d == 100
    then (do (str, a') ← decimal_text a; some (some str, a'))
    else (if d == 120
        then (do (str, a') ← hex_text a; some (some str, a'))
        else (if d == 115
            then (do (str, a') ← next_string a; some (some str, a'))
            else some (none, a)))

-- The loop of sprintf: `p` is `str` less its first value, and so `chars_written` as well. The end of
-- the format's block before a terminator is `none`; and so is `%B`, whose `va_arg(args, bool)` is
-- undefined, since an argument of that type is passed as an int.
unfoldable pub sprintf_from : List ℕ → Args → ℕ → List ℕ → Option (ℕ × List ℕ)
unfolding text_for ncpy_from
sprintf_from [] a p str = none
sprintf_from (c ∷ []) a p str = if c == 0 then (do str' ← store str p 0; some (p, str')) else none
sprintf_from (c ∷ d ∷ format) a p str =
    if c == 0
    then (do str' ← store str p 0; some (p, str'))
    else (if c == 37
        then (if d == 66 then none else (do
          (temp, a') ← text_for d a
          elim temp [
            | none ↦ sprintf_from format a' p str
            | some t ↦ (do
              len ← strlen t
              str' ← ncpy_from p len t str
              sprintf_from format a' (p + len) str')
          ]))
        else (do str' ← store str p c; sprintf_from (d ∷ format) a (p + 1) str'))

unfoldable pub sprintf : List ℕ → List ℕ → Args → Option (ℕ × List ℕ)
unfolding sprintf_from
sprintf str format a = sprintf_from format a 0 str

-- The loop that kprintf and printf share, over what takes a character and a string. `%c` is a
-- character here, and `%B` reads an int.
module _ {S : Type 0} (putc : ℕ → S → Option S) (puts : List ℕ → S → Option S) where
  unfoldable pub print_from : List ℕ → Args → S → Option S
  unfolding text_for next_int
  print_from [] a s = none
  print_from (c ∷ []) a s = if c == 0 then some s else none
  print_from (c ∷ d ∷ format) a s =
      if c == 0
      then some s
      else (if c == 37
          then (if d == 99
              then (do (n, a') ← next_int a; s' ← putc (byte_of n) s; print_from format a' s')
              else (if d == 66
                  then (do (n, a') ← next_int a; s' ← puts (bool_text n) s; print_from format a' s')
                  else (do
                    (temp, a') ← text_for d a
                    s' ← elim temp [ none ↦ some s | some t ↦ puts t s ]
                    print_from format a' s')))
          else (do s' ← putc c s; print_from (d ∷ format) a s'))

abbrev pub DisplayCalls : Type 0
DisplayCalls = List DisplayCall

unfoldable pub kprintf : List ℕ → Args → DisplayCalls → Option DisplayCalls
unfolding print_from
kprintf format a calls =
    print_from (λ c s. some (dis_putc c ∷ s)) (λ t s. some (dis_puts t ∷ s)) format a calls

unfoldable pub printf : List ℕ → Args → StdStream → Option StdStream
unfolding print_from put_std puts_std
printf format a out =
    print_from (λ c s. do (_, s') ← put_std s c; some s')
      (λ t s. do (_, s') ← puts_std s t; some s') format a out

abbrev pub kprint : List ℕ → DisplayCalls → DisplayCalls
kprint string calls = dis_puts string ∷ calls

abbrev pub kprintln : List ℕ → DisplayCalls → DisplayCalls
kprintln string calls = dis_putc 10 ∷ dis_puts string ∷ calls
