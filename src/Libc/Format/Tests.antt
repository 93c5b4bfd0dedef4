-- ===== src/Libc/Format/Tests.antt =====
-- Small formats, and the theorem at one.
use longhorn.Base.{ℕ, ◌≡◌, refl, none, some, List, [], ◌∷◌, arith, length, pos, replicate}
use longhorn.Libc.Str.{strlen}
use longhorn.Libc.Edit.{int_to_string, reverse}
use longhorn.Libc.Str.Text.{done, more}
use longhorn.Drivers.Line.{dis_putc, dis_puts}
use longhorn.Libc.Format.{int_arg, string_arg, sprintf, kprintf}
use longhorn.Libc.Format.Render.{ended, literal, string, decimal_number, dropped, sprintf-Renders}

digits_42 : int_to_string (pos 42) (replicate 32 0) ≡ some (52 ∷ 50 ∷ replicate 30 0)
unfolding int_to_string reverse strlen
digits_42 = refl

-- "a%s%d%q" with "hi" and 42.
sprintf-Renders_example :
    (rest : List ℕ) × (sprintf
        (replicate 9 7)
        (97 ∷ 37 ∷ 115 ∷ 37 ∷ 100 ∷ 37 ∷ 113 ∷ 0 ∷ [])
        (record {
          left = string_arg (104 ∷ 105 ∷ 0 ∷ []) ∷ int_arg (pos 42) ∷ [];
          decimal = replicate 32 0;
          hex = [];
        })
      ≡ some (5, 97 ∷ 104 ∷ 105 ∷ 52 ∷ 50 ∷ 0 ∷ rest))
    × (length {A = ℕ} (97 ∷ 104 ∷ 105 ∷ 52 ∷ 50 ∷ 0 ∷ rest) ≡ 9)
sprintf-Renders_example =
    sprintf-Renders (replicate 32 0) [] (replicate 9 7)
      (literal (omega arith) (omega arith) (
        string (more (omega arith) (more (omega arith) done)) (
          decimal_number digits_42 (more (omega arith) (more (omega arith) done))
            (dropped (omega arith) refl ended))))
      (omega arith)

-- What sprintf does with %B is undefined; printf prints a word.
sprintf_bool :
    sprintf
      (replicate 9 7)
      (37 ∷ 66 ∷ 0 ∷ [])
      (record { left = int_arg (pos 1) ∷ []; decimal = []; hex = [] })
    ≡ none
unfolding sprintf
sprintf_bool = refl

kprintf_bool :
    kprintf (37 ∷ 66 ∷ 0 ∷ []) (record { left = int_arg (pos 0) ∷ []; decimal = []; hex = [] }) []
    ≡ some (dis_puts (102 ∷ 97 ∷ 108 ∷ 115 ∷ 101 ∷ 0 ∷ []) ∷ [])
unfolding kprintf
kprintf_bool = refl

-- "%d" with 42.
sprintf_42 :
    sprintf
      (replicate 4 7)
      (37 ∷ 100 ∷ 0 ∷ [])
      (record { left = int_arg (pos 42) ∷ []; decimal = replicate 32 0; hex = [] })
    ≡ some (2, 52 ∷ 50 ∷ 0 ∷ 7 ∷ [])
unfolding sprintf int_to_string reverse strlen
sprintf_42 = refl

-- A format that ends with a percent sign is read on behind its terminator.
sprintf_percent :
    sprintf (replicate 4 7) (37 ∷ 0 ∷ []) (record { left = []; decimal = []; hex = [] }) ≡ none
unfolding sprintf
sprintf_percent = refl

kprintf_char :
    kprintf
      (97 ∷ 37 ∷ 99 ∷ 0 ∷ [])
      (record { left = int_arg (pos 98) ∷ []; decimal = []; hex = [] })
      []
    ≡ some (dis_putc 98 ∷ dis_putc 97 ∷ [])
unfolding kprintf
kprintf_char = refl
