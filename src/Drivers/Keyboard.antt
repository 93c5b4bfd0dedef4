-- ===== src/Drivers/Keyboard.antt =====
-- drivers/terminal.c and drivers/keyboard.c: how scancodes get from the keyboard to the line
-- discipline of the default terminal.
use longhorn.Base.{
  ℕ, ◌+◌, not, ◌||◌, ltb, Option, none, some, List, [], ◌∷◌, ◌==◌, if◌then◌else◌, ◌>>=◌, ℤ, pos,
  ◌==ℤ◌,
}
use longhorn.Drivers.Line.{LineDisc, line_in}

unfoldable pub terminal_in : ℕ → LineDisc → Option (ℤ × LineDisc)
unfolding line_in
terminal_in c ld = do (_, ld') ← line_in c ld; some (pos 0, ld')

-- `s` is the string from `s + i` on.
unfoldable pub terminal_ins_from : ℕ → List ℕ → LineDisc → Option (ℕ × LineDisc)
terminal_ins_from i [] ld = none
terminal_ins_from i (c ∷ s) ld =
    let rest = λ (m : LineDisc). terminal_ins_from (i + 1) s m in
    if c == 0 then some (i, ld) else (do
      (code, ld') ← terminal_in c ld
      if not (code ==ℤ pos 0) then some (i, ld') else rest ld')

unfoldable pub terminal_ins : List ℕ → LineDisc → Option (ℕ × LineDisc)
unfolding terminal_ins_from
terminal_ins s ld = terminal_ins_from 0 s ld

-- `scancode` is what the keyboard's port gave, and the default terminal is set.
unfoldable pub keyboard_handler : ℕ → LineDisc → Option LineDisc
unfolding terminal_in
keyboard_handler scancode ld =
    if scancode == 184 || scancode == 170 || scancode == 157 || scancode == 182 || ltb scancode 129
    then (do (_, ld') ← terminal_in scancode ld; some ld')
    else some ld
