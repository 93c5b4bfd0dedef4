-- ===== src/Drivers/Keys.antt =====
-- drivers/line.c and drivers/terminal.h: what a keycode stands for, in a state of the terminal.
use longhorn.Base.{ℕ, Bool, not, ◌||◌, leb, Option, List, [], ◌∷◌, ◌==◌, if◌then◌else◌, get_elem?}

-- KC_MAX and KC_BACKSPACE
abbrev pub kc_max : ℕ
kc_max = 57

abbrev pub kc_backspace : ℕ
kc_backspace = 14

pub record TerminalState : Type 0 where
  pub capitalize : Bool
  pub alt_pressed : Bool
  pub ctrl_pressed : Bool

abbrev pub kc_ascii : List ℕ
kc_ascii =
    63 ∷ 63 ∷ 49 ∷ 50 ∷ 51 ∷ 52 ∷ 53 ∷ 54 ∷ 55 ∷ 56 ∷ 57 ∷ 48 ∷ 45 ∷ 61 ∷ 63 ∷ 63 ∷ 113 ∷ 119 ∷ 101
    ∷ 114 ∷ 116 ∷ 121 ∷ 117 ∷ 105 ∷ 111 ∷ 112 ∷ 91 ∷ 93 ∷ 10 ∷ 63 ∷ 97 ∷ 115 ∷ 100 ∷ 102 ∷ 103 ∷ 104
    ∷ 106 ∷ 107 ∷ 108 ∷ 59 ∷ 39 ∷ 96 ∷ 63 ∷ 92 ∷ 122 ∷ 120 ∷ 99 ∷ 118 ∷ 98 ∷ 110 ∷ 109 ∷ 44 ∷ 46
    ∷ 47 ∷ 63 ∷ 63 ∷ 63 ∷ 32 ∷ []

abbrev pub kc_ascii_cap : List ℕ
kc_ascii_cap =
    63 ∷ 63 ∷ 49 ∷ 50 ∷ 51 ∷ 52 ∷ 53 ∷ 54 ∷ 55 ∷ 56 ∷ 57 ∷ 48 ∷ 45 ∷ 61 ∷ 63 ∷ 63 ∷ 81 ∷ 87 ∷ 69
    ∷ 82 ∷ 84 ∷ 89 ∷ 85 ∷ 73 ∷ 79 ∷ 80 ∷ 91 ∷ 93 ∷ 10 ∷ 63 ∷ 65 ∷ 83 ∷ 68 ∷ 70 ∷ 71 ∷ 72 ∷ 74 ∷ 75
    ∷ 76 ∷ 59 ∷ 39 ∷ 96 ∷ 63 ∷ 92 ∷ 90 ∷ 88 ∷ 67 ∷ 86 ∷ 66 ∷ 78 ∷ 77 ∷ 44 ∷ 46 ∷ 47 ∷ 63 ∷ 63 ∷ 63
    ∷ 32 ∷ []

-- The keycodes that change the state of the terminal are those of KC_LALT, the shift keys and their
-- releases, KC_CAPSLOCK, and KC_LCTRL with its release; KC_ESCAPE, KC_NUMLOCK and KC_RELEASED do nothing.
unfoldable pub eval_kc : TerminalState → ℕ → ℕ × TerminalState
eval_kc ts keycode =
    if keycode == 56
    then (0, record ts { alt_pressed = not ts.alt_pressed })
    else if keycode == 42 || keycode == 54 || keycode == 170 || keycode == 182
    then (0, record ts { capitalize = not ts.capitalize })
    else if keycode == 58
    then (0, record ts { capitalize = not ts.capitalize })
    else if keycode == 29 || keycode == 157
    then (0, record ts { ctrl_pressed = not ts.ctrl_pressed })
    else if keycode == 1 || keycode == 69 || keycode == 129
    then (0, ts)
    else if leb keycode kc_max
    then (keycode, ts)
    else (0, ts)

unfoldable pub kc_getchar : TerminalState → ℕ → Option ℕ
kc_getchar ts c = if ts.capitalize then get_elem? kc_ascii_cap c else get_elem? kc_ascii c
