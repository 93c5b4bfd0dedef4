-- ===== src/Libc/Format/Render.antt =====
-- libc/stdio.c: sprintf, against what a format stands for.
use longhorn.Base.{
  ℕ, Bool, false, ◌==◌, ◌||◌, suc, ◌+◌, ◌≤◌, ◌<◌, ◌≡◌, ◌≢◌, refl, ◌∙◌, sym, ap, ap₂, Option, some,
  List, [], ◌∷◌, ◌++◌, arith, ==_ne, ℤ, length, length-append, length-drop, append_assoc, drop,
}
use longhorn.Libc.Str.Text.{Text, strlen-length}
use longhorn.Libc.Edit.{int_to_string}
use longhorn.Libc.Strip.{int_to_hexstring}
use longhorn.Libc.Join.{ncpy_from}
use longhorn.Libc.Join.Cat.{store-first, next-place}
use longhorn.Libc.Join.Copies.{padded, ncpy_from-padded}
use longhorn.Libc.Format.{
  Arg, int_arg, string_arg, Args, text_for, next_string, next_int, decimal_text, hex_text,
  sprintf_from, sprintf,
}

-- `d`, `x`, `s` and `B`.
abbrev pub is_conversion : ℕ → Bool
is_conversion d = d == 100 || d == 120 || d == 115 || d == 66

-- What a format with its arguments stands for, given the buffers of int_to_string and
-- int_to_hexstring: its characters, with the strings of the arguments in their places, and those that
-- the two functions make of the numbers. A percent sign with a character that sprintf does not know
-- stands for nothing and takes no argument; %B is none of them. The terminator of the format may have
-- anything behind it.
pub data Renders : List ℕ → List Arg → List ℕ → List ℕ → List ℕ → Type 0 where
  ended : {rest dec hex : List ℕ} {args : List Arg} → Renders (0 ∷ rest) args dec hex []
  literal :
      {c d : ℕ} {format dec hex out : List ℕ} {args : List Arg}
      → c ≢ 0
      → c ≢ 37
      → Renders (d ∷ format) args dec hex out
      → Renders (c ∷ d ∷ format) args dec hex (c ∷ out)
  string :
      {t xs format dec hex out : List ℕ} {args : List Arg}
      → Text t xs
      → Renders format args dec hex out
      → Renders (37 ∷ 115 ∷ format) (string_arg t ∷ args) dec hex (xs ++ out)
  decimal_number :
      {n : ℤ} {t xs format dec hex out : List ℕ} {args : List Arg}
      → int_to_string n dec ≡ some t
      → Text t xs
      → Renders format args t hex out
      → Renders (37 ∷ 100 ∷ format) (int_arg n ∷ args) dec hex (xs ++ out)
  hex_number :
      {n : ℤ} {t xs format dec hex out : List ℕ} {args : List Arg}
      → int_to_hexstring n hex ≡ some t
      → Text t xs
      → Renders format args dec t out
      → Renders (37 ∷ 120 ∷ format) (int_arg n ∷ args) dec hex (xs ++ out)
  dropped :
      {d : ℕ} {format dec hex out : List ℕ} {args : List Arg}
      → d ≢ 0
      → is_conversion d ≡ false
      → Renders format args dec hex out
      → Renders (37 ∷ d ∷ format) args dec hex out

padded-all : (xs : List ℕ) → padded (length xs) xs ≡ xs
padded-all [] = refl
padded-all (x ∷ xs) = ap (λ ys. x ∷ ys) (padded-all xs)

-- One conversion that gives a text: its bytes go behind `front`.
insert_step :
    (d : ℕ) (format : List ℕ) (a a' : Args) (t xs front room : List ℕ) (p : ℕ)
    (o : Option (ℕ × List ℕ))
    → (d == 66) ≡ false
    → text_for d a ≡ some (some t, a')
    → Text t xs
    → p ≡ length front
    → length xs ≤ length room
    → sprintf_from format a' (p + length xs) ((front ++ xs) ++ drop (length xs) room) ≡ o
    → sprintf_from (37 ∷ d ∷ format) a p (front ++ room) ≡ o
unfolding sprintf_from
insert_step d format a a' t xs front room p o no_bool conv s e h next =
    let copied : ncpy_from p (length xs) t (front ++ room)
        ≡ some ((front ++ xs) ++ drop (length xs) room) =
      ncpy_from-padded (length xs) front room p s e h
      ∙ ap (λ ys. some (front ++ (ys ++ drop (length xs) room))) (padded-all xs)
      ∙ ap some (sym (append_assoc front xs (drop (length xs) room))) in
    rw (no_bool, conv, strlen-length s, copied) next

-- What sprintf_from makes of the memory behind `front`.
abbrev Writes : List ℕ → Args → List ℕ → List ℕ → List ℕ → ℕ → Type 0
Writes format a out front room p =
    (rest : List ℕ) × (sprintf_from format a p (front ++ room)
      ≡ some (p + length out, front ++ (out ++ 0 ∷ rest)))
    × (length out + suc (length rest) ≡ length room)

ended-Writes :
    (behind : List ℕ) (a : Args) (front room : List ℕ) (p : ℕ)
    → p ≡ length front
    → 0 < length room
    → Writes (0 ∷ behind) a [] front room p
unfolding sprintf_from
ended-Writes behind a front [] p e h = absurd (omega arith)
ended-Writes [] a front (x ∷ room) p e h = (
  room,
  rw (store-first front x room p 0 e) (
      ap₂ (λ (n : ℕ) (ys : List ℕ). some (n, ys)) (omega arith) (append_assoc front (0 ∷ []) room)),
  omega arith,
)
ended-Writes (b ∷ behind) a front (x ∷ room) p e h = (
  room,
  rw (store-first front x room p 0 e) (
      ap₂ (λ (n : ℕ) (ys : List ℕ). some (n, ys)) (omega arith) (append_assoc front (0 ∷ []) room)),
  omega arith,
)

-- What is written behind `front ++ xs` is written behind `front`.
inserted-Writes :
    (d : ℕ) (format : List ℕ) (a a' : Args) (t xs out front room : List ℕ) (p : ℕ)
    → (d == 66) ≡ false
    → text_for d a ≡ some (some t, a')
    → Text t xs
    → p ≡ length front
    → length (xs ++ out) < length room
    → Writes format a' out (front ++ xs) (drop (length xs) room) (p + length xs)
    → Writes (37 ∷ d ∷ format) a (xs ++ out) front room p
inserted-Writes d format a a' t xs out front room p no_bool conv s e h (rest, run, size) = (
  rest,
  insert_step d format a a' t xs front room p _ no_bool conv s e
      (omega (arith, length-append xs out))
      (run
        ∙ ap₂ (λ (n : ℕ) (ys : List ℕ). some (n, ys)) (omega (arith, length-append xs out))
            (append_assoc front xs (out ++ 0 ∷ rest)
              ∙ ap (λ ys. front ++ ys) (sym (append_assoc xs out (0 ∷ rest))))),
  omega (arith, size, length-append xs out, length-drop (length xs) room),
)

-- A character that is none of the conversions takes no argument and writes nothing.
dropped-Writes :
    (d : ℕ) (format : List ℕ) (a : Args) (out front room : List ℕ) (p : ℕ)
    → is_conversion d ≡ false
    → Writes format a out front room p
    → Writes (37 ∷ d ∷ format) a out front room p
unfolding sprintf_from text_for
dropped-Writes d format a out front room p unknown (rest, run, size) =
    let no_d : (d == 100) ≡ false = ground (arith, unknown) in
    let no_x : (d == 120) ≡ false = ground (arith, unknown) in
    let no_s : (d == 115) ≡ false = ground (arith, unknown) in
    let no_bool : (d == 66) ≡ false = ground (arith, unknown) in
    (rest, rw (no_bool, no_d, no_x, no_s) run, size)

sprintf_from-Writes :
    {format out : List ℕ} {args : List Arg} (dec hex front room : List ℕ) (p : ℕ)
    → Renders format args dec hex out
    → p ≡ length front
    → length out < length room
    → Writes format (record { left = args; decimal = dec; hex = hex }) out front room p
unfolding sprintf_from text_for next_string next_int decimal_text hex_text
sprintf_from-Writes dec hex front room p (ended {rest} {args = args}) e h =
    ended-Writes rest (record { left = args; decimal = dec; hex = hex }) front room p e h
sprintf_from-Writes dec hex front [] p (literal ne no_percent r) e h = absurd (omega arith)
sprintf_from-Writes dec hex front (x ∷ room) p
      (literal {c} {d} {format} {out = out} ne no_percent r) e h =
    let (rest, run, size) =
      sprintf_from-Writes dec hex (front ++ c ∷ []) room (p + 1) r (next-place front p c e)
        (omega arith) in
    (
      rest,
      rw (==_ne _ _ ne, ==_ne _ _ no_percent, store-first front x room p c e, run)
          (ap₂ (λ (n : ℕ) (ys : List ℕ). some (n, ys)) (omega arith)
            (append_assoc front (c ∷ []) (out ++ 0 ∷ rest))),
      omega (arith, size),
    )
sprintf_from-Writes dec hex front room p (string {t} {xs} {format} {out = out} {args = args} s r) e
      h =
    inserted-Writes 115 format (record { left = string_arg t ∷ args; decimal = dec; hex = hex })
      (record { left = args; decimal = dec; hex = hex }) t xs out front room p refl refl s e h
      (sprintf_from-Writes dec hex (front ++ xs) (drop (length xs) room) (p + length xs) r
        (omega (arith, e, length-append front xs))
        (omega (arith, h, length-append xs out, length-drop (length xs) room)))
sprintf_from-Writes dec hex front room p
      (decimal_number {n} {t} {xs} {format} {out = out} {args = args} run s r) e h =
    inserted-Writes 100 format (record { left = int_arg n ∷ args; decimal = dec; hex = hex })
      (record { left = args; decimal = t; hex = hex }) t xs out front room p refl (rw run refl) s e
      h
      (sprintf_from-Writes t hex (front ++ xs) (drop (length xs) room) (p + length xs) r
        (omega (arith, e, length-append front xs))
        (omega (arith, h, length-append xs out, length-drop (length xs) room)))
sprintf_from-Writes dec hex front room p
      (hex_number {n} {t} {xs} {format} {out = out} {args = args} run s r) e h =
    inserted-Writes 120 format (record { left = int_arg n ∷ args; decimal = dec; hex = hex })
      (record { left = args; decimal = dec; hex = t }) t xs out front room p refl (rw run refl) s e
      h
      (sprintf_from-Writes dec t (front ++ xs) (drop (length xs) room) (p + length xs) r
        (omega (arith, e, length-append front xs))
        (omega (arith, h, length-append xs out, length-drop (length xs) room)))
sprintf_from-Writes dec hex front room p
      (dropped {d} {format} {out = out} {args = args} some_char unknown r) e h =
    dropped-Writes d format (record { left = args; decimal = dec; hex = hex }) out front room p
      unknown (sprintf_from-Writes dec hex front room p r e h)

-- sprintf of a format of characters, %s, %d, %x and characters behind a percent sign that it drops, with
-- the arguments for it and a block that has room for what they stand for and a terminator: it writes
-- exactly that, terminated, and returns its length without the terminator. A number stands for the
-- string that int_to_string or int_to_hexstring makes of it. %B, which is undefined, is not covered.
pub sprintf-Renders :
    (dec hex str : List ℕ) {format out : List ℕ} {args : List Arg}
    → Renders format args dec hex out
    → length out < length str
    → (rest : List ℕ) × (sprintf str format (record { left = args; decimal = dec; hex = hex })
        ≡ some (length out, out ++ 0 ∷ rest))
      × (length (out ++ 0 ∷ rest) ≡ length str)
unfolding sprintf
sprintf-Renders dec hex str {format} {out} r h =
    let (rest, run, size) = sprintf_from-Writes dec hex [] str 0 r refl h in
    (
      rest,
      run ∙ ap (λ (n : ℕ). some (n, out ++ 0 ∷ rest)) (omega arith),
      omega (arith, size, length-append out (0 ∷ rest)),
    )
