-- ===== src/Libc/Token/Tests.antt =====
-- strtok on the string " ab c", and the theorem at it.
use longhorn.Base.{ℕ, ◌≡◌, refl, some, none, List, [], ◌∷◌, arith, drop}
use longhorn.Libc.Str.{strlen, strlen_from, strspn, strspn_has, strspn_from, strpbrk, strpbrk_from}
use longhorn.Libc.Str.Text.{Text, done, more}
use longhorn.Libc.Token.{strtok, cut_token}
use longhorn.Libc.Token.Split.{Outcome, strtok-Outcome}

abbrev block : List ℕ
block = 9 ∷ 32 ∷ 97 ∷ 98 ∷ 32 ∷ 99 ∷ 0 ∷ []

abbrev words : List ℕ
words = 32 ∷ 97 ∷ 98 ∷ 32 ∷ 99 ∷ []

words-Text : Text (drop 1 block) words
words-Text =
    more (omega arith)
      (more (omega arith) (more (omega arith) (more (omega arith) (more (omega arith) done))))

blank-Text : Text (32 ∷ 0 ∷ []) (32 ∷ [])
blank-Text = more (omega arith) done

strtok-Outcome_example :
    Outcome (strtok (some 1) (32 ∷ 0 ∷ []) 0 block) 2 (32 ∷ []) (97 ∷ 98 ∷ 32 ∷ 99 ∷ []) block
strtok-Outcome_example =
    strtok-Outcome (some 1) 0 (32 ∷ 0 ∷ []) (32 ∷ []) block words blank-Text words-Text

first_call_run :
    strtok (some 1) (32 ∷ 0 ∷ []) 0 block ≡ some (some 2, 5, 9 ∷ 32 ∷ 97 ∷ 98 ∷ 0 ∷ 99 ∷ 0 ∷ [])
unfolding strtok cut_token strspn strspn_from strspn_has strpbrk strpbrk_from strlen strlen_from
first_call_run = refl

last_call_run :
    strtok none (32 ∷ 0 ∷ []) 5 (9 ∷ 32 ∷ 97 ∷ 98 ∷ 0 ∷ 99 ∷ 0 ∷ [])
    ≡ some (some 5, 6, 9 ∷ 32 ∷ 97 ∷ 98 ∷ 0 ∷ 99 ∷ 0 ∷ [])
unfolding strtok cut_token strspn strspn_from strspn_has strpbrk strpbrk_from strlen strlen_from
last_call_run = refl
