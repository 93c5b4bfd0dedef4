-- ===== src/Libc/Strip/Tests.antt =====
-- Small strings, and the theorems at them.
use longhorn.Base.{
  ℕ, zero, suc, ◌<◌, ◌≤◌, ◌≡◌, refl, some, List, [], ◌∷◌, arith, pos, replicate, get_or,
}
use longhorn.Libc.Str.{strlen}
use longhorn.Libc.Edit.{reverse}
use longhorn.Libc.Str.Text.{done, more}
use longhorn.Libc.Strip.{
  Found, fault, missing, place, strstr, strstr_from, trim, strim, int_to_hexstring,
}
use longhorn.Libc.Strip.Substring.{strstr-fault, strstr-enough}
use longhorn.Libc.Strip.Spaces.{IsPadded, trim-stripped}

-- "ab" in a block of its own, and "abc".
strstr-fault_example : strstr (97 ∷ 98 ∷ 0 ∷ []) (97 ∷ 98 ∷ 99 ∷ 0 ∷ []) ≡ some fault
strstr-fault_example =
    strstr-fault 97 99 (98 ∷ []) [] (97 ∷ 98 ∷ 0 ∷ []) (97 ∷ 98 ∷ 99 ∷ 0 ∷ [])
      (more (omega arith) (more (omega arith) done)) refl
      (more (omega arith) (more (omega arith) (more (omega arith) done)))

-- "aab" is not found in "aaab".
strstr_skips : strstr (97 ∷ 97 ∷ 97 ∷ 98 ∷ 0 ∷ 0 ∷ 0 ∷ []) (97 ∷ 97 ∷ 98 ∷ 0 ∷ []) ≡ some missing
unfolding strstr
strstr_skips = refl

strstr_found : strstr (99 ∷ 97 ∷ 98 ∷ 0 ∷ []) (97 ∷ 98 ∷ 0 ∷ []) ≡ some (place 1)
unfolding strstr
strstr_found = refl

-- A single "a" between two spaces.
abbrev spaced : List ℕ
spaced = 32 ∷ 97 ∷ 32 ∷ []

one_byte-front : (k : ℕ) → k < 1 → get_or spaced k 0 ≡ 32
one_byte-front zero h = refl
one_byte-front (suc k) h = absurd (omega arith)

one_byte-back : (k : ℕ) → 2 ≤ k → k < 3 → get_or spaced k 0 ≡ 32
one_byte-back zero lo hi = refl
one_byte-back (suc zero) lo hi = absurd (omega arith)
one_byte-back (suc (suc zero)) lo hi = refl
one_byte-back (suc (suc (suc k))) lo hi = absurd (omega arith)

one_byte : IsPadded spaced 1 2
one_byte = record {
  some_byte = omega arith;
  inside = omega arith;
  front = one_byte-front;
  first = omega arith;
  back = one_byte-back;
  last = omega arith;
}

trim-stripped_example : trim (32 ∷ 97 ∷ 32 ∷ 0 ∷ []) ≡ some (0, 0 ∷ 97 ∷ 32 ∷ 0 ∷ [])
trim-stripped_example =
    trim-stripped (32 ∷ 97 ∷ 32 ∷ 0 ∷ []) spaced 1 2
      (more (omega arith) (more (omega arith) (more (omega arith) done))) one_byte

strim_two : strim (32 ∷ 97 ∷ 98 ∷ 32 ∷ 0 ∷ []) (replicate 4 7) ≡ some (some (97 ∷ 98 ∷ 0 ∷ 7 ∷ []))
unfolding strim strlen
strim_two = refl

hex_255 : int_to_hexstring (pos 255) (replicate 32 0) ≡ some (48 ∷ 120 ∷ 102 ∷ 102 ∷ replicate 28 0)
unfolding int_to_hexstring strlen reverse
hex_255 = refl

strstr-enough_example :
    (r : Found) × (strstr_from 9 0 (99 ∷ 97 ∷ 98 ∷ 0 ∷ []) (97 ∷ 98 ∷ 0 ∷ []) ≡ some r)
    × (strstr (99 ∷ 97 ∷ 98 ∷ 0 ∷ []) (97 ∷ 98 ∷ 0 ∷ []) ≡ some r)
strstr-enough_example = strstr-enough 9 (99 ∷ 97 ∷ 98 ∷ 0 ∷ []) (97 ∷ 98 ∷ 0 ∷ []) (omega arith)
