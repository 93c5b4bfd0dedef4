-- ===== src/Libc/Edit/Decimal.antt =====
-- libc/string.c: int_to_string.
use longhorn.Base.{
  ℕ, zero, suc, ◌+◌, ◌-◌, ◌*◌, ◌/◌, ◌%◌, ◌^◌, ◌≤◌, ◌<◌, ◌≡◌, ◌≢◌, refl, some, List, arith, length,
  take, ltb, set, get_or, length-set, get_or-set, lt→ltb, Bool-cases, inl, inr, ltb→le, ◌∙◌, ◌==◌,
  true, ap, pos, length-take, sym, subst,
}
use native.Mathlib.Nat.{pow-suc}
use longhorn.Libc.Str.{strlen}
use longhorn.Libc.Str.Text.{Text, strlen-length, Text-take}
use longhorn.Libc.Edit.{digits_from, int_to_string, reverse}
use longhorn.Libc.Edit.Reverse.{IsReversed, reverse-IsReversed}

-- `n` without its last `k` digits.
abbrev pub shift : ℕ → ℕ → ℕ
shift zero n = n
shift (suc k) n = shift k n / 10

-- The number that the first `k` bytes of a string spell.
abbrev pub number : List ℕ → ℕ → ℕ
number str zero = 0
number str (suc k) = number str k * 10 + (get_or str k 0 - 48)

-- The buffer holds the last `i` digits of `n`, the last one first.
Digits : List ℕ → ℕ → ℕ → Type 0
Digits str n i = (k : ℕ) → k < i → get_or str k 0 ≡ shift k n % 10 + 48

nothing_left : (i n : ℕ) → shift i n / 10 ≡ 0 → shift (i + 1) n ≡ 0
nothing_left i n e = let step : i + 1 ≡ suc i = omega arith in rw step e

digits_from-Digits :
    (fuel i n : ℕ) (str : List ℕ)
    → Digits str n i
    → shift i n < 10 ^ fuel
    → 0 < fuel
    → i + fuel < length str
    → (len : ℕ) × (end : List ℕ) × (digits_from fuel i (pos (shift i n)) str ≡ some (len, end))
      × (length end ≡ length str)
      × (i < len)
      × (len ≤ i + fuel)
      × (shift len n ≡ 0)
      × Digits end n len
unfolding digits_from Digits
digits_from-Digits zero i n str d small some_fuel room = absurd (omega arith)
digits_from-Digits (suc fuel) i n str d small some_fuel room =
    let str' : List ℕ = set str i (shift i n % 10 + 48) in
    let fits : ltb i (length str) ≡ true = lt→ltb _ _ (omega arith) in
    let len' : length str' ≡ length str = length-set str i _ in
    let d' : (k : ℕ) → k < i + 1 → get_or str' k 0 ≡ shift k n % 10 + 48 = λ k lt.
      elim (Bool-cases (i == k)) [
        | inl e ↦ ground (arith, get_or-set str i k (shift i n % 10 + 48) 0 (omega arith))
        | inr e ↦ ground (arith, get_or-set str i k (shift i n % 10 + 48) 0 (omega arith), d k)
      ] in
    elim (Bool-cases (ltb 0 (shift i n / 10))) [
      | inl t ↦
          let (len, end, run, same, some_digit, bound, none_left, digits) =
            digits_from-Digits fuel (suc i) n str' (λ k lt. d' k (omega arith))
              (omega (arith, pow-suc 10 fuel)) (ground (arith, pow-suc 10 fuel)) (omega arith) in
          let step : i + 1 ≡ suc i = omega arith in
          (
            len,
            end,
            rw (fits, step, t) run,
            omega arith,
            omega arith,
            omega arith,
            none_left,
            digits,
          )
      | inr f ↦ (
        i + 1,
        str',
        rw (fits, f) refl,
        len',
        omega arith,
        omega arith,
        nothing_left i n (omega (arith, ltb→le _ _ f)),
        d',
      )
    ]

shift-same : (a b n : ℕ) → a ≡ b → shift a n ≡ shift b n
shift-same a b n e = ap (λ (m : ℕ). shift m n) e

-- The first `k` of `len` digits, most significant first, are `n` without its last `len - k`.
number-shift :
    (str : List ℕ) (n len k : ℕ)
    → ((j : ℕ) → j < len → get_or str j 0 ≡ shift (len - 1 - j) n % 10 + 48)
    → shift len n ≡ 0
    → k ≤ len
    → number str k ≡ shift (len - k) n
number-shift str n len zero d e h = sym (shift-same (len - 0) len n (omega arith) ∙ e)
number-shift str n len (suc k) d e h =
    let before : number str k ≡ shift (len - k) n = number-shift str n len k d e (omega arith) in
    let split : shift (len - k) n ≡ shift (len - suc k) n / 10 =
      shift-same (len - k) (suc (len - suc k)) n (omega arith) in
    let last : get_or str k 0 ≡ shift (len - suc k) n % 10 + 48 =
      d k (omega arith)
      ∙ ap (λ t. t % 10 + 48) (shift-same (len - 1 - k) (len - suc k) n (omega arith)) in
    omega arith

-- The bytes of the finished string, from those of the buffer.
reversed-Digits :
    (n len : ℕ) (buf out : List ℕ)
    → Digits buf n len
    → IsReversed (set buf len 0) out len len 0
    → len < length buf
    → ((j : ℕ) → j < len → get_or out j 0 ≡ shift (len - 1 - j) n % 10 + 48)
      × (get_or out len 0 ≡ 0)
unfolding Digits
reversed-Digits n len buf out d r h = (
  λ j lt.
      ground
        (arith, r.cells j, get_or-set buf len (len - 1 - j) 0 0 h, d (len - 1 - j) (omega arith)),
  ground (arith, r.cells len, get_or-set buf len len 0 0 h),
)

no-Digits : (str : List ℕ) (n : ℕ) → Digits str n 0
unfolding Digits
no-Digits str n k lt = absurd (omega arith)

digit_ne :
    (buf : List ℕ) (n len k : ℕ)
    → Digits buf n len
    → k < len
    → len < length buf
    → get_or (set buf len 0) k 0 ≢ 0
unfolding Digits
digit_ne buf n len k d lt h = ground (arith, get_or-set buf len k 0 0 h, d k lt)

shift-none : (len n : ℕ) → shift (len - len) n ≡ n
shift-none len n = ap (λ (m : ℕ). shift m n) (same len)
  where
    same : (m : ℕ) → m - m ≡ 0
    same m = omega arith

digit_nonzero : (c m : ℕ) → c ≡ m % 10 + 48 → c ≢ 0
digit_nonzero c m e = omega arith

digit_range : (c m : ℕ) → c ≡ m % 10 + 48 → (48 ≤ c) × (c ≤ 57)
digit_range c m e = (omega arith, omega arith)

within :
    (buf : List ℕ) (len : ℕ) (end : List ℕ)
    → length end ≡ length (set buf len 0)
    → len < length buf
    → len < length end
within buf len end e h = omega (arith, length-set buf len 0)

length-take_le : (n : ℕ) (xs : List ℕ) → n ≤ length xs → length (take n xs) ≡ n
length-take_le n xs h = omega (arith, length-take n xs)

buffer-Text :
    (n len : ℕ) (buf : List ℕ)
    → Digits buf n len
    → len < length buf
    → Text (set buf len 0) (take len (set buf len 0))
buffer-Text n len buf d h =
    Text-take len (set buf len 0) (omega (arith, length-set buf len 0))
      (ground (arith, get_or-set buf len len 0 0 h)) (λ k lt. digit_ne buf n len k d lt h)

buffer-reverse :
    (n len : ℕ) (buf : List ℕ)
    → Digits buf n len
    → len < length buf
    → (end : List ℕ) × (reverse (set buf len 0) ≡ some end)
      × IsReversed (set buf len 0) end len len 0
buffer-reverse n len buf d h =
    let (end, run, r) = reverse-IsReversed (buffer-Text n len buf d h) in
    let count : length (take len (set buf len 0)) ≡ len =
      length-take_le len (set buf len 0) (omega (arith, length-set buf len 0)) in
    (end, run, subst (λ m. IsReversed (set buf len 0) end m m 0) count r)

strlen-take :
    (len : ℕ) (end : List ℕ)
    → len < length end
    → get_or end len 0 ≡ 0
    → ((k : ℕ) → k < len → get_or end k 0 ≢ 0)
    → strlen end ≡ some len
strlen-take len end h e ne =
    strlen-length (Text-take len end h e ne) ∙ ap some (length-take_le len end (omega arith))

-- int_to_string of a number from 0 to 2^31 - 1, with its buffer of 32 bytes, gives a string of one
-- digit or more that spells the number.
pub int_to_string-number :
    (n : ℕ) (str : List ℕ)
    → n < 2 ^ 31
    → length str ≡ 32
    → (len : ℕ) × (end : List ℕ) × (int_to_string (pos n) str ≡ some end)
      × (strlen end ≡ some len)
      × (0 < len)
      × ((k : ℕ) → k < len → (48 ≤ get_or end k 0) × (get_or end k 0 ≤ 57))
      × (number end len ≡ n)
unfolding int_to_string
int_to_string-number n str small size =
    let (len, buf, run, same, some_digit, bound, none_left, d) =
      digits_from-Digits 10 0 n str (no-Digits str n) (omega arith) (omega arith) (omega arith) in
    let room : len < length buf = omega arith in
    let (end, back, r) = buffer-reverse n len buf d room in
    let (digits, stop) = reversed-Digits n len buf end d r room in
    (
      len,
      end,
      rw (run, lt→ltb len (length buf) room) back,
      strlen-take len end (within buf len end r.same_length room) stop
          (λ k lt. digit_nonzero _ _ (digits k lt)),
      some_digit,
      λ k lt. digit_range _ _ (digits k lt),
      number-shift end n len len digits none_left (omega arith) ∙ shift-none len n,
    )
