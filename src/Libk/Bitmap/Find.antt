-- ===== src/Libk/Bitmap/Find.antt =====
-- libk/bitmap.c: bitmap_find_range.
use longhorn.Base.{
  ℕ, zero, suc, ◌+◌, ◌-◌, ◌^◌, ◌<◌, ◌≤◌, ◌≡◌, ◌≢◌, ◌⊎◌, inl, inr, refl, Bool, true, false, some,
  bool_eq, ◌==◌, arith, Bool-cases, ==_iff, eq_of_bool_eq, ne_of_bool_eq,
}
use native.Mathlib.Decide.{dec_lt}
use longhorn.Libk.Bitmap.{Bitmap, bitmap_test, find_from, bitmap_find_range, rounds_of}
use longhorn.Libk.Bitmap.Element.{holds, Fits, bitmap_test-holds}

-- The `n` bits from `b` on all have the value `val`.
abbrev pub Run : Bitmap → Bool → ℕ → ℕ → Type 0
Run m val b n = (k : ℕ) → b ≤ k → k < b + n → holds m k ≡ val

-- No run of `count` such bits starts at a place from `start` up to, not including, `end`.
abbrev pub NoRun : Bitmap → Bool → ℕ → ℕ → ℕ → Type 0
NoRun m val count start end = (b : ℕ) → start ≤ b → b < end → ¬ (Run m val b count)

-- `r` is the first place in [start, end) where such a run begins and ends in time, or, if there is
-- none, one more than the number of bits.
abbrev pub Found : Bitmap → ℕ → ℕ → ℕ → Bool → ℕ → Type 0
Found m start end count val r =
    ((start ≤ r) × (r + count ≤ end) × Run m val r count × NoRun m val count start r)
    ⊎ ((r ≡ m.bits + 1) × ((b : ℕ) → start ≤ b → b + count ≤ end → ¬ (Run m val b count)))

module _ (m : Bitmap) (val : Bool) (count start : ℕ) where
  Run-snoc : (b n i : ℕ) → b + n ≡ i → Run m val b n → holds m i ≡ val → Run m val b (n + 1)
  Run-snoc b n i e r h k lo hi = elim (dec_lt k i) [
    | yes p ↦ r k lo (omega arith)
    | no p ↦ let same : k ≡ i = omega arith in rw same h
  ]

  -- A wrong bit at `i` rules out the runs that would go over it.
  NoRun-past :
      (begin cnt i : ℕ)
      → begin + cnt ≡ i
      → cnt < count
      → holds m i ≢ val
      → NoRun m val count start begin
      → NoRun m val count start (i + 1)
  NoRun-past begin cnt i e c wrong none_before b lo hi r = elim (dec_lt b begin) [
    | yes p ↦ none_before b lo p r
    | no p ↦ wrong (r i (omega arith) (omega arith))
  ]

  -- The state of the search before it reads bit `i`.
  record IsSearch (i begin cnt : ℕ) : Type 0 where
    at : begin + cnt ≡ i
    short : cnt < count
    from : start ≤ begin
    run : Run m val begin cnt
    none_before : NoRun m val count start begin

  find_from-Found :
      (i rounds begin cnt end : ℕ)
      → IsSearch i begin cnt
      → i + rounds ≡ end
      → Fits m end
      → m.bits < 2 ^ 32 - 1
      → (r : ℕ) × (find_from i rounds begin cnt count val m ≡ some r)
        × Found m start end count val r
  unfolding find_from
  find_from-Found i zero begin cnt end v e h small = (
    m.bits + 1,
    ground arith,
    inr (
      refl,
      λ b lo hi r. elim (dec_lt b begin) [
        | yes p ↦ v.none_before b lo p r
        | no p ↦ absurd (omega arith)
      ],
    ),
  )
  find_from-Found i (suc rounds) begin cnt end v e h small =
      elim (Bool-cases (bool_eq (holds m i) val)) [
        | inl right ↦ elim (Bool-cases (cnt + 1 == count)) [
          | inl full ↦ (
            begin,
            rw (test, right, full) refl,
            inl (
              v.from,
              omega (arith, v.at, (==_iff _ _).0 full),
              rw (← (==_iff _ _).0 full)
                  (Run-snoc begin cnt i v.at v.run (eq_of_bool_eq _ _ right)),
              v.none_before,
            ),
          )
          | inr more ↦
              let (r, run, found) =
                find_from-Found (i + 1) rounds begin (cnt + 1) end (longer right more) (omega arith)
                  h small in
              (r, rw (test, right, more) run, found)
        ]
        | inr wrong ↦ elim (Bool-cases (0 == count)) [
          | inl full ↦ absurd (omega (arith, (==_iff _ _).0 full, v.short))
          | inr more ↦
              let (r, run, found) =
                find_from-Found (i + 1) rounds (i + 1) 0 end (restart wrong more) (omega arith) h
                  small in
              (r, rw (test, wrong, more) run, found)
        ]
      ]
    where
      test : bitmap_test m i ≡ some (holds m i)
      test = bitmap_test-holds m i (omega arith)

      longer :
          bool_eq (holds m i) val ≡ true
          → (cnt + 1 == count) ≡ false
          → IsSearch (i + 1) begin (cnt + 1)
      longer right more = record {
        at = omega (arith, v.at);
        short = ground (arith, v.short);
        from = v.from;
        run = Run-snoc begin cnt i v.at v.run (eq_of_bool_eq _ _ right);
        none_before = v.none_before;
      }

      restart : bool_eq (holds m i) val ≡ false → (0 == count) ≡ false → IsSearch (i + 1) (i + 1) 0
      restart wrong more = record {
        at = omega arith;
        short = ground arith;
        from = omega (arith, v.at, v.from);
        run = λ k lo hi. absurd (omega arith);
        none_before = NoRun-past begin cnt i v.at v.short (ne_of_bool_eq _ _ wrong) v.none_before;
      }

-- For a range within the map's memory and below 2^32, a count above 0 and a map of fewer than 2^32
-- - 1 bits: bitmap_find_range returns the first place at or behind `start` from which `count` bits
-- in a row, within the range searched, have the value `val`, or one more than the number of bits if
-- there is no such place.
pub bitmap_find_range-Found :
    (m : Bitmap) (start len count : ℕ) (val : Bool)
    → 0 < count
    → start + len < 2 ^ 32
    → Fits m (start + len)
    → m.bits < 2 ^ 32 - 1
    → (r : ℕ) × (bitmap_find_range m start len count val ≡ some r)
      × Found m start (start + len) count val r
unfolding bitmap_find_range
bitmap_find_range-Found m start len count val c h k small =
    let exact : rounds_of start len ≡ len = omega arith in
    rw exact (find_from-Found m val count start start len start 0 (start + len) fresh refl k small)
  where
    fresh : IsSearch m val count start start start 0
    fresh = record {
      at = omega arith;
      short = c;
      from = omega arith;
      run = λ k lo hi. absurd (omega arith);
      none_before = λ b lo hi. absurd (omega arith);
    }
