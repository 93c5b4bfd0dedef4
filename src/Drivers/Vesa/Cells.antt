-- ===== src/Drivers/Vesa/Cells.antt =====
-- drivers/vesa.c: the two loops that draw one character cell.
use longhorn.Base.{
  ℕ, zero, suc, ◌+◌, ◌-◌, ◌*◌, ◌^◌, ◌≤◌, ◌<◌, ◌≡◌, ◌≢◌, refl, ◌∙◌, ap, ltb, leb, ◌&&◌, lt→ltb,
  Option, none, some, List, arith, ◌==◌, if◌then◌else◌, length, get_or, set, store, length-set, ap₂,
  Bool-cases, inl, inr, get_or-set,
}
use native.Mathlib.Nat.{suc-mul}
use longhorn.Drivers.Vesa.{move, draw_cols, draw_rows}

-- What a pen leaves in a pixel that had the color `old`.
abbrev pub ink : Option ℕ → ℕ → ℕ
ink none old = old
ink (some col) old = col

-- The pixels of one row, bit `j` of which stands at `pos + 8 - j`.
module _ (pen : ℕ → Option ℕ) (pos : ℕ) where
  dot :
      (o : Option ℕ) (n : ℕ) (fb : List ℕ)
      → pos + n < length fb
      → length fb ≤ 2 ^ 30
      → (fb' : List ℕ) × ((elim o [ none ↦ some fb | some col ↦ store fb (move pos n) col ])
          ≡ some fb')
        × (length fb' ≡ length fb)
        × ((k : ℕ)
            → get_or fb' k 0 ≡ (if k == pos + n then ink o (get_or fb k 0) else get_or fb k 0))
  dot none n fb h small = (fb, refl, refl, λ k. ground arith)
  dot (some col) n fb h small =
      let stays : move pos n ≡ pos + n = omega arith in
      (
        set fb (pos + n) col,
        rw (stays, lt→ltb _ _ h),
        length-set fb (pos + n) col,
        λ k. ground (arith, get_or-set fb (pos + n) k col 0 h),
      )

  pub draw_cols-total :
      (j rounds : ℕ) (fb : List ℕ)
      → j + rounds ≤ 8
      → pos + 8 < length fb
      → length fb ≤ 2 ^ 30
      → (fb' : List ℕ) × (draw_cols pen pos j rounds fb ≡ some fb')
        × (length fb' ≡ length fb)
        × ((k : ℕ)
            → get_or fb' k 0 ≡ (
                if ltb (pos + 8) (k + j + rounds) && leb (k + j) (pos + 8)
                then ink (pen (pos + 8 - k)) (get_or fb k 0)
                else get_or fb k 0))
  unfolding draw_cols
  draw_cols-total j zero fb hj h small = (fb, refl, refl, λ k. ground arith)
  draw_cols-total j (suc rounds) fb hj h small =
      let (fb₁, run₁, len₁, cells₁) = dot (pen j) (8 - j) fb (omega arith) small in
      let (fb₂, run₂, len₂, cells₂) =
        draw_cols-total (j + 1) rounds fb₁ (omega arith) (omega (arith, len₁))
          (omega (arith, len₁)) in
      (fb₂, rw run₁ run₂, len₂ ∙ len₁, λ k. ground (arith, cells₁ k, cells₂ k, same k))
    where
      same : (k : ℕ) → k ≡ pos + (8 - j) → pen (pos + 8 - k) ≡ pen j
      same k e = ap pen (omega arith)

-- What the loop over the rows leaves: the dots of each row in ink, and every other pixel.
pub record IsDrawn (pen : ℕ → ℕ → Option ℕ) (width pos i rounds : ℕ) (fb fb' : List ℕ)
    : Type 0 where
  pub same_length : length fb' ≡ length fb
  pub before : (k : ℕ) → k ≤ pos → get_or fb' k 0 ≡ get_or fb k 0
  pub dots :
      (r j k : ℕ)
      → r < rounds
      → j < 8
      → k ≡ pos + r * width + (8 - j)
      → get_or fb' k 0 ≡ ink (pen (r + i) j) (get_or fb k 0)
  pub others :
      (k : ℕ)
      → ((r j : ℕ) → r < rounds → j < 8 → k ≢ pos + r * width + (8 - j))
      → get_or fb' k 0 ≡ get_or fb k 0

-- The rows of a cell. `pens` gives the pen of each row, as the font has it.
module _ (pens : ℕ → Option (ℕ → Option ℕ)) (pen : ℕ → ℕ → Option ℕ)
    (has_pens : (i : ℕ) → i < 16 → pens i ≡ some (pen i)) (width : ℕ) (is_wide : 8 ≤ width) where
  -- One row more in front.
  module _ (pos i rounds : ℕ) (fb fb₁ fb₂ : List ℕ) (same : length fb₁ ≡ length fb)
      (cells : (k : ℕ)
        → get_or fb₁ k 0 ≡ (
            if ltb (pos + 8) (k + 0 + 8) && leb (k + 0) (pos + 8)
            then ink (pen i (pos + 8 - k)) (get_or fb k 0)
            else get_or fb k 0))
      (d : IsDrawn pen width (pos + width) (i + 1) rounds fb₁ fb₂) where
    dot_of :
        (r j k : ℕ)
        → r < suc rounds
        → j < 8
        → k ≡ pos + r * width + (8 - j)
        → get_or fb₂ k 0 ≡ ink (pen (r + i) j) (get_or fb k 0)
    dot_of zero j k hr hj e =
        let back : pen i (pos + 8 - k) ≡ pen i j = ap (pen i) (omega (arith, e)) in
        d.before k (omega arith) ∙ ground (arith, cells k, back)
    dot_of (suc r) j k hr hj e =
        let row : pen (r + (i + 1)) j ≡ pen (suc r + i) j = ap (λ (t : ℕ). pen t j) (omega arith) in
        d.dots r j k (omega arith) hj (omega (arith, suc-mul r width))
        ∙ ap₂ ink row (ground (arith, cells k, suc-mul r width))

    other_of :
        (k : ℕ)
        → ((r j : ℕ) → r < suc rounds → j < 8 → k ≢ pos + r * width + (8 - j))
        → get_or fb₂ k 0 ≡ get_or fb k 0
    other_of k none_of =
        d.others k
          (λ r j hr hj e. none_of (suc r) j (omega arith) hj (omega (arith, suc-mul r width)))
        ∙ elim (Bool-cases (ltb (pos + 8) (k + 0 + 8) && leb (k + 0) (pos + 8))) [
          | inl inside ↦ absurd (
              none_of 0 (pos + 8 - k) (omega arith) (ground (arith, inside))
                (ground (arith, inside)))
          | inr outside ↦ ground (arith, outside, cells k)
        ]

    row_more : IsDrawn pen width pos i (suc rounds) fb fb₂
    row_more = record {
      same_length = d.same_length ∙ same;
      before = λ k h. d.before k (omega arith) ∙ ground (arith, cells k);
      dots = dot_of;
      others = other_of;
    }

  pub draw_rows-IsDrawn :
      (rounds i pos : ℕ) (fb : List ℕ)
      → rounds + i ≤ 16
      → pos + rounds * width + 8 < length fb
      → length fb ≤ 2 ^ 30
      → (fb' : List ℕ) × (draw_rows pens width pos i rounds fb ≡ some fb')
        × IsDrawn pen width pos i rounds fb fb'
  unfolding draw_rows
  draw_rows-IsDrawn zero i pos fb hi h small = (
    fb,
    refl,
    record {
      same_length = refl;
      before = λ k _. refl;
      dots = λ r j k hr. absurd (omega arith);
      others = λ k _. refl;
    },
  )
  draw_rows-IsDrawn (suc rounds) i pos fb hi h small =
      let (fb₁, run₁, len₁, cells₁) =
        draw_cols-total (pen i) pos 0 8 fb (omega arith) (omega arith) small in
      let (fb₂, run₂, d) =
        draw_rows-IsDrawn rounds (i + 1) (pos + width) fb₁ (omega arith)
          (omega (arith, len₁, suc-mul rounds width)) (omega (arith, len₁)) in
      let moved : move pos width ≡ pos + width = omega (arith, suc-mul rounds width) in
      (
        fb₂,
        rw (has_pens i (omega arith), run₁, moved) run₂,
        row_more pos i rounds fb fb₁ fb₂ len₁ cells₁ d,
      )
