-- ===== src/Drivers/Vesa/Scroll.antt =====
-- drivers/vesa.c: the copying loops of scroll.
use longhorn.Base.{
  ℕ, zero, suc, ◌+◌, ◌*◌, ◌^◌, ◌%◌, ◌≤◌, ◌<◌, ◌≡◌, refl, ◌∙◌, ap, ltb, leb, lt→ltb, none, some,
  List, arith, if◌then◌else◌, length, get_or, set, get_or-set, length-set, get_elem?-eq-get_or,
  Bool-cases, inl, inr, ltb→le, get_elem?-out, ◌&&◌, add_u32, mul_u32,
}
use native.Mathlib.Nat.{suc-mul, add-mul, mul-le-mul_right}
use longhorn.Drivers.Vesa.{copy_cols, copy_rows}

-- A row is copied from the one sixteen rows below it, when both are in memory.
pub copy_cols-total :
    (width y x rounds : ℕ) (fb : List ℕ)
    → (y + 16) * width + x + rounds ≤ length fb
    → length fb ≤ 2 ^ 30
    → y ≤ 2 ^ 20
    → 0 < width
    → (fb' : List ℕ) × (copy_cols width y x rounds fb ≡ some fb')
      × (length fb' ≡ length fb)
      × ((k : ℕ)
          → get_or fb' k 0 ≡ (
              if leb (y * width + x) k && ltb k (y * width + x + rounds)
              then get_or fb (k + 16 * width) 0
              else get_or fb k 0))
unfolding copy_cols
copy_cols-total width y x zero fb h small hy hw = (fb, refl, refl, λ k. ground arith)
copy_cols-total width y x (suc rounds) fb h small hy hw =
    let apart : (y + 16) * width ≡ y * width + 16 * width = add-mul y 16 width in
    let (fb', run, len, cells) =
      copy_cols-total width y (x + 1) rounds fb₁ (omega (arith, keep)) (omega (arith, keep)) hy
        hw in
    let source : add_u32 (mul_u32 (add_u32 y 16) width) x % 2 ^ 30 ≡ (y + 16) * width + x =
      at_row (add_u32 y 16) (y + 16) (omega arith) (omega arith) in
    let target : add_u32 (mul_u32 y width) x % 2 ^ 30 ≡ y * width + x =
      at_row y y refl (omega (arith, apart)) in
    (
      fb',
      rw
          (
            source,
            target,
            get_elem?-eq-get_or fb ((y + 16) * width + x) 0 (omega arith),
            lt→ltb (y * width + x) (length fb) (omega (arith, apart)),
          )
          run,
      len ∙ keep,
      λ k. ground (
        arith,
        cells k,
        apart,
        get_or-set fb (y * width + x) k (get_or fb ((y + 16) * width + x) 0) 0
            (omega (arith, apart)),
        get_or-set fb (y * width + x) (k + 16 * width) (get_or fb ((y + 16) * width + x) 0) 0
            (omega (arith, apart)),
        same k,
      ),
    )
  where
    fb₁ : List ℕ
    fb₁ = set fb (y * width + x) (get_or fb ((y + 16) * width + x) 0)

    keep : length fb₁ ≡ length fb
    keep = length-set fb (y * width + x) (get_or fb ((y + 16) * width + x) 0)

    at_row :
        (r r' : ℕ)
        → r ≡ r'
        → r' * width + x < 2 ^ 30
        → add_u32 (mul_u32 r width) x % 2 ^ 30 ≡ r' * width + x
    at_row r r' e bound = rw e (omega arith)

    same :
        (k : ℕ)
        → k ≡ y * width + x
        → get_or fb ((y + 16) * width + x) 0 ≡ get_or fb (k + 16 * width) 0
    same k e = ap (λ (t : ℕ). get_or fb t 0) (omega (arith, add-mul y 16 width))

-- All rows from `y` on: each pixel of them comes from sixteen rows below.
pub copy_rows-total :
    (width y rounds : ℕ) (fb : List ℕ)
    → (y + rounds + 16) * width ≤ length fb
    → length fb ≤ 2 ^ 30
    → y + rounds ≤ 2 ^ 20
    → 0 < width
    → (fb' : List ℕ) × (copy_rows width y rounds fb ≡ some fb')
      × (length fb' ≡ length fb)
      × ((k : ℕ)
          → get_or fb' k 0 ≡ (
              if leb (y * width) k && ltb k ((y + rounds) * width)
              then get_or fb (k + 16 * width) 0
              else get_or fb k 0))
unfolding copy_rows
copy_rows-total width y zero fb h small hy hw = (fb, refl, refl, λ k. ground arith)
copy_rows-total width y (suc rounds) fb h small hy hw =
    let (fb₁, run₁, len₁, cells₁) =
      copy_cols-total width y 0 width fb (omega (arith, apart₁, apart₂)) small (omega arith) hw in
    let (fb₂, run₂, len₂, cells₂) =
      copy_rows-total width (y + 1) rounds fb₁ (omega (arith, apart₂, apart₃, len₁))
        (omega (arith, len₁)) (omega arith) hw in
    (
      fb₂,
      rw run₁ run₂,
      len₂ ∙ len₁,
      λ k.
          ground
            (arith, cells₂ k, cells₁ k, cells₁ (k + 16 * width), apart₁, apart₄, apart₅, apart₆),
    )
  where
    apart₁ : (y + 16) * width ≡ y * width + 16 * width
    apart₁ = add-mul y 16 width

    apart₂ : (y + suc rounds + 16) * width ≡ y * width + (rounds * width + width) + 16 * width
    apart₂ = omega (
      arith,
      add-mul (y + suc rounds) 16 width,
      add-mul y (suc rounds) width,
      suc-mul rounds width,
    )

    apart₃ : (y + 1 + rounds + 16) * width ≡ y * width + (rounds * width + width) + 16 * width
    apart₃ =
        omega (
          arith,
          add-mul (y + 1 + rounds) 16 width,
          add-mul (y + 1) rounds width,
          add-mul y 1 width,
        )

    apart₄ : (y + 1) * width ≡ y * width + width
    apart₄ = omega (arith, add-mul y 1 width)

    apart₅ : (y + suc rounds) * width ≡ y * width + (rounds * width + width)
    apart₅ = omega (arith, add-mul y (suc rounds) width, suc-mul rounds width)

    apart₆ : (y + 1 + rounds) * width ≡ y * width + (rounds * width + width)
    apart₆ = omega (arith, add-mul (y + 1) rounds width, add-mul y 1 width)

-- A row whose source lies behind the memory cannot be copied.
copy_cols-fault :
    (width height y : ℕ) (fb : List ℕ)
    → length fb ≡ height * width
    → (height + 16) * width < 2 ^ 30
    → 0 < width
    → y ≤ height
    → height ≤ y + 16
    → y ≤ 2 ^ 20
    → copy_cols width y 0 width fb ≡ none
unfolding copy_cols
copy_cols-fault zero height y fb len small hw hy past hs = absurd (omega arith)
copy_cols-fault (suc w) height y fb len small hw hy past hs =
    let lo : height * suc w ≤ (y + 16) * suc w = mul-le-mul_right (suc w) past in
    let hi : (y + 16) * suc w ≤ (height + 16) * suc w = mul-le-mul_right (suc w) (omega arith) in
    let source : add_u32 (mul_u32 (add_u32 y 16) (suc w)) 0 % 2 ^ 30 ≡ (y + 16) * suc w =
      at_row (add_u32 y 16) (y + 16) (omega arith) (omega (arith, hi)) in
    rw (source, get_elem?-out fb ((y + 16) * suc w) (omega (arith, lo))) refl
  where
    at_row :
        (r r' : ℕ)
        → r ≡ r'
        → r' * suc w < 2 ^ 30
        → add_u32 (mul_u32 r (suc w)) 0 % 2 ^ 30 ≡ r' * suc w
    at_row r r' e bound = rw e (omega arith)

pub copy_rows-fault :
    (width height y rounds : ℕ) (fb : List ℕ)
    → length fb ≡ height * width
    → (height + 16) * width < 2 ^ 30
    → 0 < width
    → y + rounds < height
    → height ≤ 2 ^ 20
    → height < y + rounds + 16
    → 0 < rounds
    → copy_rows width y rounds fb ≡ none
unfolding copy_rows
copy_rows-fault width height y zero fb len small hw hy hh past some_rounds = absurd (omega arith)
copy_rows-fault width height y (suc rounds) fb len small hw hy hh past some_rounds =
    elim (Bool-cases (ltb (y + 16) height)) [
      | inl inside ↦
          let fits : (y + 17) * width ≤ height * width =
            mul-le-mul_right width (ground (arith, inside)) in
          let room : (y + 16) * width + 0 + width ≤ length fb =
            omega (arith, fits, add-mul y 17 width, add-mul y 16 width) in
          let (fb₁, run₁, len₁, _) =
            copy_cols-total width y 0 width fb room (omega (arith, add-mul height 16 width))
              (omega arith) hw in
          rw run₁ (
            copy_rows-fault width height (y + 1) rounds fb₁ (len₁ ∙ len) small hw (omega arith) hh
              (omega arith) (ground (arith, inside)))
      | inr outside ↦
          rw
            (copy_cols-fault width height y fb len small hw (omega arith) (ltb→le _ _ outside)
              (omega arith))
            refl
    ]
