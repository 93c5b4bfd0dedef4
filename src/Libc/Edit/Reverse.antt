-- ===== src/Libc/Edit/Reverse.antt =====
-- libc/string.c: reverse.
use longhorn.Base.{
  ℕ, zero, suc, ◌+◌, ◌-◌, ◌≤◌, ◌<◌, ◌≡◌, refl, some, List, arith, length, ltb, leb, ◌&&◌, ◌||◌,
  if◌then◌else◌, set, get_or, length-set, get_or-set, get_elem?-eq-get_or, get_elem?, lt→ltb,
  Bool-cases, inl, inr, ltb→lt, ltb→le, ◌∙◌, true,
}
use longhorn.Libc.Str.Text.{Text, strlen-length, length-Text}
use longhorn.Libc.Edit.{reverse_from, reverse}

-- `cur` is `str` with the first `n` bytes reversed as far as the places below `i`, and from `stop`
-- on.
pub record IsReversed (str cur : List ℕ) (n i stop : ℕ) : Type 0 where
  pub same_length : length cur ≡ length str
  pub cells :
      (k : ℕ)
      → get_or cur k 0
        ≡ (if ltb k n && (ltb k i || leb stop k) then get_or str (n - 1 - k) 0 else get_or str k 0)

swapped :
    {str cur : List ℕ} {n i j : ℕ}
    → IsReversed str cur n i (suc j)
    → i + suc j ≡ n
    → n ≤ length str
    → i < j
    → IsReversed str (set (set cur i (get_or cur j 0)) j (get_or cur i 0)) n (i + 1) j
swapped {str} {cur} {n} {i} {j} r e le lt = record {
  same_length = length-set (set cur i (get_or cur j 0)) j _ ∙ length-set cur i _ ∙ r.same_length;
  cells = λ k. ground (
    arith,
    r.same_length,
    length-set cur i (get_or cur j 0),
    get_or-set (set cur i (get_or cur j 0)) j k (get_or cur i 0) 0
        (omega (arith, r.same_length, length-set cur i (get_or cur j 0))),
    get_or-set cur i k (get_or cur j 0) 0 (omega (arith, r.same_length)),
    r.cells k,
    r.cells i,
    r.cells j,
  );
}

-- Where the indices meet, every place is reversed.
met :
    {str cur : List ℕ} {n i stop : ℕ}
    → IsReversed str cur n i stop
    → i + stop ≡ n
    → stop ≤ i + 1
    → IsReversed str cur n n 0
met {str} {cur} {n} {i} {stop} r e le = record {
  same_length = r.same_length;
  cells = λ k. ground (arith, r.cells k);
}

reverse_from-IsReversed :
    (stop i n : ℕ) (str cur : List ℕ)
    → IsReversed str cur n i stop
    → i + stop ≡ n
    → n ≤ length str
    → (end : List ℕ) × (reverse_from i stop cur ≡ some end) × IsReversed str end n n 0
unfolding reverse_from
reverse_from-IsReversed zero i n str cur r e le = (cur, refl, met r e (omega arith))
reverse_from-IsReversed (suc j) i n str cur r e le = elim (Bool-cases (ltb i j)) [
  | inl t ↦
      let lt : i < j = ltb→lt i j t in
      let at_i : get_elem? cur i ≡ some (get_or cur i 0) =
        get_elem?-eq-get_or cur i 0 (omega (arith, r.same_length)) in
      let at_j : get_elem? cur j ≡ some (get_or cur j 0) =
        get_elem?-eq-get_or cur j 0 (omega (arith, r.same_length)) in
      let fits_i : ltb i (length cur) ≡ true = lt→ltb _ _ (omega (arith, r.same_length)) in
      let fits_j : ltb j (length (set cur i (get_or cur j 0))) ≡ true =
        lt→ltb _ _ (omega (arith, r.same_length, length-set cur i (get_or cur j 0))) in
      let (end, run, rev) =
        reverse_from-IsReversed j (i + 1) n str _ (swapped r e le lt) (omega arith) le in
      (end, rw (t, at_i, at_j, fits_i, fits_j) run, rev)
  | inr f ↦ (cur, rw f refl, met r e (omega (arith, ltb→le i j f)))
]

-- reverse turns round the bytes before the terminator, and changes no other byte.
pub reverse-IsReversed :
    {str xs : List ℕ}
    → Text str xs
    → (end : List ℕ) × (reverse str ≡ some end) × IsReversed str end (length xs) (length xs) 0
unfolding reverse
reverse-IsReversed {str} {xs} t =
    let start : IsReversed str str (length xs) 0 (length xs) = record {
      same_length = refl;
      cells = λ k. ground arith;
    } in
    rw (strlen-length t) (
      reverse_from-IsReversed (length xs) 0 (length xs) str str start (omega arith)
        (omega (arith, length-Text t)))
