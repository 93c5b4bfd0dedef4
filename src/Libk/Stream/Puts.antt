-- ===== src/Libk/Stream/Puts.antt =====
-- libk/stream.c: puts_std.
use longhorn.Base.{
  ℕ, zero, suc, ◌+◌, ◌-◌, ◌≤◌, min, ◌≡◌, some, List, [], ◌∷◌, ◌++◌, arith, take, length, append-nil,
  append_assoc, length-append, Bool-cases, inl, inr, ltb, ltb→lt, ltb→le, sym, ap, ◌∙◌,
}
use longhorn.Libc.Str.{strlen}
use longhorn.Libc.Str.Text.{strlen-le}
use longhorn.Libk.Stream.{StdStream, puts_from, puts_std}
use longhorn.Libk.Stream.Std.{IsValid, contents, put_std_refines}

-- How many more characters the stream takes.
abbrev pub free : StdStream → ℕ
free s = 255 - length (contents s)

take-suc : (n m : ℕ) (c : ℕ) (cs : List ℕ) → n ≡ suc m → take n (c ∷ cs) ≡ c ∷ take m cs
take-suc n m c cs e = rw e

puts_from_lem :
    (i rounds : ℕ) (str : List ℕ) (s : StdStream)
    → IsValid s
    → rounds ≤ length str
    → (s' : StdStream) × (puts_from i rounds str s ≡ some (i + min rounds (free s), s'))
      × IsValid s'
      × (contents s' ≡ contents s ++ take (min rounds (free s)) str)
unfolding puts_from
puts_from_lem i zero str s v h = (
  s,
  ground arith,
  v,
  let none_taken : min 0 (free s) ≡ 0 = omega arith in rw (none_taken, append-nil),
)
puts_from_lem i (suc rounds) [] s v h = absurd (omega arith)
puts_from_lem i (suc rounds) (c ∷ cs) s v h = elim (Bool-cases (ltb (length (contents s)) 255)) [
  | inl room ↦
      let (s₁, run₁, v₁, same₁) = put_std_refines s c v in
      let (s₂, run₂, v₂, same₂) = puts_from_lem (i + 1) rounds cs s₁ v₁ (omega arith) in
      let grown : contents s₁ ≡ contents s ++ c ∷ [] = rw room at same₁ in
      let less : free s ≡ suc (free s₁) =
        ground
          (arith, room, ap length grown, length-append (contents s) (c ∷ []), ltb→lt _ _ room) in
      (
        s₂,
        rw (run₁, room) (ground (arith, run₂, less)),
        v₂,
        same₂
            ∙ shift (contents s₁) (take (min rounds (free s₁)) cs) grown
            ∙ ap (λ q. contents s ++ q) (sym (taken (free s) (free s₁) less)),
      )
  | inr full ↦
      let (s₁, run₁, v₁, same₁) = put_std_refines s c v in
      let none_taken : min (suc rounds) (free s) ≡ 0 = omega (arith, ltb→le _ _ full) in
      (
        s₁,
        rw (run₁, full) (ground (arith, none_taken)),
        v₁,
        rw (none_taken, append-nil) (rw full at same₁),
      )
]
  where
    shift : (q rest : List ℕ) → q ≡ contents s ++ c ∷ [] → q ++ rest ≡ contents s ++ c ∷ rest
    shift q rest e = rw e (append_assoc (contents s) (c ∷ []) rest)

    taken : (n m : ℕ) → n ≡ suc m → take (min (suc rounds) n) (c ∷ cs) ≡ c ∷ take (min rounds m) cs
    taken n m e = take-suc _ _ c cs (omega arith)

-- For a valid stream and a terminated string, puts_std returns how many characters it queued: those
-- of the string, in order, as far as there is room.
pub puts_std_lem :
    (s : StdStream) (str : List ℕ) (len : ℕ)
    → IsValid s
    → strlen str ≡ some len
    → (s' : StdStream) × (puts_std s str ≡ some (min len (free s), s'))
      × IsValid s'
      × (contents s' ≡ contents s ++ take (min len (free s)) str)
unfolding puts_std
puts_std_lem s str len v e =
    let (s', run, v', same) = puts_from_lem 0 len str s v (strlen-le str len e) in
    (s', ground (arith, run), v', same)
