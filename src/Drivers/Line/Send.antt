-- ===== src/Drivers/Line/Send.antt =====
-- drivers/line.c: line_send, which hands the line to the process.
use longhorn.Base.{
  ℕ, zero, suc, ◌+◌, ◌<◌, ◌≤◌, ◌≡◌, ◌≢◌, refl, ◌∙◌, ap, false, some, List, [], ◌∷◌, ◌==◌, get_elem?,
  get_or, take, length, arith, min, ==_ne, get_elem?-eq-get_or,
}
use longhorn.Libk.Stream.{StdStream}
use longhorn.Libk.Stream.Fifo.{push}
use longhorn.Libk.Stream.Std.{IsValid, contents, put_std_refines}
use longhorn.Drivers.Line.{LineDisc, put_out, send_from, line_send}
use longhorn.Drivers.Line.Edit.{IsLine, text}

-- The queue after characters were put into it one by one, without regard to whether there was room.
abbrev pub push_all : List ℕ → List ℕ → List ℕ
push_all q [] = q
push_all q (c ∷ cs) = push_all (push 255 q c).1 cs

-- The characters of `mem` from `i` on, `n` of them.
abbrev pub cells_from : ℕ → ℕ → List ℕ → List ℕ
cells_from i zero mem = []
cells_from i (suc n) mem = get_or mem i 0 ∷ cells_from (suc i) n mem

send_from-push_all :
    (i n : ℕ) (ld : LineDisc) (s : StdStream)
    → ld.out ≡ some s
    → IsValid s
    → i + n ≤ length ld.line_buffer
    → ((k : ℕ) → i ≤ k → k < i + n → get_or ld.line_buffer k 0 ≢ 0)
    → (s' : StdStream) × (send_from i n ld ≡ some (i + n, record ld { out = some s' }))
      × IsValid s'
      × (contents s' ≡ push_all (contents s) (cells_from i n ld.line_buffer))
unfolding send_from put_out
send_from-push_all i zero ld s e v h nz =
    (s, rw⁻¹ e (ap (λ m. some (m, ld)) (omega arith)), v, refl)
send_from-push_all i (suc n) ld s e v h nz =
    let c : ℕ = get_or ld.line_buffer i 0 in
    let (s₁, run, v₁, sent) = put_std_refines s c v in
    let there : get_elem? ld.line_buffer i ≡ some c =
      get_elem?-eq-get_or ld.line_buffer i 0 (omega arith) in
    let some_char : (c == 0) ≡ false = ==_ne c 0 (nz i (omega arith) (omega arith)) in
    let (s', rest, v', sent') =
      send_from-push_all (i + 1) n (record ld { out = some s₁ }) s₁ refl v₁ (omega arith)
        (λ k lo hi. nz k (omega arith) (omega arith)) in
    (
      s',
      rw (there, some_char, e, run)
          (rest ∙ ap (λ m. some (m, record ld { out = some s' })) {y = i + suc n} (omega arith)),
      v',
      sent'
          ∙ ap (λ q. push_all q (cells_from (i + 1) n ld.line_buffer)) sent
          ∙ ap (λ j. push_all (push 255 (contents s) c).1 (cells_from j n ld.line_buffer))
              {y = suc i} (omega arith),
    )

-- line_send of a valid line without a terminator in it: its characters are put into the queue in order,
-- those for which there is no room are lost, and the result counts them all the same. The line
-- is empty then.
pub line_send-push_all :
    (ld : LineDisc) (s : StdStream)
    → IsLine ld s
    → ((k : ℕ) → k < ld.buffer_i → get_or ld.line_buffer k 0 ≢ 0)
    → (ld' : LineDisc) × (s' : StdStream) × (line_send ld ≡ some (ld.buffer_i, ld'))
      × IsLine ld' s'
      × (contents s' ≡ push_all (contents s) (text ld))
      × (text ld' ≡ [])
unfolding line_send
line_send-push_all ld s v nz =
    let (s', run, v', sent) =
      send_from-push_all 0 ld.buffer_i ld s v.connected v.stream (omega (arith, v.cells, v.index))
        (λ k lo hi. nz k (omega arith)) in
    let all : min ld.buffer_i 1024 ≡ ld.buffer_i = omega (arith, v.index) in
    let count : 0 + ld.buffer_i ≡ ld.buffer_i = omega arith in
    (
      record ld { out = some s'; buffer_i = 0 },
      s',
      rw (all, run) (ap (λ m. some (m, record ld { out = some s'; buffer_i = 0 })) count),
      record { cells = v.cells; index = omega arith; connected = refl; stream = v' },
      sent
          ∙ ap (push_all (contents s))
              (cells_from-take ld.buffer_i ld.line_buffer (omega (arith, v.cells, v.index))),
      refl,
    )
  where
    cells_from-suc :
        (i n : ℕ) (x : ℕ) (mem : List ℕ) → cells_from (suc i) n (x ∷ mem) ≡ cells_from i n mem
    cells_from-suc i zero x mem = refl
    cells_from-suc i (suc n) x mem = ap (λ q. get_or mem i 0 ∷ q) (cells_from-suc (suc i) n x mem)

    cells_from-take : (n : ℕ) (mem : List ℕ) → n ≤ length mem → cells_from 0 n mem ≡ take n mem
    cells_from-take zero mem h = refl
    cells_from-take (suc n) [] h = absurd (omega arith)
    cells_from-take (suc n) (x ∷ mem) h =
        ap (λ q. x ∷ q) (cells_from-suc 0 n x mem ∙ cells_from-take n mem (omega arith))
