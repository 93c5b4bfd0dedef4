-- ===== src/Libk/Stream/Std.antt =====
-- libk/stream.c: init_std, flush_std, put_std and get_std, against a queue of at most 255 bytes.
use longhorn.Base.{
  ℕ, Option, ◌>>=◌, Bool, true, false, ltb, leb, ◌&&◌, ◌∙◌, ◌+◌, ◌<◌, ◌≡◌, ◌≢◌, refl, some, List,
  [], ◌∷◌, arith, if◌then◌else◌, ℤ, pos, neg, length, get_or, set, length-set, get_or-out,
  get_elem?-eq-get_or,
}
use native.Mathlib.Decide.{ℕ_discrete}
use longhorn.Libk.Stream.{StdStream, flush_std, put_std, get_std, no_char}
use longhorn.Libk.Stream.Fifo.{push, pop}
use longhorn.Libk.Stream.Window.{
  succ_index, last_free, contents_of, no_room, room, contents-write, contents-same, contents-read,
  zero_from-total,
}

pub record IsValid (s : StdStream) : Type 0 where
  pub cells : length s.stream ≡ 256
  pub size : s.size ≡ 256
  pub in_range : s.in_index < 256
  pub out_range : s.out_index < 256

-- The bytes in the stream, oldest first.
abbrev pub contents : StdStream → List ℕ
contents s = contents_of s.stream 256 s.in_index s.out_index

-- What put_std returns: 0, or -1 for a full stream.
abbrev pub code : Bool → ℤ
code true = pos 0
code false = neg 1

put_full :
    (s : StdStream) (c : ℕ)
    → IsValid s
    → s.in_index ≡ last_free 256 s.out_index
    → put_std s c ≡ some (neg 1, s)
unfolding put_std
put_full s c v e = ground arith

put_room :
    (s : StdStream) (c : ℕ)
    → IsValid s
    → s.in_index ≢ last_free 256 s.out_index
    → put_std s c
      ≡ some (
        pos 0,
        record s { stream = set s.stream s.in_index c; in_index = succ_index 256 s.in_index },
      )
unfolding put_std
put_room s c v e = ground arith

-- For a valid stream, put_std returns 0 and queues the character, unless the stream holds 255: then
-- it returns -1 and changes nothing that is queued. The stream stays valid.
pub put_std_refines :
    (s : StdStream) (c : ℕ)
    → IsValid s
    → (s' : StdStream) × (put_std s c ≡ some (code (push 255 (contents s) c).0, s'))
      × IsValid s'
      × (contents s' ≡ (push 255 (contents s) c).1)
put_std_refines s c v = elim (ℕ_discrete s.in_index (last_free 256 s.out_index)) [
  | yes e ↦ (
    s,
    rw (no_room stream 256 in_index out_index v.in_range v.out_range e) (put_full s c v e),
    v,
    rw (no_room stream 256 in_index out_index v.in_range v.out_range e),
  )
  | no e ↦ (
    record s { stream = set stream in_index c; in_index = succ_index 256 in_index },
    rw (room stream 256 in_index out_index v.in_range v.out_range e) (put_room s c v e),
    record {
      cells = length-set stream in_index c ∙ v.cells;
      size = v.size;
      in_range = ground arith;
      out_range = v.out_range;
    },
    rw (room stream 256 in_index out_index v.in_range v.out_range e)
        (contents-write stream 256 in_index out_index v.in_range v.out_range c e (omega arith)),
  )
]
  where
    open s use {stream, in_index, out_index}

get_some :
    (s : StdStream)
    → IsValid s
    → s.in_index ≢ s.out_index
    → get_std s
      ≡ some (get_or s.stream s.out_index 0, record s { out_index = succ_index 256 s.out_index })
unfolding get_std
get_some s v e = ground (arith, get_elem?-eq-get_or s.stream s.out_index 0)

get_none : (s : StdStream) → s.in_index ≡ s.out_index → get_std s ≡ some (no_char, s)
unfolding get_std
get_none s e = ground arith

-- For a valid stream, get_std takes the oldest character, or returns -1 if nothing is queued. The
-- stream stays valid.
pub get_std_refines :
    (s : StdStream)
    → IsValid s
    → (s' : StdStream) × (get_std s ≡ some ((pop no_char (contents s)).0, s'))
      × IsValid s'
      × (contents s' ≡ (pop no_char (contents s)).1)
get_std_refines s v = elim (ℕ_discrete s.in_index s.out_index) [
  | yes e ↦ (s, rw (empty e) (get_none s e), v, rw (empty e))
  | no e ↦ (
    record s { out_index = succ_index 256 s.out_index },
    rw (taken e) (get_some s v e),
    record { cells = v.cells; size = v.size; in_range = v.in_range; out_range = ground arith },
    rw (taken e),
  )
]
  where
    empty : s.in_index ≡ s.out_index → contents s ≡ []
    empty = contents-same s.stream 256 s.in_index s.out_index v.in_range v.out_range

    taken :
        s.in_index ≢ s.out_index
        → contents s
          ≡ get_or s.stream s.out_index 0
            ∷ contents_of s.stream 256 s.in_index (succ_index 256 s.out_index)
    taken = contents-read s.stream 256 s.in_index s.out_index v.in_range v.out_range

-- flush_std leaves a valid stream valid and empty, with its array cleared.
pub flush_std_lem :
    (s : StdStream)
    → IsValid s
    → (s' : StdStream) × (flush_std s ≡ some s')
      × IsValid s'
      × (contents s' ≡ [])
      × ((j : ℕ) → get_or s'.stream j 0 ≡ 0)
unfolding flush_std
flush_std_lem s v =
    let (a, run, len, cells) = zero_from-total 0 s.size s.stream (omega arith) in
    (
      record s { stream = a; in_index = 0; out_index = 0 },
      rw run,
      record {
        cells = omega arith;
        size = v.size;
        in_range = omega arith;
        out_range = omega arith;
      },
      refl,
      λ j. cleared a j len (cells j),
    )
  where
    cleared :
        (a : List ℕ) (j : ℕ)
        → length a ≡ length s.stream
        → get_or a j 0 ≡ (if leb 0 j && ltb j (0 + s.size) then 0 else get_or s.stream j 0)
        → get_or a j 0 ≡ 0
    cleared a j len e = ground (arith, get_or-out a j 0)

-- A client's call, and what it sees of it.
pub data Op : Type 0 where
  put : ℕ → Op
  get : Op

pub data Reply : Type 0 where
  returned : ℤ → Reply
  char : ℕ → Reply

unfoldable pub run : StdStream → List Op → Option (List Reply)
run s [] = some []
run s (put c ∷ ops) = do
  (result, s') ← put_std s c
  replies ← run s' ops
  some (returned result ∷ replies)
run s (get ∷ ops) = do (c, s') ← get_std s; replies ← run s' ops; some (char c ∷ replies)

unfoldable pub run_fifo : List ℕ → List Op → List Reply
run_fifo q [] = []
run_fifo q (put c ∷ ops) = let (room, q') = push 255 q c in returned (code room) ∷ run_fifo q' ops
run_fifo q (get ∷ ops) = let (c, q') = pop no_char q in char c ∷ run_fifo q' ops

-- No sequence of put_std and get_std calls faults, or tells a valid stream from the bounded queue
-- of its contents.
pub run_refines :
    (ops : List Op) (s : StdStream) → IsValid s → run s ops ≡ some (run_fifo (contents s) ops)
unfolding run run_fifo
run_refines [] s v = refl
run_refines (put c ∷ ops) s v =
    let (s', done, v', same) = put_std_refines s c v in rw (done, run_refines ops s' v', same)
run_refines (get ∷ ops) s v =
    let (s', done, v', same) = get_std_refines s v in rw (done, run_refines ops s' v', same)
