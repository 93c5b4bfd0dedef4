-- ===== src/Libk/Stream/Chars.antt =====
-- libk/stream.c: init_c, flush_c, put_c and get_c, streams of any size up to 2^31, against a queue
-- of one byte less than the size.
use longhorn.Base.{
  ℕ, ◌-◌, ◌<◌, ◌≤◌, ◌≡◌, ◌≢◌, ◌^◌, refl, some, List, [], ◌∷◌, arith, Bool, true, false, ℤ, pos,
  length, get_or, set, length-set, get_elem?-eq-get_or,
}
use native.Mathlib.Decide.{ℕ_discrete}
use longhorn.Libk.Stream.{CharStream, flush_c, put_c, get_c, no_char}
use longhorn.Libk.Stream.Fifo.{push, pop}
use longhorn.Libk.Stream.Window.{
  succ_index, last_free, contents_of, no_room, room, contents-write, contents-same, contents-read,
  zero_from-total, step_lem, back_lem,
}

pub record IsValid (s : CharStream) : Type 0 where
  pub cells : s.size ≤ length s.stream
  pub small : s.size ≤ 2 ^ 31
  pub in_range : s.in_index < s.size
  pub out_range : s.out_index < s.size

abbrev pub contents : CharStream → List ℕ
contents s = contents_of s.stream s.size s.in_index s.out_index

-- What put_c returns: 1, or 0 for a full stream.
abbrev pub code : Bool → ℤ
code true = pos 1
code false = pos 0

put_full :
    (s : CharStream) (c : ℕ)
    → IsValid s
    → s.in_index ≡ last_free s.size s.out_index
    → put_c s c ≡ some (pos 0, s)
unfolding put_c
put_full s c v e = rw (back_lem s.size s.out_index v.small v.out_range) (ground arith)

put_room :
    (s : CharStream) (c : ℕ)
    → IsValid s
    → s.in_index ≢ last_free s.size s.out_index
    → put_c s c
      ≡ some (
        pos 1,
        record s { stream = set s.stream s.in_index c; in_index = succ_index s.size s.in_index },
      )
unfolding put_c
put_room s c v e =
    rw (back_lem s.size s.out_index v.small v.out_range)
      (ground (arith, step_lem s.size s.in_index v.small v.in_range))

-- For a valid stream of at most 2^31 cells, put_c returns 1 and queues the character, unless only
-- one cell is free: then it returns 0 and changes nothing that is queued. The stream stays valid.
pub put_c_refines :
    (s : CharStream) (c : ℕ)
    → IsValid s
    → (s' : CharStream) × (put_c s c ≡ some (code (push (s.size - 1) (contents s) c).0, s'))
      × IsValid s'
      × (contents s' ≡ (push (s.size - 1) (contents s) c).1)
put_c_refines s c v = elim (ℕ_discrete s.in_index (last_free s.size s.out_index)) [
  | yes e ↦ (
    s,
    rw (no_room stream size in_index out_index v.in_range v.out_range e) (put_full s c v e),
    v,
    rw (no_room stream size in_index out_index v.in_range v.out_range e),
  )
  | no e ↦ (
    record s { stream = set stream in_index c; in_index = succ_index size in_index },
    rw (room stream size in_index out_index v.in_range v.out_range e) (put_room s c v e),
    record {
      cells = omega (arith, length-set stream in_index c);
      small = v.small;
      in_range = ground arith;
      out_range = v.out_range;
    },
    rw (room stream size in_index out_index v.in_range v.out_range e)
        (contents-write stream size in_index out_index v.in_range v.out_range c e v.cells),
  )
]
  where
    open s use {stream, size, in_index, out_index}

get_some :
    (s : CharStream)
    → IsValid s
    → s.in_index ≢ s.out_index
    → get_c s
      ≡ some (get_or s.stream s.out_index 0, record s { out_index = succ_index s.size s.out_index })
unfolding get_c
get_some s v e = ground (
  arith,
  get_elem?-eq-get_or s.stream s.out_index 0,
  step_lem s.size s.out_index v.small v.out_range,
)

get_none : (s : CharStream) → s.in_index ≡ s.out_index → get_c s ≡ some (no_char, s)
unfolding get_c
get_none s e = ground arith

-- For a valid stream of at most 2^31 cells, get_c takes the oldest character, or returns -1 if
-- nothing is queued. The stream stays valid.
pub get_c_refines :
    (s : CharStream)
    → IsValid s
    → (s' : CharStream) × (get_c s ≡ some ((pop no_char (contents s)).0, s'))
      × IsValid s'
      × (contents s' ≡ (pop no_char (contents s)).1)
get_c_refines s v = elim (ℕ_discrete s.in_index s.out_index) [
  | yes e ↦ (s, rw (empty e) (get_none s e), v, rw (empty e))
  | no e ↦ (
    record s { out_index = succ_index s.size s.out_index },
    rw (taken e) (get_some s v e),
    record { cells = v.cells; small = v.small; in_range = v.in_range; out_range = ground arith },
    rw (taken e),
  )
]
  where
    empty : s.in_index ≡ s.out_index → contents s ≡ []
    empty = contents-same s.stream s.size s.in_index s.out_index v.in_range v.out_range

    taken :
        s.in_index ≢ s.out_index
        → contents s
          ≡ get_or s.stream s.out_index 0
            ∷ contents_of s.stream s.size s.in_index (succ_index s.size s.out_index)
    taken = contents-read s.stream s.size s.in_index s.out_index v.in_range v.out_range

-- flush_c leaves a valid stream of at most 2^31 cells valid and empty, with its array cleared.
pub flush_c_lem :
    (s : CharStream)
    → IsValid s
    → (s' : CharStream) × (flush_c s ≡ some s')
      × IsValid s'
      × (contents s' ≡ [])
      × ((j : ℕ) → j < s.size → get_or s'.stream j 0 ≡ 0)
unfolding flush_c
flush_c_lem s v =
    let (a, run, len, cells) = zero_from-total 0 s.size s.stream (omega arith) in
    (
      record s { stream = a; in_index = 0; out_index = 0 },
      rw run,
      record {
        cells = omega arith;
        small = v.small;
        in_range = omega arith;
        out_range = omega arith;
      },
      refl,
      λ j h. ground (arith, cells j),
    )
