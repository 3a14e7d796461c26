-- ===== src/Io/Read/Buffer.antt =====
-- The message buffer of a read in progress, and a read of a segment that holds enough.
use theme_srv.Common.{
  ℕ, zero, suc, ◌+◌, ◌-◌, ◌≤◌, ◌<◌, ◌^◌, ◌≡◌, refl, ap, sym, ◌∙◌, ◌⊎◌, inl, inr, false, none, some,
  List, [], ◌∷◌, ◌++◌, Bytes, length, length-append, take-length, drop-length, replicate,
  length-replicate, arith, append_assoc, append-nil, read_at, write_at, read_at-append,
  write_at-append, le→leb, lt→leb,
}
use theme_srv.Protocol.NetStruct.{NetField, NetStruct, total_sz}
use theme_srv.Protocol.Message.{IsFixedRun, nil, cons}
use theme_srv.Io.Socket.{Socket, Arrival, segment, read, transferred}
use theme_srv.Io.ClientBase.{ReadState, alloc_sz, alloc_buf}

-- The read has `p` at the front of its buffer, or no buffer yet.
pub data Holds (p : Bytes) (st : ReadState) : Type 0 where
  fresh : p ≡ [] → st.buf ≡ none → Holds p st
  held : (y : Bytes) → st.buf ≡ some (p ++ y) → st.bufsz ≡ length (p ++ y) → Holds p st

-- The size of the buffer that a structure gets.
abbrev pub room : NetStruct → ℕ
room ns = alloc_sz (total_sz ns.fields) false

-- The buffer has room for the structure.
pub room_enough : (ns : NetStruct) → total_sz ns.fields < 2 ^ 32 → total_sz ns.fields ≤ room ns
unfolding alloc_sz
room_enough ns small = omega arith

-- The buffer that the read has is no larger than the one that it gets.
abbrev pub NoLarger : ReadState → ℕ → Type 0
NoLarger st size = (st.buf ≡ none) ⊎ (st.bufsz ≤ size)

-- What `alloc_buf` leaves in the state.
pub record Allocated (p : Bytes) (st st' : ReadState) (size : ℕ) : Type 0 where
  pub rest : Bytes
  pub buf_is : st'.buf ≡ some (p ++ rest)
  pub bufsz_is : st'.bufsz ≡ size
  pub length_is : length p + length rest ≡ size
  pub same_struct : st'.struct ≡ st.struct
  pub same_field : st'.field ≡ st.field
  pub same_offset : st'.offset ≡ st.offset

replicate-split :
    (n size : ℕ) → n ≤ size → replicate {A = ℕ} size 0 ≡ replicate n 0 ++ replicate (size - n) 0
replicate-split zero size h =
    ap (λ k. replicate k 0) (let e : size ≡ size - zero = omega arith in e)
replicate-split (suc n) zero h = absurd (omega arith)
replicate-split (suc n) (suc size) h =
    let e : suc size - suc n ≡ size - n = omega arith in
    rw e (ap (◌∷◌ 0) (replicate-split n size (omega arith)))

pub alloc_buf-Allocated :
    (p : Bytes) (st : ReadState) (request : ℕ)
    → Holds p st
    → NoLarger st (alloc_sz request false)
    → (st' : ReadState) × (alloc_buf st request ≡ some st')
      × Allocated p st st' (alloc_sz request false)
unfolding alloc_buf
alloc_buf-Allocated p st request (fresh e b) h =
    let size = alloc_sz request false in
    let st' : ReadState = record st { bufsz = size; buf = some (replicate size 0) } in
    (
      st',
      rw b,
      record {
        rest = replicate size 0;
        buf_is = rw e;
        bufsz_is = refl;
        length_is = rw e (omega (arith, length-replicate {A = ℕ} size 0));
        same_struct = refl;
        same_field = refl;
        same_offset = refl;
      },
    )
alloc_buf-Allocated p st request (held y b s) h =
    let size = alloc_sz request false in
    let old = p ++ y in
    let pad : Bytes = replicate (size - length old) 0 in
    let st' : ReadState = record st { bufsz = size; buf = some (p ++ (y ++ pad)) } in
    let fits : length old ≤ size = elim h [ inl none_is ↦ cc | inr le ↦ omega arith ] in
    let got : read_at old 0 st.bufsz ≡ some old =
      rw s (ap (λ k. read_at k 0 (length old)) (sym (append-nil old)) ∙ read_at-append [] old []) in
    let put : write_at (replicate size 0) 0 old ≡ some (p ++ (y ++ pad)) =
      rw (replicate-split (length old) size fits, ← append_assoc p y pad)
        (write_at-append [] (replicate (length old) 0) pad old
          (sym (length-replicate (length old) 0))) in
    (
      st',
      rw (b, got, put),
      record {
        rest = y ++ pad;
        buf_is = refl;
        bufsz_is = refl;
        length_is = omega (
          arith,
          length-append p y,
          length-append y pad,
          length-replicate {A = ℕ} (size - length old) 0,
        );
        same_struct = refl;
        same_field = refl;
        same_offset = refl;
      },
    )

-- What is left of a segment goes in front of the other arrivals.
abbrev pub leftover : Bytes → List Arrival → List Arrival
leftover [] rest = rest
leftover (x ∷ xs) rest = segment (x ∷ xs) ∷ rest

-- Segments in front of the other arrivals
abbrev pub in_segments : List Bytes → List Arrival → List Arrival
in_segments [] rest = rest
in_segments (b ∷ bs) rest = segment b ∷ in_segments bs rest

-- A read that asks for no less than the first segment has gets all of it.
pub read_shorter :
    (s : Socket) (n : ℕ) (b : Bytes) (rest : List Arrival)
    → s.arrivals ≡ segment b ∷ rest
    → length b ≤ n
    → read s n ≡ (transferred b, record s { arrivals = rest })
unfolding read
read_shorter s n b rest h le = rw (h, le→leb (length b) n le)

pub read-segment :
    (s : Socket) (e x : Bytes) (rest : List Arrival) (n : ℕ)
    → s.arrivals ≡ segment (e ++ x) ∷ rest
    → n ≡ length e
    → read s n ≡ (transferred e, record s { arrivals = leftover x rest })
unfolding read
read-segment s e [] rest n h k =
    let fits = le→leb (length e) n (omega arith) in rw (h, append-nil e, fits)
read-segment s e (b ∷ bs) rest n h k =
    let much = lt→leb (length (e ++ b ∷ bs)) n (omega (arith, length-append e (b ∷ bs))) in
    rw (h, much, k, take-length e (b ∷ bs), drop-length e (b ∷ bs))

pub total_sz-append : (xs ys : List NetField) → total_sz (xs ++ ys) ≡ total_sz xs + total_sz ys
total_sz-append [] ys = omega arith
total_sz-append (x ∷ xs) ys = omega (arith, total_sz-append xs ys)

pub total_sz-run : {fs : List NetField} {r : Bytes} → IsFixedRun fs r → total_sz fs ≡ length r
total_sz-run nil = refl
total_sz-run (cons {f} {fs} b {bs} fx small len later) =
    omega (arith, total_sz-run later, length-append b bs)
