-- ===== src/Io/Socket.antt =====
-- src/io/socket.cpp: `read`, `write` and `shutdown`. What the kernel does at each system call is
-- an event of a list: what arrives on the connection, and how much a write takes.
pub mod Bind
pub mod Endpoint
use theme_srv.Common.{
  ℕ, Bool, true, false, List, [], ◌∷◌, ◌++◌, Bytes, length, take, drop, leb, if◌then◌else◌,
  size_max, ◌≡◌, refl, sym, append-nil,
}

-- What the next `::read` finds: EAGAIN or EWOULDBLOCK, another error, the end of the stream
-- (which stays), or a segment of bytes, from which a read takes what it has room for.
pub data Arrival : Type 0 where
  again failed : Arrival
  hangup : Arrival
  segment : Bytes → Arrival

-- What the next `::write` does: EAGAIN or EWOULDBLOCK, another error, or taking at most so much.
pub data Accept : Type 0 where
  again failed : Accept
  takes : ℕ → Accept

-- `sent` is what the kernel has taken, in order.
pub record Socket : Type 0 where
  pub arrivals : List Arrival
  pub accepts : List Accept
  pub sent : Bytes
  pub is_shutdown : Bool

-- The tuple of `read` and `write`, with the bytes that a read puts into its buffer.
pub record IoResult : Type 0 where
  pub success : Bool
  pub amount : ℕ
  pub bytes : Bytes

abbrev pub would_block : IoResult
would_block = record { success = false; amount = 0; bytes = [] }

abbrev pub io_error : IoResult
io_error = record { success = false; amount = size_max; bytes = [] }

abbrev pub transferred : Bytes → IoResult
transferred bs = record { success = true; amount = length bs; bytes = bs }

-- Nothing left to happen means that the call would block.
read_from : List Arrival → Socket → ℕ → IoResult × Socket
read_from [] s bufsz = (would_block, s)
read_from (again ∷ rest) s bufsz = (would_block, record s { arrivals = rest })
read_from (failed ∷ rest) s bufsz = (io_error, record s { arrivals = rest })
read_from (hangup ∷ rest) s bufsz = (transferred [], s)
read_from (segment bs ∷ rest) s bufsz =
    if leb (length bs) bufsz
    then (transferred bs, record s { arrivals = rest })
    else (transferred (take bufsz bs), record s { arrivals = segment (drop bufsz bs) ∷ rest })

unfoldable pub read : Socket → ℕ → IoResult × Socket
unfolding read_from
read s bufsz = read_from s.arrivals s bufsz

write_to : List Accept → Socket → Bytes → IoResult × Socket
write_to [] s buf = (would_block, s)
write_to (again ∷ rest) s buf = (would_block, record s { accepts = rest })
write_to (failed ∷ rest) s buf = (io_error, record s { accepts = rest })
write_to (takes n ∷ rest) s buf =
    let taken = take n buf in
    (transferred taken, record s { accepts = rest; sent = s.sent ++ taken })

unfoldable pub write : Socket → Bytes → IoResult × Socket
unfolding write_to
write s buf = write_to s.accepts s buf

abbrev pub shutdown : Socket → Socket
shutdown s = record s { is_shutdown = true }

-- A write takes a first part of the buffer, and none where it does not succeed.
pub record Wrote (s : Socket) (buf : Bytes) (r : IoResult) (s' : Socket) : Type 0 where
  pub count : ℕ
  pub bytes_is : r.bytes ≡ take count buf
  pub sent_is : s'.sent ≡ s.sent ++ take count buf
  pub amount_is : r.success ≡ true → r.amount ≡ length (take count buf)
  pub untouched : r.success ≡ false → s'.sent ≡ s.sent

write_to-Wrote :
    (events : List Accept) (s : Socket) (buf : Bytes)
    → Wrote s buf (write_to events s buf).0 (write_to events s buf).1
unfolding write_to
write_to-Wrote [] s buf = record {
  count = 0;
  bytes_is = refl;
  sent_is = sym (append-nil s.sent);
  amount_is = λ h. cc;
  untouched = λ h. refl;
}
write_to-Wrote (again ∷ rest) s buf = record {
  count = 0;
  bytes_is = refl;
  sent_is = sym (append-nil s.sent);
  amount_is = λ h. cc;
  untouched = λ h. refl;
}
write_to-Wrote (failed ∷ rest) s buf = record {
  count = 0;
  bytes_is = refl;
  sent_is = sym (append-nil s.sent);
  amount_is = λ h. cc;
  untouched = λ h. refl;
}
write_to-Wrote (takes n ∷ rest) s buf = record {
  count = n;
  bytes_is = refl;
  sent_is = refl;
  amount_is = λ h. refl;
  untouched = λ h. cc;
}

pub write-Wrote : (s : Socket) (buf : Bytes) → Wrote s buf (write s buf).0 (write s buf).1
unfolding write
write-Wrote s buf = write_to-Wrote s.accepts s buf

write_to-arrivals :
    (events : List Accept) (s : Socket) (buf : Bytes)
    → (write_to events s buf).1.arrivals ≡ s.arrivals
unfolding write_to
write_to-arrivals [] s buf = refl
write_to-arrivals (again ∷ rest) s buf = refl
write_to-arrivals (failed ∷ rest) s buf = refl
write_to-arrivals (takes n ∷ rest) s buf = refl

-- A write takes nothing from what arrives.
pub write-arrivals : (s : Socket) (buf : Bytes) → (write s buf).1.arrivals ≡ s.arrivals
unfolding write
write-arrivals s buf = write_to-arrivals s.accepts s buf
