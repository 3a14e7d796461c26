-- ===== src/Io/Read/Silent.antt =====
-- `handle_read` of src/io/client_base.cpp on a connection that has no bytes.
use theme_srv.Common.{
  ℕ, zero, suc, ◌^◌, ◌<◌, ◌≡◌, refl, ap, ◌∙◌, true, List, [], ◌∷◌, ◌++◌, Bytes, length,
}
use theme_srv.Protocol.NetStruct.{NetField, NetStruct, is_fixed, field_sz, total_sz}
use theme_srv.Protocol.Message.{IsMessage, IsFixedRun}
use theme_srv.Io.Cipher.{Cipher, IsStream}
use theme_srv.Io.Socket.{
  Socket, Arrival, again, failed, hangup, read, would_block, io_error, transferred, shutdown,
}
use theme_srv.Io.ClientBase.{ClientBase}
use theme_srv.Io.Read.{nothing, hang, endless, handled, resume_read, handle_read}
use theme_srv.Io.Read.Passes.{IsAt}
use theme_srv.Io.Read.Wanting.{Wants, IsMessage-Wants}
use theme_srv.Io.Read.Blocked.{Idles, pass-would_block, pass-failed, pass-hangup}

read_none : (s : Socket) (n : ℕ) → s.arrivals ≡ [] → read s n ≡ (would_block, s)
unfolding read
read_none s n h = rw h

read_again :
    (s : Socket) (n : ℕ) (rest : List Arrival)
    → s.arrivals ≡ again ∷ rest
    → read s n ≡ (would_block, record s { arrivals = rest })
unfolding read
read_again s n rest h = rw h

read_failed :
    (s : Socket) (n : ℕ) (rest : List Arrival)
    → s.arrivals ≡ failed ∷ rest
    → read s n ≡ (io_error, record s { arrivals = rest })
unfolding read
read_failed s n rest h = rw h

read_ended :
    (s : Socket) (n : ℕ) (rest : List Arrival)
    → s.arrivals ≡ hangup ∷ rest
    → read s n ≡ (transferred [], s)
unfolding read
read_ended s n rest h = rw h

module _ {ev : Cipher} (law : IsStream ev) (ns : NetStruct)
    (small : total_sz ns.fields < 2 ^ 32) where
  blocked :
      (fuel : ℕ) (cli : ClientBase ev) (i : ℕ) (p : Bytes) (sock : Socket)
      → IsAt ns i p cli
      → (w : Wants ns i p cli) → read cli.socket w.number ≡ (would_block, sock)
      → (cli' : ClientBase ev) × (handle_read (suc fuel) cli ≡ nothing cli')
        × Idles ns i p sock cli cli'
  unfolding handle_read resume_read
  blocked fuel cli i p sock at w got =
      let (cli', call, idle) = pass-would_block ns cli i p sock at w got in
      (cli', rw call refl, idle)

  -- Suppose that a cipher works byte by byte and that a client is about to read the fields `fs`
  -- of a structure of less than 4 GiB, of which some message is not empty, with the bytes `p` of
  -- the fixed fields before them in its buffer. If nothing arrives, `handle_read` ends in its
  -- first round and gives no message; the client keeps `p` and its place, both ciphers, the
  -- socket and what waits to be sent.
  pub handle_read-drained :
      (fuel : ℕ) (cli : ClientBase ev) (pre fs : List NetField) (p m : Bytes)
      → IsAt ns (length pre) p cli
      → IsFixedRun pre p
      → IsMessage fs m
      → ns.fields ≡ pre ++ fs
      → 0 < length m
      → cli.socket.arrivals ≡ []
      → (cli' : ClientBase ev) × (handle_read (suc fuel) cli ≡ nothing cli')
        × Idles ns (length pre) p cli.socket cli cli'
  handle_read-drained fuel cli pre fs p m at hp msg eq pos arr =
      let w = IsMessage-Wants law ns small cli pre fs p m hp msg eq pos in
      blocked fuel cli (length pre) p cli.socket at w (read_none cli.socket w.number arr)

  pub handle_read-would_block :
      (fuel : ℕ) (cli : ClientBase ev) (pre fs : List NetField) (p m : Bytes) (rest : List Arrival)
      → IsAt ns (length pre) p cli
      → IsFixedRun pre p
      → IsMessage fs m
      → ns.fields ≡ pre ++ fs
      → 0 < length m
      → cli.socket.arrivals ≡ again ∷ rest
      → (cli' : ClientBase ev) × (handle_read (suc fuel) cli ≡ nothing cli')
        × Idles ns (length pre) p (record (cli.socket) { arrivals = rest }) cli cli'
  handle_read-would_block fuel cli pre fs p m rest at hp msg eq pos arr =
      let w = IsMessage-Wants law ns small cli pre fs p m hp msg eq pos in
      blocked fuel cli (length pre) p (record (cli.socket) { arrivals = rest }) at w
        (read_again cli.socket w.number rest arr)

  -- Under the same conditions, if the read of the socket fails with an error, `handle_read`
  -- gives no message, the connection is shut down, and the client keeps the rest.
  pub handle_read-failed :
      (fuel : ℕ) (cli : ClientBase ev) (pre fs : List NetField) (p m : Bytes) (rest : List Arrival)
      → IsAt ns (length pre) p cli
      → IsFixedRun pre p
      → IsMessage fs m
      → ns.fields ≡ pre ++ fs
      → 0 < length m
      → cli.socket.arrivals ≡ failed ∷ rest
      → (cli' : ClientBase ev) × (handle_read (suc fuel) cli ≡ nothing cli')
        × Idles ns (length pre) p (shutdown (record (cli.socket) { arrivals = rest })) cli cli'
  unfolding handle_read resume_read
  handle_read-failed fuel cli pre fs p m rest at hp msg eq pos arr =
      let w = IsMessage-Wants law ns small cli pre fs p m hp msg eq pos in
      let (cli', call, idle) =
        pass-failed ns cli (length pre) p (record (cli.socket) { arrivals = rest }) at w
          (read_failed cli.socket w.number rest arr) in
      (cli', rw call refl, idle)

  resume_read-hangup :
      (fuel : ℕ) (cli : ClientBase ev) (pre : List NetField) (f : NetField) (fs : List NetField)
      (p m : Bytes) (rest : List Arrival)
      → IsAt ns (length pre) p cli
      → IsFixedRun pre p
      → IsMessage (f ∷ fs) m
      → ns.fields ≡ pre ++ f ∷ fs
      → is_fixed f.type ≡ true
      → field_sz f < 2 ^ 32
      → 0 < field_sz f
      → 0 < length m
      → cli.socket.arrivals ≡ hangup ∷ rest
      → resume_read fuel cli ≡ endless
  unfolding resume_read
  resume_read-hangup zero cli pre f fs p m rest at hp msg eq fx bound some pos arr = refl
  resume_read-hangup (suc fuel) cli pre f fs p m rest at hp msg eq fx bound some pos arr =
      let w = IsMessage-Wants law ns small cli pre (f ∷ fs) p m hp msg eq pos in
      let (cli', call, idle) =
        pass-hangup law ns cli pre f fs p at w eq fx bound some
          (read_ended cli.socket w.number rest arr) in
      rw call (
        resume_read-hangup fuel cli' pre f fs p m rest idle.is_at hp msg eq fx bound some pos
          (ap (λ s. s.arrivals) idle.socket_is ∙ arr))

  -- Under the same conditions, if the next field is fixed, not empty and of less than 4 GiB, and
  -- the stream is at its end, `handle_read` does not end: no number of rounds is enough.
  pub handle_read-hangup :
      (fuel : ℕ) (cli : ClientBase ev) (pre : List NetField) (f : NetField) (fs : List NetField)
      (p m : Bytes) (rest : List Arrival)
      → IsAt ns (length pre) p cli
      → IsFixedRun pre p
      → IsMessage (f ∷ fs) m
      → ns.fields ≡ pre ++ f ∷ fs
      → is_fixed f.type ≡ true
      → field_sz f < 2 ^ 32
      → 0 < field_sz f
      → 0 < length m
      → cli.socket.arrivals ≡ hangup ∷ rest
      → handle_read fuel cli ≡ hang
  unfolding handle_read
  handle_read-hangup fuel cli pre f fs p m rest at hp msg eq fx bound some pos arr =
      ap handled (resume_read-hangup fuel cli pre f fs p m rest at hp msg eq fx bound some pos arr)
