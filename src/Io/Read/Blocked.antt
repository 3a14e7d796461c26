-- ===== src/Io/Read/Blocked.antt =====
-- `resume_read` of src/io/client_base.cpp on a connection that has no bytes: it would block, it is
-- broken, or its stream is at the end.
use theme_srv.Common.{
  ℕ, suc, ◌+◌, ◌-◌, ◌^◌, ◌<◌, ◌≡◌, refl, ap, ◌∙◌, inr, true, false, some, List, [], ◌∷◌, ◌++◌,
  Bytes, length, length-append, arith, length_zero, min, lt→ltb, read_at, write_at, read_at-append,
  write_at-append,
}
use theme_srv.Protocol.NetStruct.{NetField, NetStruct, is_fixed, field_sz, total_sz, size}
use theme_srv.Io.Cipher.{Cipher, IsStream}
use theme_srv.Io.Socket.{Socket, IoResult, read, would_block, io_error, transferred, shutdown}
use theme_srv.Io.ClientBase.{ReadState, ClientBase}
use theme_srv.Io.Fields.Wire.{calc_field_sz_fixed}
use theme_srv.Io.Read.{returns, repeats, scatter, settle, received, pass}
use theme_srv.Io.Read.Scatter.{at_field}
use theme_srv.Io.Read.Buffer.{held, room, alloc_buf-Allocated}
use theme_srv.Io.Read.Passes.{IsAt}
use theme_srv.Io.Read.Wanting.{Wants}

module _ {ev : Cipher} (ns : NetStruct) where
  -- A round up to what `read` gives.
  pub pass-received :
      (cli : ClientBase ev) (i : ℕ) (p : Bytes) (r : IoResult) (sock : Socket)
      → IsAt ns i p cli
      → (w : Wants ns i p cli) → read cli.socket w.number ≡ (r, sock)
      → (st : ReadState) × (y : Bytes) × (st.struct ≡ some ns)
        × (st.field ≡ i)
        × (st.offset ≡ 0)
        × (st.bufsz ≡ room ns)
        × (length p + length y ≡ room ns)
        × (st.buf ≡ some (p ++ y))
        × (pass cli ≡ received (record cli { socket = sock }) ns st (p ++ y) (length p) r)
  unfolding pass
  pass-received cli i p r sock at w got =
      let (st, alloc, kept) =
        alloc_buf-Allocated p cli.reading (total_sz ns.fields) at.holds at.no_larger in
      let all : w.number - min w.number cli.reading.offset ≡ w.number =
        omega (arith, at.offset_is) in
      let some_left = lt→ltb 0 w.number w.positive in
      (
        st,
        kept.rest,
        kept.same_struct ∙ at.struct_is,
        kept.same_field ∙ at.field_is,
        kept.same_offset ∙ at.offset_is,
        kept.bufsz_is,
        kept.length_is,
        kept.buf_is,
        simp (at.struct_is, at.field_is)
            (simp (w.so_far, w.wanted) (simp (all, some_left, alloc, kept.buf_is, got))),
      )

  place_kept :
      (i : ℕ) (p y : Bytes) (st : ReadState) (cli : ClientBase ev)
      → cli.reading ≡ st
      → st.struct ≡ some ns
      → st.field ≡ i
      → st.offset ≡ 0
      → st.bufsz ≡ room ns
      → length p + length y ≡ room ns
      → st.buf ≡ some (p ++ y)
      → IsAt ns i p cli
  place_kept i p y st cli e named place start sized wide buf = record {
    struct_is = ap (λ r. r.struct) e ∙ named;
    field_is = ap (λ r. r.field) e ∙ place;
    offset_is = ap (λ r. r.offset) e ∙ start;
    holds =
        held y (ap (λ r. r.buf) e ∙ buf)
          (ap (λ r. r.bufsz) e ∙ sized ∙ omega (arith, length-append p y));
    no_larger = inr (omega (arith, ap (λ (r : ReadState). r.bufsz) e));
  }

  -- What a call that gets nothing leaves: the reader where it was, and the streams.
  pub record Idles (i : ℕ) (p : Bytes) (sock : Socket) (cli cli' : ClientBase ev) : Type 0 where
    pub is_at : IsAt ns i p cli'
    pub socket_is : cli'.socket ≡ sock
    pub decrypt_is : cli'.decrypt ≡ cli.decrypt
    pub encrypt_is : cli'.encrypt ≡ cli.encrypt
    pub writes_are : cli'.writes ≡ cli.writes

  pub pass-would_block :
      (cli : ClientBase ev) (i : ℕ) (p : Bytes) (sock : Socket)
      → IsAt ns i p cli
      → (w : Wants ns i p cli) → read cli.socket w.number ≡ (would_block, sock)
      → (cli' : ClientBase ev) × (pass cli ≡ some (returns false cli')) × Idles i p sock cli cli'
  unfolding received
  pass-would_block cli i p sock at w got =
      let (st, y, named, place, start, sized, wide, buf, call) =
        pass-received cli i p would_block sock at w got in
      (
        record cli { socket = sock; reading = st },
        call,
        record {
          is_at = place_kept i p y st _ refl named place start sized wide buf;
          socket_is = refl;
          decrypt_is = refl;
          encrypt_is = refl;
          writes_are = refl;
        },
      )

  pub pass-failed :
      (cli : ClientBase ev) (i : ℕ) (p : Bytes) (sock : Socket)
      → IsAt ns i p cli
      → (w : Wants ns i p cli) → read cli.socket w.number ≡ (io_error, sock)
      → (cli' : ClientBase ev) × (pass cli ≡ some (returns false cli'))
        × Idles i p (shutdown sock) cli cli'
  unfolding received
  pass-failed cli i p sock at w got =
      let (st, y, named, place, start, sized, wide, buf, call) =
        pass-received cli i p io_error sock at w got in
      (
        record cli { socket = shutdown sock; reading = st },
        call,
        record {
          is_at = place_kept i p y st _ refl named place start sized wide buf;
          socket_is = refl;
          decrypt_is = refl;
          encrypt_is = refl;
          writes_are = refl;
        },
      )

module _ {ev : Cipher} (law : IsStream ev) (ns : NetStruct) where
  -- The third loop, at a fixed field, with no bytes at all.
  scatter_empty :
      (pre : List NetField) (f : NetField) (fs : List NetField) (p y : Bytes) (left : ℕ)
      (ctx : ev.Ctx)
      → ns.fields ≡ pre ++ f ∷ fs
      → is_fixed f.type ≡ true
      → field_sz f < 2 ^ 32
      → 0 < field_sz f
      → scatter ev ns [] (suc left) (length p) 0 0 (at_field (length pre) (p ++ y) ctx)
        ≡ some (false, at_field (length pre) (p ++ y) ctx)
  unfolding scatter
  scatter_empty pre f fs p y left ctx eq fx small pos =
      let call = calc_field_sz_fixed ns pre f fs (some (p ++ y, length p)) eq fx small in
      let got : read_at [] 0 0 ≡ some [] = read_at-append [] [] [] in
      let empty = length_zero (ev.update ctx []) (law.length-update ctx []) in
      let put : write_at (p ++ y) (length p) [] ≡ some (p ++ y) = write_at-append p [] y [] refl in
      ground (arith, call, got, empty, put, law.advance-nil ctx)

  pub pass-hangup :
      (cli : ClientBase ev) (pre : List NetField) (f : NetField) (fs : List NetField) (p : Bytes)
      → IsAt ns (length pre) p cli
      → (w : Wants ns (length pre) p cli) → ns.fields ≡ pre ++ f ∷ fs
      → is_fixed f.type ≡ true
      → field_sz f < 2 ^ 32
      → 0 < field_sz f
      → read cli.socket w.number ≡ (transferred [], cli.socket)
      → (cli' : ClientBase ev) × (pass cli ≡ some (repeats cli'))
        × Idles ns (length pre) p cli.socket cli cli'
  unfolding received settle
  pass-hangup cli pre f fs p at w eq fx small pos got =
      let (st, y, named, place, start, sized, wide, buf, call) =
        pass-received ns cli (length pre) p (transferred []) cli.socket at w got in
      let count : size ns - length pre ≡ suc (length fs) =
        omega (arith, ap length eq, length-append pre (f ∷ fs)) in
      let empty = scatter_empty pre f fs p y (length fs) cli.decrypt eq fx small pos in
      let st' : ReadState = record st { field = length pre; offset = 0; buf = some (p ++ y) } in
      (
        record cli { reading = st' },
        call ∙ simp (place, start) (simp (count, empty)),
        record {
          is_at = place_kept ns (length pre) p y st' _ refl named refl refl sized wide refl;
          socket_is = refl;
          decrypt_is = refl;
          encrypt_is = refl;
          writes_are = refl;
        },
      )
