-- ===== src/Io/Read/Overflow.antt =====
-- What `handle_read` of src/io/client_base.cpp does with a varying field for which its buffer has no
-- room.
use theme_srv.Common.{
  ℕ, suc, ◌+◌, ◌-◌, ◌*◌, ◌^◌, ◌<◌, ◌≡◌, refl, ap, sym, ◌∙◌, true, none, some, List, [], ◌∷◌, ◌++◌,
  Bytes, length, length-append, arith, append_assoc, append-nil, read_at, read_at-append, write_at,
  write_at_past,
}
use theme_srv.Protocol.NetStruct.{NetField, NetStruct, total_sz, size}
use theme_srv.Protocol.Message.{IsFixedRun, nil, IsFixedRun-append, Announces, Announces-IsFixedRun}
use theme_srv.Io.Cipher.{Cipher, IsStream}
use theme_srv.Io.Socket.{Arrival, segment, transferred}
use theme_srv.Io.ClientBase.{ReadState, ClientBase}
use theme_srv.Io.Fields.Wire.{calc_field_sz_counted}
use theme_srv.Io.Read.{scatter, pass, trap, returns, received, settle, resume_read, handle_read}
use theme_srv.Io.Read.ScatterVaried.{scatter_counted}
use theme_srv.Io.Read.Wanting.{Wants}
use theme_srv.Io.Read.Blocked.{pass-received}
use theme_srv.Io.Read.Scatter.{at_field}
use theme_srv.Io.Read.Buffer.{room, room_enough, read-segment}
use theme_srv.Io.Read.Passes.{IsAt, loops-run, taken}
use theme_srv.Io.Read.Counted.{alloc_var, length_size, to_read_var, has_buffer}

module _ {ev : Cipher} (law : IsStream ev) (ns : NetStruct)
    (small : total_sz ns.fields < 2 ^ 32) where
  -- The bytes of the field do not fit behind its size field.
  scatter_past :
      (pre : List NetField) (s v : NetField) (e q b y : Bytes) (n : ℕ) (ctx : ev.Ctx)
      → ns.fields ≡ pre ++ s ∷ v ∷ []
      → Announces s v b n
      → length e ≡ v.elementsz * n
      → length y < length e
      → scatter ev ns e 1
          (length q + length b)
          0
          (length e)
          (at_field (suc (length pre)) (q ++ (b ++ y)) ctx)
        ≡ none
  unfolding scatter
  scatter_past pre s v e q b y n ctx eq a le long =
      let call = calc_field_sz_counted ns pre s v q b y n eq a in
      let got : read_at e 0 (length e) ≡ some e =
        ap (λ k. read_at k 0 (length e)) (sym (append-nil e)) ∙ read_at-append [] e [] in
      let same = law.length-update ctx e in
      let put : write_at (q ++ (b ++ y)) (length q + length b) (ev.update ctx e) ≡ none =
        write_at_past (q ++ (b ++ y)) (length q + length b) (ev.update ctx e)
          (omega (arith, length-append q (b ++ y), length-append b y)) in
      ground (arith, call, got, same, put)

  -- What the code from the call of `read` on does at such a field, as it runs on the buffer that was
  -- allocated, and as it runs on that buffer with memory behind it.
  pub record WritesPast (fuel : ℕ) (cli : ClientBase ev) (p e x over tail : Bytes)
      (rest : List Arrival) : Type 0 where
    pub state : ReadState
    pub pad : Bytes
    pub state_is : state.buf ≡ some (p ++ pad)
    pub bufsz_is : state.bufsz ≡ length (p ++ pad)
    pub ends_past : length (p ++ pad) + length over ≡ length p + length e
    pub runs : pass cli ≡ received (taken cli x rest) ns state (p ++ pad) (length p) (transferred e)
    pub overwrites :
        received
          (taken cli x rest)
          ns
          state
          ((p ++ pad) ++ (over ++ tail))
          (length p)
          (transferred e)
        ≡ some (
            returns true (record (taken cli x rest) {
              reading = record state {
                field = size ns;
                buf = some (p ++ (ev.update cli.decrypt e ++ tail));
              };
              decrypt = ev.advance cli.decrypt e;
            }))
    pub faults : handle_read (suc fuel) cli ≡ trap

  received_past :
      (cli : ClientBase ev) (st : ReadState) (pre : List NetField) (s v : NetField)
      (q b e y over tail : Bytes) (n : ℕ)
      → ns.fields ≡ pre ++ s ∷ v ∷ []
      → Announces s v b n
      → length e ≡ v.elementsz * n
      → length y + length over ≡ length e
      → 0 < length over
      → st.field ≡ suc (length pre)
      → st.offset ≡ 0
      → (received cli ns st ((q ++ b) ++ y) (length (q ++ b)) (transferred e) ≡ none)
        × (received cli ns st (((q ++ b) ++ y) ++ (over ++ tail)) (length (q ++ b)) (transferred e)
            ≡ some (
                returns true (record cli {
                  reading = record st {
                    field = size ns;
                    buf = some ((q ++ b) ++ (ev.update cli.decrypt e ++ tail));
                  };
                  decrypt = ev.advance cli.decrypt e;
                })))
  unfolding received settle
  received_past cli st pre s v q b e y over tail n eq a le long pos at start =
      let count : size ns ≡ length pre + 2 = ap length eq ∙ length-append pre (s ∷ v ∷ []) in
      let one : size ns - suc (length pre) ≡ 1 = omega arith in
      let ends : suc (length pre) + 1 ≡ size ns = omega arith in
      let place = length-append q b in
      let fails = scatter_past pre s v e q b y n cli.decrypt eq a le (omega arith) in
      let goes =
        scatter_counted law ns pre s v [] e q b (y ++ over) tail n (suc (length pre)) cli.decrypt eq
          a le (omega (arith, length-append y over)) refl in
      let memory : ((q ++ b) ++ y) ++ (over ++ tail) ≡ q ++ (b ++ ((y ++ over) ++ tail)) =
        simp append_assoc in
      (
        rw (at, start, one, place, append_assoc q b y, fails) refl,
        rw (at, start, one, place, memory, goes)
            (rw (← ends, append_assoc q b (ev.update cli.decrypt e ++ tail)) refl),
      )

  -- Suppose that a cipher works byte by byte and that a client is about to read the last field
  -- of a structure of less than 4 GiB, whose size field announces `n` elements, at most 1024,
  -- and that the field has arrived and is longer, by the bytes `over`, than the room that is
  -- left in the buffer. What `handle_read` does is then a fault, and not by an assertion: behind
  -- the allocation the round is the code from the call of `read` on, run on the buffer, and the
  -- same code, run on the buffer with memory behind it that begins with `over`, ends with a
  -- whole message, and has put the end of the decrypted field in the place of `over`.
  pub handle_read-past :
      (fuel : ℕ) (cli : ClientBase ev) (pre : List NetField) (s v : NetField)
      (q b e x over tail : Bytes) (n : ℕ) (rest : List Arrival)
      → IsAt ns (suc (length pre)) (q ++ b) cli
      → IsFixedRun pre q
      → Announces s v b n
      → ns.fields ≡ pre ++ s ∷ v ∷ []
      → length e ≡ v.elementsz * n
      → length (q ++ b) + length e ≡ room ns + length over
      → 0 < length over
      → cli.socket.arrivals ≡ segment (e ++ x) ∷ rest
      → WritesPast fuel cli (q ++ b) e x over tail rest
  unfolding handle_read resume_read
  handle_read-past fuel cli pre s v q b e x over tail n rest at hp a eq len long pos arr =
      let hr = IsFixedRun-append hp (Announces-IsFixedRun s v b n a) in
      let (y₀, buf_is) =
        has_buffer law ns small q b cli.reading (length_size law ns small s v b n a) at.holds in
      let (total, place, count) = alloc_var law ns small pre s v q b hr eq in
      let eq' : ns.fields ≡ (pre ++ s ∷ []) ++ ([] ++ v ∷ []) =
        eq ∙ sym (append_assoc pre (s ∷ []) (v ∷ [])) in
      let (sizes, sum, first, second) =
        loops-run law ns small cli.reading.buf (pre ++ s ∷ []) [] (v ∷ []) (q ++ b) [] hr nil eq' in
      let pos_len : 0 < v.elementsz * n = omega (arith, room_enough ns small) in
      let w : Wants ns (suc (length pre)) (q ++ b) cli = record {
        number = v.elementsz * n;
        so_far = rw (← place) first;
        wanted =
            to_read_var law ns small cli.reading.buf pre s v q b y₀ n (suc (length pre)) buf_is hr a
              eq refl;
        positive = omega (arith, pos_len);
      } in
      let (st, y, named, field_is, start, sized, wide, st_buf, call) =
        pass-received ns cli (suc (length pre)) (q ++ b) (transferred e) (taken cli x rest).socket
          at w (read-segment cli.socket e x rest (v.elementsz * n) arr (sym len)) in
      let (fails, goes) =
        received_past (taken cli x rest) st pre s v q b e y over tail n eq a len (omega arith) pos
          field_is start in
      let stops = call ∙ fails in
      record {
        state = st;
        pad = y;
        state_is = st_buf;
        bufsz_is = omega (arith, length-append (q ++ b) y);
        ends_past = omega (arith, length-append (q ++ b) y);
        runs = call;
        overwrites = goes;
        faults = rw stops refl;
      }
