-- ===== src/Io/Read/Passes.antt =====
-- The rounds of `resume_read` over a message that has arrived whole.
use theme_srv.Common.{
  Option, ◌>>=◌, ℕ, ◌+◌, ◌-◌, ◌^◌, ◌≤◌, ◌<◌, ◌≡◌, refl, ap, sym, ◌∙◌, Bool, true, Option, some,
  List, [], ◌∷◌, ◌++◌, Bytes, length, length-append, arith, append-nil, min, lt→ltb, take, drop,
  take-append-drop, length-take, length-drop,
}
use theme_srv.Protocol.NetStruct.{NetField, NetStruct, total_sz, size}
use theme_srv.Protocol.Message.{IsFixedRun}
use theme_srv.Io.Cipher.{Cipher, IsStream}
use theme_srv.Io.Socket.{Arrival, segment}
use theme_srv.Io.ClientBase.{ReadState, ClientBase}
use theme_srv.Io.Read.{Cursor, returns, read_so_far, to_read, need, scatter, settle, pass}
use theme_srv.Io.Read.Loops.{read_so_far-run, to_read-run}
use theme_srv.Io.Read.Scatter.{at_field, scatter-run}
use theme_srv.Io.Read.Buffer.{
  Holds, NoLarger, room, alloc_buf-Allocated, leftover, read-segment, total_sz-append, total_sz-run,
}

-- The client is about to read field `i`, with the bytes `p` before it in its buffer.
pub record IsAt {ev : Cipher} (ns : NetStruct) (i : ℕ) (p : Bytes) (cli : ClientBase ev)
    : Type 0 where
  pub struct_is : cli.reading.struct ≡ some ns
  pub field_is : cli.reading.field ≡ i
  pub offset_is : cli.reading.offset ≡ 0
  pub holds : Holds p cli.reading
  pub no_larger : NoLarger cli.reading (room ns)

-- The client behind a read that left `x` of a segment.
module _ {ev : Cipher} where
  abbrev pub taken : ClientBase ev → Bytes → List Arrival → ClientBase ev
  taken cli x rest = record cli { socket = record (cli.socket) { arrivals = leftover x rest } }

module _ {ev : Cipher} (law : IsStream ev) (ns : NetStruct)
    (small : total_sz ns.fields < 2 ^ 32) where
  -- A round that asks for `n` bytes and finds them in one segment: what is left is the third loop.
  pub pass-fetch :
      (cli : ClientBase ev) (i n left : ℕ) (p e x : Bytes) (rest : List Arrival)
      → IsAt ns i p cli
      → read_so_far ns cli.reading.buf i 0 0 ≡ some (length p)
      → to_read ns cli.reading.buf (length p) i (size ns - i) i true (length p) 0
        ≡ some (need (total_sz ns.fields) n)
      → 0 < n
      → n ≡ length e
      → size ns - i ≡ left
      → cli.socket.arrivals ≡ segment (e ++ x) ∷ rest
      → (st : ReadState) × (y : Bytes) × (length p + length y ≡ room ns)
        × (st.struct ≡ some ns)
        × (st.bufsz ≡ room ns)
        × ((res : Option (Bool × Cursor ev))
            → scatter ev ns e left (length p) 0 (length e) (at_field i (p ++ y) cli.decrypt) ≡ res
            → pass cli ≡ (res >>= λ r. some (settle (taken cli x rest) st r)))
  unfolding pass
  pass-fetch cli i n left p e x rest at so_far wanted pos len togo arr =
      let (st, alloc, kept) =
        alloc_buf-Allocated p cli.reading (total_sz ns.fields) at.holds at.no_larger in
      let got = read-segment cli.socket e x rest n arr len in
      (
        st,
        kept.rest,
        kept.length_is,
        kept.same_struct ∙ at.struct_is,
        kept.bufsz_is,
        λ res h.
            simp (at.struct_is, at.field_is)
              (simp (so_far, wanted)
                (let all : n - min n cli.reading.offset ≡ n = omega (arith, at.offset_is) in
                  let some_left = lt→ltb 0 n pos in
                  let place = kept.same_field ∙ at.field_is in
                  let start = kept.same_offset ∙ at.offset_is in
                  simp (all, some_left, alloc, kept.buf_is, got, place, start, togo, h))),
      )

-- What a whole message leaves behind: it stands in the buffer behind `p`, and the stream goes on
-- with `x`. Nothing has been written.
pub record Received {ev : Cipher} (ns : NetStruct) (p e x : Bytes) (rest : List Arrival)
    (cli cli' : ClientBase ev) : Type 0 where
  pub pad : Bytes
  pub buf_is : cli'.reading.buf ≡ some (p ++ (ev.update cli.decrypt e ++ pad))
  pub bufsz_is : cli'.reading.bufsz ≡ length p + length e + length pad
  pub room_is : cli'.reading.bufsz ≡ room ns
  pub decrypt_is : cli'.decrypt ≡ ev.advance cli.decrypt e
  pub socket_is : cli'.socket ≡ record (cli.socket) { arrivals = leftover x rest }
  pub writes_are : cli'.writes ≡ cli.writes
  pub encrypt_is : cli'.encrypt ≡ cli.encrypt

module _ {ev : Cipher} (law : IsStream ev) (ns : NetStruct)
    (small : total_sz ns.fields < 2 ^ 32) where
  -- The loops before the call of `read`, at a row of fixed fields.
  pub loops-run :
      (buf : Option Bytes) (pre run more : List NetField) (p r : Bytes)
      → IsFixedRun pre p
      → IsFixedRun run r
      → ns.fields ≡ pre ++ (run ++ more)
      → (length pre + length run + length more ≡ size ns)
        × (length p + length r + total_sz more ≡ total_sz ns.fields)
        × (read_so_far ns buf (length pre) 0 0 ≡ some (length p))
        × (to_read ns buf
              (length p)
              (length pre)
              (size ns - length pre)
              (length pre)
              true
              (length p)
              0
            ≡ to_read ns buf
                (length p)
                (length pre)
                (length more)
                (length pre + length run)
                true
                (length p + length r)
                (length r))
  loops-run buf pre run more p r hp hr eq =
      let sizes : length pre + length run + length more ≡ size ns =
        omega (arith, ap length eq, length-append pre (run ++ more), length-append run more) in
      let total : length p + length r + total_sz more ≡ total_sz ns.fields = omega (
        arith,
        ap total_sz eq,
        total_sz-append pre (run ++ more),
        total_sz-append run more,
        total_sz-run hp,
        total_sz-run hr,
      ) in
      let first = read_so_far-run ns buf (run ++ more) [] pre p 0 0 hp eq refl (omega arith) in
      let second =
        to_read-run ns buf more pre run r (length p) (length pre) (length pre) (length p) 0 hr eq
          refl (omega arith) (omega arith) in
      let count : size ns - length pre ≡ length (run ++ more) =
        omega (arith, length-append run more) in
      (sizes, total, ground (arith, first), rw count (ground (arith, second)))

  -- All the fields that are left are fixed: one round reads them.
  pub pass-fixed :
      (cli : ClientBase ev) (pre : List NetField) (f : NetField) (run : List NetField)
      (p r e x : Bytes) (rest : List Arrival)
      → IsAt ns (length pre) p cli
      → IsFixedRun pre p
      → IsFixedRun (f ∷ run) r
      → ns.fields ≡ pre ++ f ∷ run
      → 0 < length r
      → length e ≡ length r
      → length p + length r ≤ room ns
      → cli.socket.arrivals ≡ segment (e ++ x) ∷ rest
      → (cli' : ClientBase ev) × (pass cli ≡ some (returns true cli'))
        × Received ns p e x rest cli cli'
  unfolding to_read settle
  pass-fixed cli pre f run p r e x rest at hp hr eq pos len fits arr =
      let eq' : ns.fields ≡ pre ++ (f ∷ run ++ []) =
        eq ∙ ap (◌++◌ pre) (sym (append-nil (f ∷ run))) in
      let (sizes, total, first, second) =
        loops-run cli.reading.buf pre (f ∷ run) [] p r hp hr eq' in
      let enough : length p + length r ≡ total_sz ns.fields = omega arith in
      let count : size ns - length pre ≡ length (f ∷ run ++ []) =
        omega (arith, ap length (append-nil (f ∷ run))) in
      let (st, y, wide, named, sized, go) =
        pass-fetch law ns small cli (length pre) (length r) _ p e x rest at first
          (second ∙ ap (λ k. some (need k (length r))) enough) pos (sym len) count arr in
      let z = take (length e) y in
      let y' = drop (length e) y in
      let zl = length-take (length e) y in
      let yl = length-drop (length e) y in
      let done =
        scatter-run law ns f run [] pre r [] e [] p z y' {chunk = e} {buf = p ++ y}
          {buf' = p ++ (ev.update cli.decrypt e ++ y')} {mempos = length p}
          {mempos' = length p + length e} {wirepos = 0} {wirepos' = length e} {i = length pre}
          {i' = length pre + length (f ∷ run)} {nread = length e} {nread' = 0} {ctx = cli.decrypt}
          {ctx' = ev.advance cli.decrypt e} hr eq' len (omega arith) refl (sym (append-nil e)) refl
          refl (omega arith) (ap (◌++◌ p) (sym (take-append-drop (length e) y))) refl (omega arith)
          refl refl refl refl in
      let cli' : ClientBase ev = record (taken cli x rest) {
        reading = record st {
          field = length pre + length (f ∷ run);
          offset = 0;
          buf = some (p ++ (ev.update cli.decrypt e ++ y'));
        };
        decrypt = ev.advance cli.decrypt e;
      } in
      (
        cli',
        go (some (true, at_field (length pre + length (f ∷ run)) _ _)) done,
        record {
          pad = y';
          buf_is = refl;
          bufsz_is = sized ∙ omega arith;
          room_is = sized;
          decrypt_is = refl;
          socket_is = refl;
          writes_are = refl;
          encrypt_is = refl;
        },
      )
