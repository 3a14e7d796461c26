-- ===== src/Io/Read/Partway.antt =====
-- A round of `resume_read` of src/io/client_base.cpp in the last field of a structure, a fixed one of
-- which some bytes have been read.
use theme_srv.Common.{
  ℕ, ◌+◌, ◌-◌, ◌^◌, ◌≤◌, ◌<◌, ◌≡◌, refl, ap, sym, ◌∙◌, true, false, some, List, [], ◌∷◌, ◌++◌,
  Bytes, length, length-append, arith, append-nil, append_assoc, min, lt→ltb, take, drop,
  take-append-drop, length-take, length-drop, read_at, write_at, read_at-append, write_at-append,
  replicate, length-replicate, inr,
}
use theme_srv.Protocol.NetStruct.{NetField, NetStruct, is_fixed, field_sz, total_sz, size}
use theme_srv.Protocol.Message.{IsFixedRun, nil, cons}
use theme_srv.Io.Cipher.{Cipher, IsStream}
use theme_srv.Io.Socket.{Arrival, segment}
use theme_srv.Io.ClientBase.{ClientBase}
use theme_srv.Io.Fields.Wire.{calc_field_sz_fixed}
use theme_srv.Io.Read.{Cursor, repeats, read_so_far, to_read, need, scatter, settle, pass}
use theme_srv.Io.Read.Buffer.{
  room_enough, Holds, held, NoLarger, room, alloc_buf-Allocated, read_shorter,
}
use theme_srv.Io.Read.Passes.{loops-run}

-- The client has read `k` bytes of field `i`, and stands behind `p`.
pub record IsPartway {ev : Cipher} (ns : NetStruct) (i k : ℕ) (p : Bytes) (cli : ClientBase ev)
    : Type 0 where
  pub struct_is : cli.reading.struct ≡ some ns
  pub field_is : cli.reading.field ≡ i
  pub offset_is : cli.reading.offset ≡ k
  pub holds : Holds p cli.reading
  pub no_larger : NoLarger cli.reading (room ns)

module _ {ev : Cipher} where
  abbrev partway : ℕ → ℕ → Bytes → ev.Ctx → Cursor ev
  partway i k buf ctx = record { field = i; offset = k; buf = buf; ctx = ctx }

module _ {ev : Cipher} (law : IsStream ev) (ns : NetStruct) (pre : List NetField) (f : NetField)
    (eq : ns.fields ≡ pre ++ f ∷ []) (fx : is_fixed f.type ≡ true)
    (bound : field_sz f < 2 ^ 32) where
  -- The third loop decrypts a piece to its place, and breaks off.
  scatter_piece :
      (p y b : Bytes) (k : ℕ) (ctx : ev.Ctx)
      → length b < field_sz f
      → k + length b ≤ field_sz f
      → field_sz f ≤ length y
      → (y' : Bytes) × (length y' ≡ length y)
        × (scatter ev ns b 1 (length p) 0 (length b) (partway (length pre) k (p ++ y) ctx)
            ≡ some (false, partway (length pre) (k + length b) (p ++ y') (ev.advance ctx b)))
  unfolding scatter
  scatter_piece p y b k ctx short fits wide =
      let u = ev.update ctx b in
      let same = law.length-update ctx b in
      let front = take k y in
      let old = take (length b) (drop k y) in
      let back = drop (length b) (drop k y) in
      let cut : y ≡ front ++ (old ++ back) =
        sym (take-append-drop k y)
        ∙ ap (◌++◌ front) (sym (take-append-drop (length b) (drop k y))) in
      let front_len : length front ≡ k = omega (arith, length-take k y) in
      let old_len : length old ≡ length b =
        omega (arith, length-take (length b) (drop k y), length-drop k y) in
      let call = calc_field_sz_fixed ns pre f [] (some (p ++ y, length p)) eq fx bound in
      let got : read_at b 0 (length b) ≡ some b =
        ap (λ t. read_at t 0 (length b)) (sym (append-nil b)) ∙ read_at-append [] b [] in
      let place : length p + k ≡ length (p ++ front) = omega (arith, length-append p front) in
      let put : write_at (p ++ y) (length p + k) u ≡ some (p ++ (front ++ (u ++ back))) =
        ap (λ t. write_at (p ++ t) (length p + k) u) cut
        ∙ ap (λ t. write_at t (length p + k) u) (sym (append_assoc p front (old ++ back)))
        ∙ ap (λ t. write_at ((p ++ front) ++ (old ++ back)) t u) place
        ∙ write_at-append (p ++ front) old back u (omega arith)
        ∙ ap some (append_assoc p front (u ++ back)) in
      let least : min (field_sz f) (length b) ≡ length b = omega arith in
      let len : length (front ++ (u ++ back)) ≡ length y = omega (
        arith,
        ap length cut,
        length-append front (u ++ back),
        length-append u back,
        length-append front (old ++ back),
        length-append old back,
      ) in
      (front ++ (u ++ back), len, ground (arith, call, got, same, put, least))

  module _ (small : total_sz ns.fields < 2 ^ 32) (p : Bytes) (hp : IsFixedRun pre p) where
    -- The first two loops ask for the whole field, wherever in it the client stands.
    loops_last :
        (cli : ClientBase ev)
        → (size ns - length pre ≡ 1)
          × (total_sz ns.fields ≡ length p + field_sz f)
          × (read_so_far ns cli.reading.buf (length pre) 0 0 ≡ some (length p))
          × (to_read ns cli.reading.buf
                (length p)
                (length pre)
                (size ns - length pre)
                (length pre)
                true
                (length p)
                0
              ≡ some (need (total_sz ns.fields) (field_sz f)))
    unfolding to_read
    loops_last cli =
        let zeros : Bytes = replicate (field_sz f) 0 in
        let len : length (zeros ++ []) ≡ field_sz f =
          ap length (append-nil zeros) ∙ length-replicate (field_sz f) 0 in
        let run : IsFixedRun (f ∷ []) (zeros ++ []) =
          cons zeros fx bound (length-replicate (field_sz f) 0) nil in
        let (sizes, total, first, second) =
          loops-run law ns small cli.reading.buf pre (f ∷ []) [] p (zeros ++ []) hp run eq in
        let all : length p + length (zeros ++ []) ≡ total_sz ns.fields = omega arith in
        (
          omega arith,
          omega arith,
          first,
          second
              ∙ ap (λ k. some (need k (length (zeros ++ [])))) all
              ∙ ap (λ k. some (need (total_sz ns.fields) k)) len,
        )

    -- A round that reads a piece.
    pub pass_piece :
        (cli : ClientBase ev) (k : ℕ) (b : Bytes) (rest : List Arrival)
        → IsPartway ns (length pre) k p cli
        → 0 < length b
        → length b < field_sz f
        → k + length b ≤ field_sz f
        → cli.socket.arrivals ≡ segment b ∷ rest
        → (cli' : ClientBase ev) × (pass cli ≡ some (repeats cli'))
          × IsPartway ns (length pre) (k + length b) p cli'
          × (cli'.socket.arrivals ≡ rest)
    unfolding pass settle
    pass_piece cli k b rest at pos short fits arr =
        let (one, total, so_far, wanted) = loops_last cli in
        let (st, alloc, kept) =
          alloc_buf-Allocated p cli.reading (total_sz ns.fields) at.holds at.no_larger in
        let y = kept.rest in
        let left = field_sz f - k in
        let all : field_sz f - min (field_sz f) cli.reading.offset ≡ left =
          omega (arith, at.offset_is) in
        let some_left = lt→ltb 0 left (omega arith) in
        let got = read_shorter cli.socket left b rest arr (omega arith) in
        let place = kept.same_field ∙ at.field_is in
        let start = kept.same_offset ∙ at.offset_is in
        let wide : field_sz f ≤ length y = omega (arith, room_enough ns small, kept.length_is) in
        let (y', len, scattered) = scatter_piece p y b k cli.decrypt short fits wide in
        let cli' : ClientBase ev = record cli {
          socket = record (cli.socket) { arrivals = rest };
          reading = record st { field = length pre; offset = k + length b; buf = some (p ++ y') };
          decrypt = ev.advance cli.decrypt b;
        } in
        (
          cli',
          simp (at.struct_is, at.field_is)
              (simp (so_far, wanted)
                (simp (all, some_left, alloc, kept.buf_is, got, place, start, one, scattered))),
          record {
            struct_is = kept.same_struct ∙ at.struct_is;
            field_is = refl;
            offset_is = refl;
            holds =
                held y' refl (kept.bufsz_is ∙ omega (arith, kept.length_is, length-append p y'));
            no_larger = inr (omega (arith, kept.bufsz_is));
          },
          refl,
        )

    -- A round that finds nothing left to read: the field is complete, and is not noticed.
    pub pass_complete :
        (cli : ClientBase ev)
        → IsPartway ns (length pre) (field_sz f) p cli
        → (cli' : ClientBase ev) × (pass cli ≡ some (repeats cli'))
          × IsPartway ns (length pre) (field_sz f) p cli'
    unfolding pass
    pass_complete cli at =
        let (one, total, so_far, wanted) = loops_last cli in
        let (st, alloc, kept) =
          alloc_buf-Allocated p cli.reading (total_sz ns.fields) at.holds at.no_larger in
        let all : field_sz f - min (field_sz f) cli.reading.offset ≡ 0 =
          omega (arith, at.offset_is) in
        (
          record cli { reading = st },
          simp (at.struct_is, at.field_is) (simp (so_far, wanted) (simp (all, alloc))),
          record {
            struct_is = kept.same_struct ∙ at.struct_is;
            field_is = kept.same_field ∙ at.field_is;
            offset_is = kept.same_offset ∙ at.offset_is;
            holds =
                held kept.rest kept.buf_is
                  (kept.bufsz_is ∙ omega (arith, kept.length_is, length-append p kept.rest));
            no_larger = inr (omega (arith, kept.bufsz_is));
          },
        )
