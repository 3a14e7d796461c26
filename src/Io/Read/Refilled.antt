-- ===== src/Io/Read/Refilled.antt =====
-- A round of `resume_read` of src/io/client_base.cpp on a segment that holds whole fixed fields, with
-- more to come.
use theme_srv.Common.{
  ℕ, suc, ◌+◌, ◌-◌, ◌^◌, ◌≤◌, ◌<◌, ◌≡◌, refl, ap, sym, ◌∙◌, inr, true, false, some, List, [], ◌∷◌,
  ◌++◌, Bytes, length, length-append, arith, append-nil, append_assoc, length_zero, take, drop,
  take-append-drop, length-take, length-drop, read_at, write_at, read_at-append, write_at-append,
}
use theme_srv.Protocol.NetStruct.{NetField, NetStruct, is_fixed, field_sz, total_sz, size}
use theme_srv.Protocol.Message.{IsMessage, IsFixedRun}
use theme_srv.Io.Cipher.{Cipher, IsStream}
use theme_srv.Io.Socket.{Arrival, segment, transferred}
use theme_srv.Io.ClientBase.{ReadState, ClientBase}
use theme_srv.Io.Fields.Wire.{calc_field_sz_fixed}
use theme_srv.Io.Read.{repeats, scatter, settle, received, pass}
use theme_srv.Io.Read.Scatter.{at_field, scatter-run}
use theme_srv.Io.Read.Buffer.{held, room, read_shorter}
use theme_srv.Io.Read.Passes.{IsAt}
use theme_srv.Io.Read.Wanting.{run-Wants}
use theme_srv.Io.Read.Blocked.{pass-received}
use theme_srv.Io.Read.Varying.{Follows}

module _ {ev : Cipher} (law : IsStream ev) (ns : NetStruct)
    (small : total_sz ns.fields < 2 ^ 32) where
  -- The third loop, at a fixed field, when all bytes are used up.
  scatter_used :
      (pre : List NetField) (g : NetField) (more : List NetField) (p y e : Bytes) (left : ℕ)
      (ctx : ev.Ctx)
      → ns.fields ≡ pre ++ g ∷ more
      → is_fixed g.type ≡ true
      → field_sz g < 2 ^ 32
      → 0 < field_sz g
      → scatter ev ns e (suc left) (length p) (length e) 0 (at_field (length pre) (p ++ y) ctx)
        ≡ some (false, at_field (length pre) (p ++ y) ctx)
  unfolding scatter
  scatter_used pre g more p y e left ctx eq fx bound pos =
      let call = calc_field_sz_fixed ns pre g more (some (p ++ y, length p)) eq fx bound in
      let got : read_at e (length e) 0 ≡ some [] =
        ap (λ k. read_at k (length e) 0) (sym (append-nil e)) ∙ read_at-append e [] [] in
      let empty = length_zero (ev.update ctx []) (law.length-update ctx []) in
      let put : write_at (p ++ y) (length p) [] ≡ some (p ++ y) = write_at-append p [] y [] refl in
      ground (arith, call, got, empty, put, law.advance-nil ctx)

  pub pass-run :
      (cli : ClientBase ev) (pre : List NetField) (f : NetField) (run : List NetField)
      (g : NetField) (more : List NetField) (p e m : Bytes) (rest : List Arrival)
      → IsAt ns (length pre) p cli
      → IsFixedRun pre p
      → IsFixedRun (f ∷ run) e
      → IsMessage (g ∷ more) m
      → ns.fields ≡ pre ++ (f ∷ run ++ g ∷ more)
      → is_fixed g.type ≡ true
      → field_sz g < 2 ^ 32
      → 0 < field_sz g
      → 0 < length m
      → length p + length e ≤ room ns
      → cli.socket.arrivals ≡ segment e ∷ rest
      → (cli' : ClientBase ev) × (pass cli ≡ some (repeats cli'))
        × IsAt ns (length (pre ++ f ∷ run)) (p ++ ev.update cli.decrypt e) cli'
        × Follows e rest cli cli'
  unfolding received settle
  pass-run cli pre f run g more p e m rest at hp hr msg eq fx bound pos some_m fits arr =
      let (w, least) =
        run-Wants law ns small cli pre (f ∷ run) (g ∷ more) p e m hp hr msg eq some_m in
      let (st, y, named, place, start, sized, wide, buf, call) =
        pass-received ns cli (length pre) p (transferred e)
          (record (cli.socket) { arrivals = rest }) at w
          (read_shorter cli.socket w.number e rest arr least) in
      let u = ev.update cli.decrypt e in
      let same = law.length-update cli.decrypt e in
      let z = take (length e) y in
      let y' = drop (length e) y in
      let pre' = pre ++ f ∷ run in
      let count : size ns - length pre ≡ length (f ∷ run ++ g ∷ more) =
        omega (arith, ap length eq, length-append pre (f ∷ run ++ g ∷ more)) in
      let behind : length (p ++ u) ≡ length p + length e = omega (arith, length-append p u) in
      let run_done =
        scatter-run law ns f run (g ∷ more) pre e [] e [] p z y' {chunk = e} {buf = p ++ y}
          {buf' = (p ++ u) ++ y'} {mempos = length p} {mempos' = length (p ++ u)} {wirepos = 0}
          {wirepos' = length e} {i = length pre} {i' = length pre'} {nread = length e} {nread' = 0}
          {ctx = cli.decrypt} {ctx' = ev.advance cli.decrypt e} hr eq refl
          (omega (arith, length-take (length e) y)) refl (sym (append-nil e)) refl refl
          (omega arith) (ap (◌++◌ p) (sym (take-append-drop (length e) y))) behind (omega arith)
          (length-append pre (f ∷ run)) refl (append_assoc p u y') refl in
      let eq' : ns.fields ≡ pre' ++ g ∷ more = eq ∙ sym (append_assoc pre (f ∷ run) (g ∷ more)) in
      let used =
        scatter_used pre' g more (p ++ u) y' e (length more) (ev.advance cli.decrypt e) eq' fx bound
          pos in
      let stops = run_done ∙ used in
      let st' : ReadState = record st {
        field = length pre';
        offset = 0;
        buf = some ((p ++ u) ++ y');
      } in
      (
        record cli {
          socket = record (cli.socket) { arrivals = rest };
          reading = st';
          decrypt = ev.advance cli.decrypt e;
        },
        call ∙ simp (place, start) (simp (count, stops)),
        record {
          struct_is = named;
          field_is = refl;
          offset_is = refl;
          holds =
              held y' refl
                (sized ∙ omega (arith, length-append (p ++ u) y', length-drop (length e) y));
          no_larger = inr (omega (arith, sized));
        },
        record { decrypt_is = refl; socket_is = refl; writes_are = refl; encrypt_is = refl },
      )
