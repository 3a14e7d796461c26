-- ===== src/Io/Read/Announced.antt =====
-- The round of `resume_read` that reads up to the size field of a varying field.
use theme_srv.Common.{
  ℕ, suc, ◌+◌, ◌-◌, ◌*◌, ◌^◌, ◌≤◌, ◌<◌, ◌≡◌, refl, ap, sym, ◌∙◌, inr, Bool, true, false, some, List,
  [], ◌∷◌, ◌++◌, Bytes, length, length-append, arith, append_assoc, append-nil, length_zero, take,
  drop, take-append-drop, length-take, length-drop,
}
use theme_srv.Protocol.NetStruct.{NetField, NetStruct, total_sz, size}
use theme_srv.Protocol.Message.{IsFixedRun, IsFixedRun-append, Announces, Announces-IsFixedRun}
use theme_srv.Io.Cipher.{Cipher, IsStream}
use theme_srv.Io.Socket.{Arrival, segment}
use theme_srv.Io.ClientBase.{ReadState, ClientBase}
use theme_srv.Io.Fields.Wire.{calc_field_sz_unknown}
use theme_srv.Io.Read.{Cursor, returns, repeats, to_read, need, scatter, settle, pass}
use theme_srv.Io.Read.Scatter.{at_field, scatter-run}
use theme_srv.Io.Read.ScatterVaried.{scatter_counted, scatter_pending}
use theme_srv.Io.Read.Buffer.{held, room}
use theme_srv.Io.Read.Passes.{IsAt, taken, pass-fetch, loops-run, Received}
use theme_srv.Io.Read.Counted.{alloc_var, length_size}

module _ {ev : Cipher} (law : IsStream ev) (ns : NetStruct)
    (small : total_sz ns.fields < 2 ^ 32) where
  -- How the round ends: with the message if the field is empty, and else at the field.
  pub record Announced (cli : ClientBase ev) (pre : List NetField) (v : NetField) (n : ℕ)
      (p e x : Bytes) (rest : List Arrival) : Type 0 where
    pub next : ClientBase ev
    pub received : Received ns p e x rest cli next
    pub is_at : IsAt ns (suc (length pre)) (p ++ ev.update cli.decrypt e) next
    pub goes_on : 0 < v.elementsz * n → pass cli ≡ some (repeats next)
    pub ends :
        v.elementsz * n ≡ 0
        → pass cli
          ≡ some (
              returns true
                (record next { reading = record (next.reading) { field = suc (length pre) + 1 } }))

  -- The round up to the third loop, which stands before the varying field, and what becomes of it.
  Announced-of :
      (cli : ClientBase ev) (pre : List NetField) (s v : NetField) (n : ℕ) (p q b e x y : Bytes)
      (rest : List Arrival) (st : ReadState)
      → ns.fields ≡ pre ++ s ∷ v ∷ []
      → Announces s v b n
      → q ++ (b ++ y) ≡ p ++ (ev.update cli.decrypt e ++ y)
      → length p + length e + length y ≡ room ns
      → st.struct ≡ some ns
      → st.bufsz ≡ room ns
      → ((res : Bool × Cursor ev)
          → scatter ev ns e 1
              (length q + length b)
              (length e)
              0
              (at_field (suc (length pre)) (q ++ (b ++ y)) (ev.advance cli.decrypt e))
            ≡ some res
          → pass cli ≡ some (settle (taken cli x rest) st res))
      → Announced cli pre v n p e x rest
  unfolding settle
  Announced-of cli pre s v n p q b e x y rest st eq a regroup wide named sized go =
      let ctx = ev.advance cli.decrypt e in
      let plain = law.length-update cli.decrypt e in
      let next : ClientBase ev = record (taken cli x rest) {
        reading = record st { field = suc (length pre); offset = 0; buf = some (q ++ (b ++ y)) };
        decrypt = ctx;
      } in
      let empty = length_zero (ev.update ctx []) (law.length-update ctx []) in
      let whole : some (q ++ (b ++ y)) ≡ some ((p ++ ev.update cli.decrypt e) ++ y) =
        ap some (regroup ∙ sym (append_assoc p _ y)) in
      let full : length ((p ++ ev.update cli.decrypt e) ++ y) ≡ room ns = omega (
        arith,
        length-append (p ++ ev.update cli.decrypt e) y,
        length-append p (ev.update cli.decrypt e),
      ) in
      record {
        next = next;
        received = record {
          pad = y;
          buf_is = ap some regroup;
          bufsz_is = sized ∙ sym wide;
          room_is = sized;
          decrypt_is = refl;
          socket_is = refl;
          writes_are = refl;
          encrypt_is = refl;
        };
        is_at = record {
          struct_is = named;
          field_is = refl;
          offset_is = refl;
          holds = held y whole (sized ∙ sym full);
          no_larger = inr (omega (arith, sized));
        };
        goes_on = λ pos.
            go (false, at_field (suc (length pre)) (q ++ (b ++ y)) ctx)
              (scatter_pending law ns pre s v e q b y n (suc (length pre)) (length e) ctx eq a pos
                refl refl);
        ends = λ zero_n.
            go (true, at_field (suc (length pre) + 1) (q ++ (b ++ y)) ctx)
              (rw (append-nil e, empty, law.advance-nil ctx) at
                (scatter_counted law ns pre s v e [] q b [] y n (suc (length pre)) ctx eq a
                  (sym zero_n) refl refl));
      }

  pub pass-Announced :
      (cli : ClientBase ev) (pre gs : List NetField) (s v f : NetField) (run : List NetField)
      (p c b e x : Bytes) (n : ℕ) (rest : List Arrival)
      → IsAt ns (length pre) p cli
      → IsFixedRun pre p
      → IsFixedRun gs c
      → Announces s v b n
      → f ∷ run ≡ gs ++ s ∷ []
      → ns.fields ≡ pre ++ (gs ++ s ∷ v ∷ [])
      → ev.update cli.decrypt e ≡ c ++ b
      → length p + length e ≤ room ns
      → cli.socket.arrivals ≡ segment (e ++ x) ∷ rest
      → Announced cli (pre ++ gs) v n p e x rest
  unfolding to_read settle
  pass-Announced cli pre gs s v f run p c b e x n rest at hp hg a eqr eq plain fits arr =
      let hr : IsFixedRun (f ∷ run) (c ++ b) =
        rw eqr (IsFixedRun-append hg (Announces-IsFixedRun s v b n a)) in
      let eq' : ns.fields ≡ pre ++ (f ∷ run ++ v ∷ []) =
        eq
        ∙ ap (◌++◌ pre)
            (sym (append_assoc gs (s ∷ []) (v ∷ [])) ∙ ap (λ k. k ++ v ∷ []) (sym eqr)) in
      let eq'' : ns.fields ≡ (pre ++ gs) ++ s ∷ v ∷ [] = eq ∙ sym (append_assoc pre gs _) in
      let len : length e ≡ length (c ++ b) =
        sym (law.length-update cli.decrypt e) ∙ ap length plain in
      let (sizes, total, first, second) =
        loops-run law ns small cli.reading.buf pre (f ∷ run) (v ∷ []) p (c ++ b) hp hr eq' in
      let (whole, place, count) =
        alloc_var law ns small (pre ++ gs) s v (p ++ c) b
          (IsFixedRun-append (IsFixedRun-append hp hg) (Announces-IsFixedRun s v b n a)) eq'' in
      let unknown = calc_field_sz_unknown ns (pre ++ gs) s v eq'' a.varies in
      let sum : length ((p ++ c) ++ b) ≡ length p + length (c ++ b) =
        omega (arith, length-append (p ++ c) b, length-append p c, length-append c b) in
      let at_var : length pre + suc (length run) ≡ suc (length (pre ++ gs)) =
        omega (arith, ap length eqr, length-append gs (s ∷ []), length-append pre gs) in
      let filled : 0 < length (c ++ b) =
        omega (arith, length_size law ns small s v b n a, length-append c b) in
      let wanted : to_read ns cli.reading.buf (length p) (length pre)
            (length {A = NetField} (v ∷ [])) (length pre + length (f ∷ run)) true
            (length p + length (c ++ b)) (length (c ++ b))
          ≡ some (need (total_sz ns.fields) (length (c ++ b))) =
        ground (arith, unknown, at_var, whole, sum) in
      let counted : size ns - length pre ≡ length (f ∷ run ++ v ∷ []) =
        omega (arith, length-append run (v ∷ [])) in
      let regroup : (t : Bytes) → (p ++ c) ++ (b ++ t) ≡ p ++ (ev.update cli.decrypt e ++ t) = λ t.
        append_assoc p c (b ++ t)
        ∙ ap (◌++◌ p) (sym (append_assoc c b t) ∙ ap (λ k. k ++ t) (sym plain)) in
      let (st, y, wide, named, sized, go) =
        pass-fetch law ns small cli (length pre) (length (c ++ b)) _ p e x rest at first
          (second ∙ wanted) filled (sym len) counted arr in
      let z = take (length e) y in
      let y' = drop (length e) y in
      let zl = length-take (length e) y in
      let yl = length-drop (length e) y in
      let q = p ++ c in
      let ctx' = ev.advance cli.decrypt e in
      let done =
        scatter-run law ns f run (v ∷ []) pre (c ++ b) [] e [] p z y' {chunk = e} {buf = p ++ y}
          {buf' = q ++ (b ++ y')} {mempos = length p} {mempos' = length q + length b} {wirepos = 0}
          {wirepos' = length e} {i = length pre} {i' = suc (length (pre ++ gs))} {nread = length e}
          {nread' = 0} {ctx = cli.decrypt} {ctx' = ctx'} hr eq' len (omega arith) refl
          (sym (append-nil e)) refl refl (omega arith)
          (ap (◌++◌ p) (sym (take-append-drop (length e) y)))
          (omega (arith, length-append p c, length-append c b)) (omega arith) (sym at_var) refl
          (regroup y') refl in
      Announced-of cli (pre ++ gs) s v n p q b e x y' rest st eq'' a (regroup y') (omega arith)
        named sized (λ res h. go (some res) (done ∙ h))
