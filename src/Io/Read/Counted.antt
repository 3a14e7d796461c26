-- ===== src/Io/Read/Counted.antt =====
-- The rounds of `resume_read` on a message that ends in a varying field: one up to the size
-- field, and one for the field itself unless it is empty.
use theme_srv.Common.{
  ℕ, zero, suc, ◌+◌, ◌-◌, ◌*◌, ◌^◌, ◌≤◌, ◌<◌, ◌≡◌, refl, ap, sym, ◌∙◌, true, Option, none, some,
  List, [], ◌∷◌, ◌++◌, Bytes, length, length-append, mul64, arith, append_assoc, take, drop,
  take-append-drop, length-take, length-drop,
}
use theme_srv.Protocol.NetStruct.{NetField, NetStruct, total_sz, size}
use theme_srv.Protocol.Message.{IsFixedRun, nil, IsFixedRun-append, Announces, Announces-IsFixedRun}
use theme_srv.Io.Cipher.{Cipher, IsStream}
use theme_srv.Io.Socket.{Arrival, segment}
use theme_srv.Io.ClientBase.{ReadState, ClientBase}
use theme_srv.Io.Fields.Wire.{calc_field_sz_counted, mul_le_mul}
use theme_srv.Io.Read.{returns, to_read, need, settle, pass, pointer}
use theme_srv.Io.Read.Scatter.{at_field}
use theme_srv.Io.Read.ScatterVaried.{scatter_counted}
use theme_srv.Io.Read.Buffer.{Holds, fresh, held, room}
use theme_srv.Io.Read.Passes.{IsAt, taken, pass-fetch, loops-run, Received}

module _ {ev : Cipher} (law : IsStream ev) (ns : NetStruct)
    (small : total_sz ns.fields < 2 ^ 32) where
  -- A read behind a size field has a buffer.
  pub has_buffer :
      (q b : Bytes) (st : ReadState)
      → 0 < length b
      → Holds (q ++ b) st
      → (y : Bytes) × (st.buf ≡ some (q ++ (b ++ y)))
  has_buffer q b st pos (fresh e none_is) = absurd (omega (arith, ap length e, length-append q b))
  has_buffer q b st pos (held y is s) = (y, is ∙ ap some (append_assoc q b y))

  -- The size in memory of the field, with no wrap-around.
  pub alloc_var :
      (pre : List NetField) (s v : NetField) (q b : Bytes)
      → IsFixedRun (pre ++ s ∷ []) (q ++ b)
      → ns.fields ≡ pre ++ s ∷ v ∷ []
      → (length (q ++ b) + mul64 v.elementsz v.count ≡ total_sz ns.fields)
        × (length (pre ++ s ∷ []) ≡ suc (length pre))
        × (size ns ≡ suc (length pre) + 1)
  alloc_var pre s v q b hr eq =
      let eq' : ns.fields ≡ (pre ++ s ∷ []) ++ ([] ++ v ∷ []) =
        eq ∙ sym (append_assoc pre (s ∷ []) (v ∷ [])) in
      let (sizes, total, x1, x2) =
        loops-run law ns small none (pre ++ s ∷ []) [] (v ∷ []) (q ++ b) [] hr nil eq' in
      (
        omega (arith, small),
        omega (arith, length-append pre (s ∷ [])),
        omega (arith, length-append pre (s ∷ [])),
      )

  pub to_read_var :
      (buf : Option Bytes) (pre : List NetField) (s v : NetField) (q b y : Bytes) (n i : ℕ)
      → buf ≡ some (q ++ (b ++ y))
      → IsFixedRun (pre ++ s ∷ []) (q ++ b)
      → Announces s v b n
      → ns.fields ≡ pre ++ s ∷ v ∷ []
      → i ≡ suc (length pre)
      → to_read ns buf (length (q ++ b)) i (size ns - i) i true (length (q ++ b)) 0
        ≡ some (need (total_sz ns.fields) (v.elementsz * n))
  unfolding to_read
  to_read_var buf pre s v q b y n i is hr a eq ei =
      let (total, place, count) = alloc_var pre s v q b hr eq in
      let one : size ns - i ≡ suc zero = omega arith in
      let call = calc_field_sz_counted ns pre s v q b y n eq a in
      let at_buf : pointer buf (length (q ++ b)) ≡ some (q ++ (b ++ y), length q + length b) =
        rw (is, length-append q b) refl in
      let bound = mul_le_mul v.elementsz n 1024 a.within in
      rw (one, ei) (ground (arith, call, total, bound, at_buf, ei))

  pub length_size : (s v : NetField) (b : Bytes) (n : ℕ) → Announces s v b n → 0 < length b
  length_size s v b n a = ground (arith, a.width)

  -- The round for the field itself.
  pub pass-counted :
      (cli : ClientBase ev) (pre : List NetField) (s v : NetField) (q b e x : Bytes) (n : ℕ)
      (rest : List Arrival)
      → IsAt ns (suc (length pre)) (q ++ b) cli
      → IsFixedRun pre q
      → Announces s v b n
      → ns.fields ≡ pre ++ s ∷ v ∷ []
      → 0 < length e
      → length e ≡ v.elementsz * n
      → length (q ++ b) + length e ≤ room ns
      → cli.socket.arrivals ≡ segment (e ++ x) ∷ rest
      → (cli' : ClientBase ev) × (pass cli ≡ some (returns true cli'))
        × Received ns (q ++ b) e x rest cli cli'
  unfolding to_read settle
  pass-counted cli pre s v q b e x n rest at hp a eq pos len fits arr =
      let hr = IsFixedRun-append hp (Announces-IsFixedRun s v b n a) in
      let (y₀, buf_is) = has_buffer q b cli.reading (length_size s v b n a) at.holds in
      let (total, place, count) = alloc_var pre s v q b hr eq in
      let eq' : ns.fields ≡ (pre ++ s ∷ []) ++ ([] ++ v ∷ []) =
        eq ∙ sym (append_assoc pre (s ∷ []) (v ∷ [])) in
      let (sizes, sum, first, second) =
        loops-run law ns small cli.reading.buf (pre ++ s ∷ []) [] (v ∷ []) (q ++ b) [] hr nil eq' in
      let wanted =
        to_read_var cli.reading.buf pre s v q b y₀ n (suc (length pre)) buf_is hr a eq refl in
      let one : size ns - suc (length pre) ≡ 1 = omega arith in
      let (st, y, wide, named, sized, go) =
        pass-fetch law ns small cli (suc (length pre)) (v.elementsz * n) 1 (q ++ b) e x rest at
          (rw (← place) first) wanted (omega arith) (sym len) one arr in
      let z = take (length e) y in
      let y' = drop (length e) y in
      let zl = length-take (length e) y in
      let yl = length-drop (length e) y in
      let done =
        scatter_counted law ns pre s v [] e q b z y' n (suc (length pre)) cli.decrypt eq a len
          (omega arith) refl in
      let at_end : length (q ++ b) ≡ length q + length b = length-append q b in
      let parts : (q ++ b) ++ y ≡ q ++ (b ++ (z ++ y')) =
        append_assoc q b y ∙ ap (λ k. q ++ (b ++ k)) (sym (take-append-drop (length e) y)) in
      let cli' : ClientBase ev = record (taken cli x rest) {
        reading = record st {
          field = suc (length pre) + 1;
          offset = 0;
          buf = some (q ++ (b ++ (ev.update cli.decrypt e ++ y')));
        };
        decrypt = ev.advance cli.decrypt e;
      } in
      (
        cli',
        go (some (true, at_field (suc (length pre) + 1) _ _)) (cc (done, at_end, parts)),
        record {
          pad = y';
          buf_is = ap some (sym (append_assoc q b _));
          bufsz_is = sized ∙ omega arith;
          room_is = sized;
          decrypt_is = refl;
          socket_is = refl;
          writes_are = refl;
          encrypt_is = refl;
        },
      )
