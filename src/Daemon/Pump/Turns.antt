-- ===== src/Daemon/Pump/Turns.antt =====
-- The turns of `pump_read` in src/daemon/client_common.cpp on a request of an encrypted connection: the
-- type of the request is read, then the rest, and the answer is sent.
use theme_srv.Common.{
  ℕ, suc, ◌≤◌, ◌≡◌, refl, sym, ap, ◌∙◌, subst, inl, inr, true, false, some, List, [], ◌∷◌, ◌++◌,
  Bytes, length, arith,
}
use theme_srv.Protocol.NetStruct.{NetStruct}
use theme_srv.Protocol.Message.{IsFixedRun, nil, cons, IsMessage, fixed}
use theme_srv.Protocol.Messages
use theme_srv.Protocol.Messages.{field_uint16}
use theme_srv.Io.Cipher.{Cipher, IsStream}
use theme_srv.Io.Crypto.{Bignums}
use theme_srv.Io.Socket.{Arrival, segment}
use theme_srv.Io.ClientBase.{ClientBase, alloc_sz, queue_read, resume_read_at}
use theme_srv.Io.Read.{release, handle_read}
use theme_srv.Io.Read.Buffer.{room, leftover, fresh, held}
use theme_srv.Io.Read.Passes.{IsAt, Received}
use theme_srv.Io.Read.Whole.{handle_read-Received}
use theme_srv.Io.Write.Stream.{AreSending, stream}
use theme_srv.Daemon.Client.{Client, Site, gatekeeper}
use theme_srv.Daemon.Gatekeeper.{read_msg}
use theme_srv.Daemon.Handshake.{client_read}
use theme_srv.Daemon.Handshake.Phases.{at_encrypted, at_header, at_body}
use theme_srv.Daemon.Pump.{next, post, after_handler}
use theme_srv.Daemon.Pump.Answers.{IsFit, dispatch_msg-answer}
use theme_srv.Daemon.Pump.Requests.{
  Request, type_bytes, struct_of, fields_of, body_of, IsRequest, room_header,
  request_struct-type_of, get_uint-type_bytes, answer, body_of_fits, body_of-IsMessage,
  total_sz-struct_of, fields_of-struct_of,
}

module _ {ev : Cipher} where
  -- An encrypted connection to the gatekeeper on which the type of a request is due.
  pub record IsIdle (cli : Client ev) : Type 0 where
    pub handler_is : cli.handler ≡ gatekeeper 64
    pub encrypted_is : cli.is_encrypted ≡ true
    pub header_is : cli.want_msg_header ≡ true
    pub is_at : IsAt Messages.msg_std_header 0 [] cli.base
    pub are_sending : AreSending cli.base.writes

  -- The same connection when the type of a request has been read: the rest is due.
  pub record IsTyped (r : Request) (cli : Client ev) : Type 0 where
    pub handler_is : cli.handler ≡ gatekeeper 64
    pub encrypted_is : cli.is_encrypted ≡ true
    pub header_is : cli.want_msg_header ≡ false
    pub is_at : IsAt (struct_of r) 1 (type_bytes r) cli.base
    pub are_sending : AreSending cli.base.writes

  -- What reading `e` does to a connection; `x` of the segment is left.
  pub record Reads (e x : Bytes) (rest : List Arrival) (cli cli' : ClientBase ev) : Type 0 where
    pub decrypt_is : cli'.decrypt ≡ ev.advance cli.decrypt e
    pub arrivals_are : cli'.socket.arrivals ≡ leftover x rest
    pub encrypt_is : cli'.encrypt ≡ cli.encrypt
    pub stream_is : stream cli' ≡ stream cli

  -- What serving a request does, which is `e` on the wire, by sending `m`.
  pub record Serves (e x : Bytes) (rest : List Arrival) (m : Bytes) (cli cli' : ClientBase ev)
      : Type 0 where
    pub decrypt_is : cli'.decrypt ≡ ev.advance cli.decrypt e
    pub arrivals_are : cli'.socket.arrivals ≡ leftover x rest
    pub encrypt_is : cli'.encrypt ≡ ev.advance cli.encrypt m
    pub stream_is : stream cli' ≡ stream cli ++ ev.update cli.encrypt m

  after_handler_next :
      (cli : Client ev) (ns : NetStruct)
      → cli.base.reading.struct ≡ some ns
      → after_handler (some (true, cli)) ≡ next cli
  unfolding after_handler
  after_handler_next cli ns h = rw h refl

  Received-Reads :
      (ns : NetStruct) (p e x : Bytes) (rest : List Arrival) (cli b : ClientBase ev)
      → Received ns p e x rest cli b
      → Reads e x rest cli b
  Received-Reads ns p e x rest cli b got = record {
    decrypt_is = got.decrypt_is;
    arrivals_are = ap (λ s. s.arrivals) got.socket_is;
    encrypt_is = got.encrypt_is;
    stream_is = cc (got.socket_is, got.writes_are);
  }

module _ {ev : Cipher} {bn : Bignums} (law : IsStream ev) (site : Site bn) where
  -- The handler on a type of two bytes
  typed_next :
      (r : Request) (cli : Client ev) (pad : Bytes)
      → cli.want_msg_header ≡ false
      → after_handler (read_msg cli (type_bytes r ++ pad))
        ≡ next (record cli {
          base = resume_read_at cli.base (struct_of r) 1 (some (type_bytes r ++ pad));
        })
  unfolding read_msg after_handler resume_read_at
  typed_next r cli pad h = rw (get_uint-type_bytes r pad, request_struct-type_of r) refl

  pub header_turn :
      (r : Request) (k : ℕ) (cli : Client ev) (e x : Bytes) (rest : List Arrival)
      → IsIdle cli
      → cli.base.socket.arrivals ≡ segment (e ++ x) ∷ rest
      → ev.update cli.base.decrypt e ≡ type_bytes r
      → (cli' : Client ev) × (post site cli (handle_read (suc (suc k)) cli.base) ≡ next cli')
        × IsTyped r cli'
        × Reads e x rest cli.base cli'.base
  unfolding post alloc_sz resume_read_at
  header_turn r k cli e x rest idle arr plain =
      let (b, got, call) =
        handle_read-Received law Messages.msg_std_header (omega arith) k cli.base []
          (field_uint16 "type") [] (type_bytes r) e x rest idle.is_at nil
          (fixed (type_bytes r) refl (omega arith) refl IsMessage.nil) refl (omega arith) plain
          (omega arith) arr in
      let cli₀ : Client ev = record cli { base = release b } in
      let cli₁ : Client ev = record cli₀ { want_msg_header = false } in
      let buf = type_bytes r ++ got.pad in
      let handler =
        at_encrypted site cli₀ 64 buf idle.encrypted_is ∙ at_header site cli₀ buf idle.header_is in
      let sized : b.reading.bufsz ≡ length (type_bytes r ++ got.pad) =
        got.bufsz_is ∙ omega (arith, law.length-update cli.base.decrypt e, ap length plain) in
      (
        record cli₁ { base = resume_read_at (release b) (struct_of r) 1 (some buf) },
        ap (post site cli) call
            ∙ (ap (λ t. after_handler (client_read site cli₀ t buf)) idle.handler_is
                ∙ (ap after_handler handler ∙ typed_next r cli₁ got.pad refl)),
        record {
          handler_is = idle.handler_is;
          encrypted_is = idle.encrypted_is;
          header_is = refl;
          is_at = record {
            struct_is = refl;
            field_is = refl;
            offset_is = refl;
            holds = held got.pad refl sized;
            no_larger = inr (subst (λ n. n ≤ room (struct_of r)) (sym got.room_is) (room_header r));
          };
          are_sending = subst AreSending (sym got.writes_are) idle.are_sending;
        },
        (let reads = Received-Reads Messages.msg_std_header [] e x rest cli.base b got in
            record {
              decrypt_is = reads.decrypt_is;
              arrivals_are = reads.arrivals_are;
              encrypt_is = reads.encrypt_is;
              stream_is = reads.stream_is;
            }),
      )

  pub body_turn :
      (fit : IsFit site) (r : Request) (k : ℕ) (cli : Client ev) (e x : Bytes) (rest : List Arrival)
      → IsTyped r cli
      → IsRequest r
      → cli.base.socket.arrivals ≡ segment (e ++ x) ∷ rest
      → ev.update cli.base.decrypt e ≡ body_of r
      → (cli' : Client ev) × (post site cli (handle_read (suc (suc k)) cli.base) ≡ next cli')
        × IsIdle cli'
        × Serves e x rest (answer site r) cli.base cli'.base
  unfolding post after_handler queue_read
  body_turn fit r k cli e x rest typed is arr plain =
      let (pos, fits) = body_of_fits r is in
      let (b, got, call) =
        handle_read-Received law (struct_of r) (total_sz-struct_of r) k cli.base
          (field_uint16 "type") (fields_of r) (type_bytes r) (body_of r) e x rest typed.is_at
          (cons (type_bytes r) refl (omega arith) refl IsFixedRun.nil) (body_of-IsMessage r is)
          (fields_of-struct_of r) pos plain fits arr in
      let reads = Received-Reads (struct_of r) (type_bytes r) e x rest cli.base b got in
      let cli₀ : Client ev = record cli { base = release b } in
      let cli₁ : Client ev = record cli₀ {
        base = queue_read (release b) Messages.msg_std_header;
        want_msg_header = true;
      } in
      let buf = type_bytes r ++ (body_of r ++ got.pad) in
      let handler =
        at_encrypted site cli₀ 64 buf typed.encrypted_is ∙ at_body site cli₀ buf typed.header_is in
      let (cli', done, replied, stays) =
        dispatch_msg-answer law site fit r cli₁ got.pad is
          (subst AreSending (sym got.writes_are) typed.are_sending) in
      let base = stays.base_is in
      (
        cli',
        ap (post site cli) call
            ∙ (ap (λ t. after_handler (client_read site cli₀ t buf)) typed.handler_is
                ∙ (ap after_handler (handler ∙ done)
                    ∙ after_handler_next cli' Messages.msg_std_header
                        (ap (λ s. s.struct) base.reading_is))),
        record {
          handler_is = stays.handler_is ∙ typed.handler_is;
          encrypted_is = stays.encrypted_is ∙ typed.encrypted_is;
          header_is = stays.header_is;
          is_at = record {
            struct_is = ap (λ s. s.struct) base.reading_is;
            field_is = ap (λ s. s.field) base.reading_is;
            offset_is = ap (λ s. s.offset) base.reading_is;
            holds = fresh refl (ap (λ s. s.buf) base.reading_is);
            no_larger = inl (ap (λ s. s.buf) base.reading_is);
          };
          are_sending = replied.are_sending;
        },
        record {
          decrypt_is = base.decrypt_is ∙ reads.decrypt_is;
          arrivals_are = base.arrivals_are ∙ reads.arrivals_are;
          encrypt_is = replied.encrypt_is ∙ ap (λ c. ev.advance c (answer site r)) reads.encrypt_is;
          stream_is = replied.stream_is ∙ cc (reads.stream_is, reads.encrypt_is);
        },
      )
