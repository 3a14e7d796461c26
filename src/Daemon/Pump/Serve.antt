-- ===== src/Daemon/Pump/Serve.antt =====
-- From the bytes that arrive on an encrypted connection to the bytes that are sent: `pump_read` of
-- src/daemon/client_common.cpp with all that it calls.
use theme_srv.Common.{
  ℕ, suc, ◌+◌, ◌≡◌, refl, sym, ap, ◌∙◌, subst, List, [], ◌∷◌, ◌++◌, Bytes, length, length-append,
  length_zero, take, drop, take-append-drop, length-take, length-drop, arith, append_assoc,
  append-nil,
}
use theme_srv.Protocol.Message.{nil, IsMessage, fixed}
use theme_srv.Protocol.Messages
use theme_srv.Protocol.Messages.{field_uint16}
use theme_srv.Io.Cipher.{Cipher, IsStream}
use theme_srv.Io.Crypto.{Bignums}
use theme_srv.Io.Socket.{Arrival, segment}
use theme_srv.Io.Read.Buffer.{leftover}
use theme_srv.Io.Read.Varying.{append_cut, leftover-append}
use theme_srv.Io.Read.Silent.{handle_read-drained}
use theme_srv.Io.Write.Stream.{AreSending, stream}
use theme_srv.Daemon.Client.{Client, Site}
use theme_srv.Daemon.Pump.{alive, take_turn, post, pump_read}
use theme_srv.Daemon.Pump.Answers.{IsFit}
use theme_srv.Daemon.Pump.Requests.{
  Request, type_bytes, body_of, wire, answer, IsRequest, body_of_fits,
}
use theme_srv.Daemon.Pump.Turns.{IsIdle, Serves, header_turn, body_turn}

abbrev pub AreRequests : List Request → Type 0
AreRequests [] = Unit
AreRequests (r ∷ rs) = IsRequest r × AreRequests rs

abbrev pub wires : List Request → Bytes
wires [] = []
wires (r ∷ rs) = wire r ++ wires rs

abbrev pub answers : {bn : Bignums} → Site bn → List Request → Bytes
answers site [] = []
answers site (r ∷ rs) = answer site r ++ answers site rs

-- Two turns of the loop for each request, and one that finds nothing.
abbrev pub turns : List Request → ℕ
turns [] = 1
turns (r ∷ rs) = suc (suc (turns rs))

module _ {ev : Cipher} {bn : Bignums} (law : IsStream ev) (site : Site bn) (fit : IsFit site) where
  serve_one :
      (r : Request) (k fuel : ℕ) (cli : Client ev) (e x : Bytes) (rest : List Arrival)
      → IsIdle cli
      → IsRequest r
      → cli.base.socket.arrivals ≡ segment (e ++ x) ∷ rest
      → ev.update cli.base.decrypt e ≡ wire r
      → (cli' : Client ev) × (pump_read site (suc (suc k)) (suc (suc fuel)) cli
          ≡ pump_read site (suc (suc k)) fuel cli')
        × IsIdle cli'
        × Serves e x rest (answer site r) cli.base cli'.base
  unfolding pump_read
  serve_one r k fuel cli e x rest idle is arr plain =
      let c = cli.base.decrypt in
      let e₁ = take 2 e in
      let e₂ = drop 2 e in
      let whole : e₁ ++ e₂ ≡ e = take-append-drop 2 e in
      let (pos, fits) = body_of_fits r is in
      let len : length e ≡ 2 + length (body_of r) =
        omega (arith, law.length-update c e, ap length plain) in
      let l₁ = length-take 2 e in
      let l₂ = length-drop 2 e in
      let split : ev.update c e₁ ++ ev.update (ev.advance c e₁) e₂ ≡ type_bytes r ++ body_of r =
        sym (law.update-append c e₁ e₂) ∙ (ap (ev.update c) whole ∙ plain) in
      let (p₁, p₂) =
        append_cut (ev.update c e₁) (ev.update (ev.advance c e₁) e₂) (type_bytes r) (body_of r)
          split (law.length-update c e₁ ∙ omega arith) in
      let arr₁ : cli.base.socket.arrivals ≡ segment (e₁ ++ (e₂ ++ x)) ∷ rest =
        arr ∙ ap (λ z. segment z ∷ rest) (ap (λ z. z ++ x) (sym whole) ∙ append_assoc e₁ e₂ x) in
      let (cli₁, turn₁, typed, reads) =
        header_turn law site r k cli e₁ (e₂ ++ x) rest idle arr₁ p₁ in
      let arr₂ = reads.arrivals_are ∙ leftover-append e₂ x rest (omega arith) in
      let (cli₂, turn₂, idle₂, serves) =
        body_turn law site fit r k cli₁ e₂ x rest typed is arr₂
          (ap (λ z. ev.update z e₂) reads.decrypt_is ∙ p₂) in
      (
        cli₂,
        ap (λ t. take_turn t (pump_read site (suc (suc k)) (suc fuel))) turn₁
            ∙ ap (λ t. take_turn t (pump_read site (suc (suc k)) fuel)) turn₂,
        idle₂,
        record {
          decrypt_is =
              serves.decrypt_is
              ∙ (ap (λ z. ev.advance z e₂) reads.decrypt_is
                  ∙ (sym (law.advance-append c e₁ e₂) ∙ ap (ev.advance c) whole));
          arrivals_are = serves.arrivals_are;
          encrypt_is = serves.encrypt_is ∙ ap (λ z. ev.advance z (answer site r)) reads.encrypt_is;
          stream_is = serves.stream_is ∙ cc (reads.stream_is, reads.encrypt_is);
        },
      )

  -- What serving all requests does, which are `e` on the wire.
  pub record Served (e : Bytes) (rs : List Request) (cli cli' : Client ev) : Type 0 where
    pub is_idle : IsIdle cli'
    pub decrypt_is : cli'.base.decrypt ≡ ev.advance cli.base.decrypt e
    pub arrivals_are : cli'.base.socket.arrivals ≡ []
    pub encrypt_is : cli'.base.encrypt ≡ ev.advance cli.base.encrypt (answers site rs)
    pub stream_is :
        stream cli'.base ≡ stream cli.base ++ ev.update cli.base.encrypt (answers site rs)

  serve_none :
      (k : ℕ) (cli : Client ev) (e : Bytes)
      → IsIdle cli
      → cli.base.socket.arrivals ≡ leftover e []
      → ev.update cli.base.decrypt e ≡ []
      → (cli' : Client ev) × (pump_read site (suc (suc k)) 1 cli ≡ alive cli')
        × Served e [] cli cli'
  unfolding pump_read post
  serve_none k cli e idle arr plain =
      let none_left : e ≡ [] =
        length_zero e (sym (law.length-update cli.base.decrypt e) ∙ ap length plain) in
      let (b, call, idles) =
        handle_read-drained law Messages.msg_std_header (omega arith) (suc k) cli.base []
          (field_uint16 "type") [] (0 ∷ 0 ∷ []) idle.is_at nil
          (fixed (0 ∷ 0 ∷ []) refl (omega arith) refl IsMessage.nil) refl (omega arith)
          (arr ∙ ap (λ z. leftover z []) none_left) in
      let c = cli.base.encrypt in
      let silent : ev.update c [] ≡ [] = length_zero (ev.update c []) (law.length-update c []) in
      (
        record cli { base = b },
        rw call refl,
        record {
          is_idle = record {
            handler_is = idle.handler_is;
            encrypted_is = idle.encrypted_is;
            header_is = idle.header_is;
            is_at = idles.is_at;
            are_sending = subst AreSending (sym idles.writes_are) idle.are_sending;
          };
          decrypt_is =
              idles.decrypt_is
              ∙ (sym (law.advance-nil cli.base.decrypt)
                  ∙ ap (ev.advance cli.base.decrypt) (sym none_left));
          arrivals_are =
              ap (λ s. s.arrivals) idles.socket_is ∙ (arr ∙ ap (λ z. leftover z []) none_left);
          encrypt_is = idles.encrypt_is ∙ sym (law.advance-nil c);
          stream_is =
              cc (idles.socket_is, idles.writes_are)
              ∙ (sym (append-nil (stream cli.base)) ∙ ap (◌++◌ (stream cli.base)) (sym silent));
        },
      )

  -- The loop of `pump_read` with all that it calls refines the exchange of requests and answers.
  -- Suppose that a cipher works byte by byte, that a reply is built in 56 bytes of memory, that
  -- both addresses have less than 24 characters, and that an encrypted connection to the
  -- gatekeeper is due to read the type of a request and its buffers that wait are sound. If what
  -- has arrived, all in one segment, decrypts to the bytes of requests, one after another, with
  -- pings of at most 26 bytes of payload, then `pump_read` ends within two turns for each
  -- request and one more, leaves the client alive, has read everything, and what has been sent
  -- and what waits, taken as one stream, is extended by exactly the encrypted answers in the
  -- order of the requests: the ping itself, or the address that is asked for, with the request's
  -- number. The client is again due to read the type of a request.
  pub pump_read-Served :
      (rs : List Request) (k : ℕ) (cli : Client ev) (e : Bytes)
      → IsIdle cli
      → AreRequests rs
      → cli.base.socket.arrivals ≡ leftover e []
      → ev.update cli.base.decrypt e ≡ wires rs
      → (cli' : Client ev) × (pump_read site (suc (suc k)) (turns rs) cli ≡ alive cli')
        × Served e rs cli cli'
  pump_read-Served [] k cli e idle is arr plain = serve_none k cli e idle arr plain
  pump_read-Served (r ∷ rs) k cli e idle (is, are) arr plain =
      let c = cli.base.decrypt in
      let d = cli.base.encrypt in
      let n = length (wire r) in
      let e₁ = take n e in
      let e₂ = drop n e in
      let whole : e₁ ++ e₂ ≡ e = take-append-drop n e in
      let len : length e ≡ n + length (wires rs) =
        omega (arith, law.length-update c e, ap length plain, length-append (wire r) (wires rs)) in
      let l₁ : length e₁ ≡ n = omega (arith, length-take n e) in
      let split : ev.update c e₁ ++ ev.update (ev.advance c e₁) e₂ ≡ wire r ++ wires rs =
        sym (law.update-append c e₁ e₂) ∙ (ap (ev.update c) whole ∙ plain) in
      let (p₁, p₂) =
        append_cut (ev.update c e₁) (ev.update (ev.advance c e₁) e₂) (wire r) (wires rs) split
          (law.length-update c e₁ ∙ l₁) in
      let arr₁ : cli.base.socket.arrivals ≡ segment (e₁ ++ e₂) ∷ [] =
        arr ∙ (ap (λ z. leftover z []) (sym whole) ∙ leftover-append e₁ e₂ [] (omega arith)) in
      let (cli₁, turn, idle₁, serves) = serve_one r k (turns rs) cli e₁ e₂ [] idle is arr₁ p₁ in
      let (cli₂, more, served) =
        pump_read-Served rs k cli₁ e₂ idle₁ are serves.arrivals_are
          (ap (λ z. ev.update z e₂) serves.decrypt_is ∙ p₂) in
      (
        cli₂,
        turn ∙ more,
        record {
          is_idle = served.is_idle;
          decrypt_is =
              served.decrypt_is
              ∙ (ap (λ z. ev.advance z e₂) serves.decrypt_is
                  ∙ (sym (law.advance-append c e₁ e₂) ∙ ap (ev.advance c) whole));
          arrivals_are = served.arrivals_are;
          encrypt_is =
              served.encrypt_is
              ∙ (ap (λ z. ev.advance z (answers site rs)) serves.encrypt_is
                  ∙ sym (law.advance-append d (answer site r) (answers site rs)));
          stream_is =
              served.stream_is
              ∙ (cc (serves.stream_is, serves.encrypt_is)
                  ∙ (append_assoc (stream cli.base) (ev.update d (answer site r)) _
                      ∙ ap (◌++◌ (stream cli.base))
                          (sym (law.update-append d (answer site r) (answers site rs)))));
        },
      )
