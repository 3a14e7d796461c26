-- ===== src/Daemon/Handshake/Steps.antt =====
-- The handlers of src/daemon/client_common.cpp and gatekeeper.cpp one by one: the phase that each
-- leaves the client in when it accepts a message.
use theme_srv.Common.{
  ℕ, List, ◌≡◌, ◌≢◌, refl, sym, ap, ◌∙◌, inl, inr, Bool, true, false, Option, some, Bytes, ◌==◌,
  ==_iff, ◌>>=◌, >>=-eq-some, Bool-cases, Option-cases, subst,
}
use theme_srv.Protocol.NetStruct.{NetStruct}
use theme_srv.Protocol.Messages
use theme_srv.Protocol.GatekeeperId
use theme_srv.Protocol.Packed.{get_uint}
use theme_srv.Io.Cipher.{Cipher}
use theme_srv.Io.Crypto.{Bignums, make_server_key}
use theme_srv.Io.ClientBase.{queue_read, resume_read_at, set_crypt_key}
use theme_srv.Io.Write.{enqueue_write}
use theme_srv.Io.Write.Enqueue.{enqueue_write-reading}
use theme_srv.Daemon.Client.{gatekeeper, Client, Site}
use theme_srv.Daemon.Gatekeeper.{
  reply_with, handle_ping, file_srv_reply, handle_file_srv_req, handle_auth_srv_req,
  handle_encryption, dispatch_msg, request_struct, read_known, read_msg,
}
use theme_srv.Daemon.Handshake.{
  c2s_connect, encrypt_reply, shake, create_gate, incoming_read, want_seed, handle_handshake,
  establish, handle_ydata,
}
use theme_srv.Daemon.Handshake.Order.{
  Phase, connecting, handshaking, seeding, heading, body, IsIn, IsDue, handshake, seed, header,
  rest, IsReady,
}

module _ {ev : Cipher} where
  pub accepted :
      (a c : Client ev)
      → ◌≡◌ {A = Option (Bool × Client ev)} (some (true, a)) (some (true, c))
      → a ≡ c
  accepted a c h = cc h

  pub refused :
      (a c : Client ev) → ◌≢◌ {A = Option (Bool × Client ev)} (some (false, a)) (some (true, c))
  refused a c h = cc h

  -- The write of a reply changes neither the phase nor what is due.
  pub reply_with-IsReady :
      (ph : Phase) (cli cli' : Client ev) (ns : NetStruct) (msg : Bytes)
      → IsReady ph cli
      → reply_with cli ns msg ≡ some (true, cli')
      → IsReady ph cli'
  unfolding reply_with
  reply_with-IsReady ph cli cli' ns msg (i, d) h =
      let (base, e, h₁) = >>=-eq-some (enqueue_write cli.base ns msg) _ h in
      let same = enqueue_write-reading cli.base base ns msg e in
      let moved : IsReady ph (record cli { base = base }) = (
        record {
          handler_is = i.handler_is;
          encrypted_is = i.encrypted_is;
          seed_is = i.seed_is;
          header_is = i.header_is;
        },
        subst (λ r. IsDue ph r.struct r.field) (sym same) d,
      ) in
      subst (λ c. IsReady ph c) (accepted (record cli { base = base }) cli' h₁) moved

  pub incoming_read-IsReady :
      (cli cli' : Client ev) (buf : Bytes)
      → IsIn connecting cli
      → cli.base.reading.field ≡ 0
      → incoming_read cli buf ≡ some (true, cli')
      → IsReady handshaking cli'
  unfolding incoming_read create_gate queue_read
  incoming_read-IsReady cli cli' buf i f h =
      let (conn, e, h₁) = >>=-eq-some (get_uint buf 0 1) _ h in
      elim (Bool-cases (conn == Messages.protocol_cli2gate)) [
        | inl hit ↦
            subst (λ c. IsReady handshaking c) (accepted (create_gate cli) cli' (rw hit at h₁))
              (
                record {
                  handler_is = refl;
                  encrypted_is = i.encrypted_is;
                  seed_is = i.seed_is;
                  header_is = i.header_is;
                },
                rw f handshake,
              )
        | inr miss ↦ absurd (refused cli cli' (rw miss at h₁))
      ]

  pub read_msg-IsReady :
      (cli cli' : Client ev) (buf : Bytes)
      → IsIn body cli
      → read_msg cli buf ≡ some (true, cli')
      → IsReady body cli'
  unfolding read_msg read_known resume_read_at
  read_msg-IsReady cli cli' buf i h =
      let (type, e, h₁) = >>=-eq-some (get_uint buf 0 2) _ h in
      elim (Option-cases (request_struct type)) [
        | inl miss ↦ absurd (refused cli cli' (rw miss at h₁))
        | inr (ns, hit) ↦
            subst (λ c. IsReady body c)
              (accepted (record cli { base = resume_read_at cli.base ns 1 (some buf) }) cli'
                (rw hit at h₁))
              (
                record {
                  handler_is = i.handler_is;
                  encrypted_is = i.encrypted_is;
                  seed_is = i.seed_is;
                  header_is = i.header_is;
                },
                rest type hit,
              )
      ]

  pub address-IsReady :
      (cli cli' : Client ev) (stack buf : Bytes) (address : List ℕ)
      → IsReady heading cli
      → (file_srv_reply stack buf address >>= reply_with cli Messages.file_srv_reply)
        ≡ some (true, cli')
      → IsReady heading cli'
  address-IsReady cli cli' stack buf address r h =
      let (reply, e, h₁) =
        >>=-eq-some (file_srv_reply stack buf address) (reply_with cli Messages.file_srv_reply) h in
      reply_with-IsReady heading cli cli' Messages.file_srv_reply reply r h₁

module _ {ev : Cipher} {bn : Bignums} where
  pub dispatch_msg-IsReady :
      (site : Site bn) (cli cli' : Client ev) (buf : Bytes)
      → IsReady heading cli
      → dispatch_msg site cli buf ≡ some (true, cli')
      → IsReady heading cli'
  unfolding dispatch_msg handle_ping handle_file_srv_req handle_auth_srv_req
  dispatch_msg-IsReady site cli cli' buf r h =
      let (type, e, h₁) = >>=-eq-some (get_uint buf 0 2) _ h in
      elim (Bool-cases (type == GatekeeperId.ping_request)) [
        | inl ping ↦ reply_with-IsReady heading cli cli' Messages.ping_reply buf r (rw ping at h₁)
        | inr other ↦ elim (Bool-cases (type == GatekeeperId.file_srv_request)) [
          | inl file ↦
              address-IsReady cli cli' site.stack buf site.filesrv r (rw (other, file) at h₁)
          | inr third ↦ elim (Bool-cases (type == GatekeeperId.auth_srv_request)) [
            | inl auth ↦
                address-IsReady cli cli' site.stack buf site.authsrv r
                  (rw (other, third, auth) at h₁)
            | inr none_of ↦ absurd (refused cli cli' (rw (other, third, none_of) at h₁))
          ]
        ]
      ]

  pub shake-IsReady :
      (site : Site bn) (cli cli' : Client ev) (msg_id bufsz : ℕ)
      → site.allow_decrypted ≡ false
      → IsIn handshaking cli
      → cli.base.reading.field ≡ 0
      → ◌≡◌ {A = Option (Bool × Client ev)} (some (shake site cli msg_id bufsz)) (some (true, cli'))
      → IsReady seeding cli'
  unfolding shake want_seed queue_read
  shake-IsReady site cli cli' msg_id bufsz strict i f h =
      elim (Bool-cases (msg_id == c2s_connect)) [
        | inr other ↦ absurd (refused cli cli' (rw other at h))
        | inl first ↦ elim (Bool-cases (bufsz == 66)) [
          | inl full ↦
              let is : bufsz ≡ 66 = (==_iff bufsz 66).0 full in
              subst (λ c. IsReady seeding c)
                (accepted (want_seed cli 66) cli' (rw (first, is) at h))
                (
                  record {
                    handler_is = refl;
                    encrypted_is = i.encrypted_is;
                    seed_is = refl;
                    header_is = i.header_is;
                  },
                  rw f seed,
                )
          | inr not_full ↦ elim (Bool-cases (bufsz == 2)) [
            | inl two ↦ absurd (refused cli cli' (rw (first, not_full, two, strict) at h))
            | inr neither ↦ absurd (refused cli cli' (rw (first, not_full, neither) at h))
          ]
        ]
      ]

  pub handle_handshake-IsReady :
      (site : Site bn) (cli cli' : Client ev) (buf : Bytes)
      → site.allow_decrypted ≡ false
      → IsIn handshaking cli
      → cli.base.reading.field ≡ 0
      → handle_handshake site cli buf ≡ some (true, cli')
      → IsReady seeding cli'
  unfolding handle_handshake
  handle_handshake-IsReady site cli cli' buf strict i f h =
      let (msg_id, e, h₁) = >>=-eq-some (get_uint buf 0 1) _ h in
      let (bufsz, e', h₂) = >>=-eq-some (get_uint buf 1 1) _ h₁ in
      shake-IsReady site cli cli' msg_id bufsz strict i f h₂

  pub handle_ydata-IsReady :
      (site : Site bn) (cli cli' : Client ev) (buf : Bytes)
      → cli.handler ≡ gatekeeper 64
      → cli.want_client_seed ≡ false
      → cli.base.reading.field ≡ 0
      → handle_ydata site cli 64 buf ≡ some (true, cli')
      → IsReady heading cli'
  unfolding handle_ydata establish handle_encryption queue_read set_crypt_key
  handle_ydata-IsReady site cli cli' buf hi si f h =
      let (made, e, h₁) =
        >>=-eq-some (make_server_key bn site.key_k site.key_n 64 buf site.random) _ h in
      elim (Option-cases made) [
        | inl miss ↦ absurd (refused cli cli' (rw miss at h₁))
        | inr (key, hit) ↦
            let (base, e', h₂) =
              >>=-eq-some (enqueue_write cli.base Messages.encrypt_s2c (encrypt_reply site.random))
                _ (rw hit at h₁) in
            let same =
              enqueue_write-reading cli.base base Messages.encrypt_s2c (encrypt_reply site.random)
                e' in
            let f' : base.reading.field ≡ 0 = ap (λ r. r.field) same ∙ f in
            subst (λ c. IsReady heading c)
              (accepted
                (record cli {
                  base = queue_read (set_crypt_key base key) Messages.msg_std_header;
                  is_encrypted = true;
                  want_msg_header = true;
                })
                cli' h₂)
              (
                record { handler_is = hi; encrypted_is = refl; seed_is = si; header_is = refl },
                rw f' header,
              )
      ]
