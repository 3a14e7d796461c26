-- ===== src/Daemon/Handshake/Phases.antt =====
-- The order of the messages of a connection, and the handlers of src/daemon/client_common.cpp
-- and gatekeeper.cpp.
use theme_srv.Common.{ℕ, ◌≡◌, refl, sym, ◌∙◌, true, false, some, Bytes, arith, subst}
use theme_srv.Protocol.Messages
use theme_srv.Io.Cipher.{Cipher}
use theme_srv.Io.Crypto.{Bignums}
use theme_srv.Io.ClientBase.{queue_read}
use theme_srv.Daemon.Client.{gatekeeper, Client, Site}
use theme_srv.Daemon.Gatekeeper.{dispatch_msg, read_msg, encrypted_read}
use theme_srv.Daemon.Handshake.{handle_handshake, handle_ydata, handshake_read, client_read}
use theme_srv.Daemon.Handshake.Order.{
  Phase, connecting, handshaking, seeding, heading, body, Follows, connected, shaken, seeded,
  headed, handled, handler_of, IsIn, header, IsReady,
}
use theme_srv.Daemon.Handshake.Steps.{
  incoming_read-IsReady, read_msg-IsReady, dispatch_msg-IsReady, handle_handshake-IsReady,
  handle_ydata-IsReady,
}

module _ {ev : Cipher} {bn : Bignums} where
  at_handshake :
      (site : Site bn) (cli : Client ev) (n : ℕ) (buf : Bytes)
      → cli.is_encrypted ≡ false
      → cli.want_client_seed ≡ false
      → client_read site cli (gatekeeper n) buf ≡ handle_handshake site cli buf
  unfolding client_read handshake_read
  at_handshake site cli n buf e s = ground arith

  at_seed :
      (site : Site bn) (cli : Client ev) (n : ℕ) (buf : Bytes)
      → cli.is_encrypted ≡ false
      → cli.want_client_seed ≡ true
      → client_read site cli (gatekeeper n) buf
        ≡ handle_ydata site (record cli { want_client_seed = false }) n buf
  unfolding client_read handshake_read
  at_seed site cli n buf e s = ground arith

  pub at_encrypted :
      (site : Site bn) (cli : Client ev) (n : ℕ) (buf : Bytes)
      → cli.is_encrypted ≡ true
      → client_read site cli (gatekeeper n) buf ≡ encrypted_read site cli buf
  unfolding client_read
  at_encrypted site cli n buf e = ground arith

  pub at_header :
      (site : Site bn) (cli : Client ev) (buf : Bytes)
      → cli.want_msg_header ≡ true
      → encrypted_read site cli buf ≡ read_msg (record cli { want_msg_header = false }) buf
  unfolding encrypted_read
  at_header site cli buf e = ground arith

  pub at_body :
      (site : Site bn) (cli : Client ev) (buf : Bytes)
      → cli.want_msg_header ≡ false
      → encrypted_read site cli buf
        ≡ dispatch_msg site
            (record cli {
              base = queue_read cli.base Messages.msg_std_header;
              want_msg_header = true;
            })
            buf
  unfolding encrypted_read
  at_body site cli buf e = ground arith

  -- In a build without decrypted connections: when a handler accepts what a phase of the
  -- connection has read (connection header, handshake, seed, header, body), with the reader at
  -- field 0, the flags, the handler and the queued read of the client are those of the phase
  -- that follows.
  pub client_read-IsReady :
      (site : Site bn) (ph : Phase) (cli cli' : Client ev) (buf : Bytes)
      → site.allow_decrypted ≡ false
      → IsIn ph cli
      → cli.base.reading.field ≡ 0
      → client_read site cli cli.handler buf ≡ some (true, cli')
      → (ph' : Phase) × Follows ph ph' × IsReady ph' cli'
  unfolding client_read queue_read
  client_read-IsReady site ph cli cli' buf strict i f h =
      go ph i (subst (λ k. client_read site cli k buf ≡ some (true, cli')) i.handler_is h)
    where
      go :
          (ph : Phase)
          → IsIn ph cli
          → client_read site cli (handler_of ph) buf ≡ some (true, cli')
          → (ph' : Phase) × Follows ph ph' × IsReady ph' cli'
      go connecting i h = (handshaking, connected, incoming_read-IsReady cli cli' buf i f h)
      go handshaking i h = (
        seeding,
        shaken,
        handle_handshake-IsReady site cli cli' buf strict i f
            (sym (at_handshake site cli 0 buf i.encrypted_is i.seed_is) ∙ h),
      )
      go seeding i h = (
        heading,
        seeded,
        handle_ydata-IsReady site (record cli { want_client_seed = false }) cli' buf i.handler_is
            refl f (sym (at_seed site cli 64 buf i.encrypted_is i.seed_is) ∙ h),
      )
      go heading i h = (
        body,
        headed,
        read_msg-IsReady (record cli { want_msg_header = false }) cli' buf
            (record {
              handler_is = i.handler_is;
              encrypted_is = i.encrypted_is;
              seed_is = i.seed_is;
              header_is = refl;
            })
            (sym (at_encrypted site cli 64 buf i.encrypted_is ∙ at_header site cli buf i.header_is)
              ∙ h),
      )
      go body i h = (
        heading,
        handled,
        dispatch_msg-IsReady site
            (record cli {
              base = queue_read cli.base Messages.msg_std_header;
              want_msg_header = true;
            })
            cli' buf
            (
              record {
                handler_is = i.handler_is;
                encrypted_is = i.encrypted_is;
                seed_is = i.seed_is;
                header_is = refl;
              },
              rw f header,
            )
            (sym (at_encrypted site cli 64 buf i.encrypted_is ∙ at_body site cli buf i.header_is)
              ∙ h),
      )
