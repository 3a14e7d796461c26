-- ===== src/Daemon/Pump/Decrypted.antt =====
-- The handshake for a decrypted connection in src/daemon/client_common.cpp, in a build that defines
-- THEME_ALLOW_DECRYPTED_CONNECTIONS.
use theme_srv.Common.{
  ℕ, ◌+◌, ◌*◌, ◌≡◌, ap, true, false, none, some, [], ◌∷◌, Bytes, from_le, read_at-append, arith,
}
use theme_srv.Protocol.Packed.{get_uint}
use theme_srv.Io.Cipher.{Cipher}
use theme_srv.Io.Crypto.{Bignums}
use theme_srv.Io.Read.{message}
use theme_srv.Io.ClientBase.{ClientBase}
use theme_srv.Daemon.Client.{gatekeeper, Client, Site}
use theme_srv.Daemon.Handshake.{shake, handle_handshake, handshake_read, client_read}
use theme_srv.Daemon.Pump.{over, shut, after_handler, post}

first_bytes :
    (a b : ℕ) (bs : Bytes)
    → (get_uint (a ∷ b ∷ bs) 0 1 ≡ some a) × (get_uint (a ∷ b ∷ bs) 1 1 ≡ some b)
unfolding get_uint from_le
first_bytes a b bs =
    let one : a + 256 * 0 ≡ a = omega arith in
    let two : b + 256 * 0 ≡ b = omega arith in
    (
      rw (read_at-append [] (a ∷ []) (b ∷ bs)) (ap some one),
      rw (read_at-append (a ∷ []) (b ∷ []) bs) (ap some two),
    )

-- In a build with decrypted connections: when the reader gave the handshake of message 0 and
-- size 2 and was reset, for a client whose handler is the gatekeeper's, that is not encrypted
-- and has not been asked for a seed, the handshake is accepted and yet the connection is shut
-- down, since no further read is queued.
pub post-decrypted :
    {ev : Cipher} {bn : Bignums} (site : Site bn) (cli : Client ev) (base : ClientBase ev)
    (count : ℕ) (bs : Bytes)
    → site.allow_decrypted ≡ true
    → cli.handler ≡ gatekeeper count
    → cli.is_encrypted ≡ false
    → cli.want_client_seed ≡ false
    → base.reading.struct ≡ none
    → post site cli (message (some (0 ∷ 2 ∷ bs)) base)
      ≡ over (shut (record cli { base = base; is_encrypted = true }))
unfolding post after_handler client_read handshake_read handle_handshake shake
post-decrypted site cli base count bs lax h e s idle =
    let (one, two) = first_bytes 0 2 bs in simp (h, e, s) (simp (one, two, lax, idle))
