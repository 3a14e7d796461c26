-- ===== src/Daemon/Handshake.antt =====
-- src/daemon/client_common.cpp: `incoming_client` and `encrypted_handler`, with the choice between
-- them and src/daemon/gatekeeper.cpp that `gatekeeper_server::read` makes.
pub mod Order
pub mod Steps
pub mod Phases
use theme_srv.Common.{
  ℕ, ◌-◌, Bool, true, false, not, ◌&&◌, Option, none, some, Bytes, length, ◌==◌, if◌then◌else◌,
  ◌>>=◌, ◌>>◌, assertd, List, [], ◌∷◌, ◌++◌, to_le,
}
use theme_srv.Protocol.NetStruct.{NetField, NetStruct, blob}
use theme_srv.Protocol.Messages
use theme_srv.Protocol.Packed.{get_uint}
use theme_srv.Io.Cipher.{Cipher}
use theme_srv.Io.Crypto.{Bignums, make_server_key}
use theme_srv.Io.ClientBase.{queue_read, set_crypt_key}
use theme_srv.Io.Write.{enqueue_write}
use theme_srv.Daemon.Client.{Handler, incoming, gatekeeper, Client, Site}
use theme_srv.Daemon.Gatekeeper.{handle_encryption, encrypted_read}

-- The unnamed enumeration of `encrypted_handler`.
abbrev pub c2s_connect : ℕ
c2s_connect = 0

abbrev pub s2c_encrypt : ℕ
s2c_encrypt = 1

-- `m_encryptMsg`, with the `m_count` of `m_encryptBuf`
abbrev pub encrypt_msg : ℕ → NetStruct
encrypt_msg count = record {
  name = "m_encryptMsg";
  fields = record { type = blob; name = "buffer"; elementsz = 1; count = count } ∷ [];
}

-- The message `common_encrypt_s2c`: all of it is set.
abbrev pub encrypt_reply : Bytes → Bytes
encrypt_reply srv_seed = s2c_encrypt ∷ 9 ∷ srv_seed

module _ {ev : Cipher} where
  -- `create_gate` and the constructor of `encrypted_handler`
  unfoldable pub create_gate : Client ev → Client ev
  create_gate cli = record cli {
    handler = gatekeeper 0;
    base = queue_read cli.base Messages.encrypt_header;
  }

  -- `incoming_client::read`
  unfoldable pub incoming_read : Client ev → Bytes → Option (Bool × Client ev)
  incoming_read cli buf = do
    conn_type ← get_uint buf 0 1
    some (if conn_type == Messages.protocol_cli2gate then (true, create_gate cli) else (false, cli))

  unfoldable pub want_seed : Client ev → ℕ → Client ev
  want_seed cli bufsz = record cli {
    handler = gatekeeper (bufsz - 2);
    base = queue_read cli.base (encrypt_msg (bufsz - 2));
    want_client_seed = true;
  }

  -- With the key: reply in the clear, then change the ciphers.
  unfoldable pub establish : Client ev → Bytes → Option Bytes → Option (Bool × Client ev)
  establish cli srv_seed none = some (false, cli)
  establish cli srv_seed (some key) = do
    base ← enqueue_write cli.base Messages.encrypt_s2c (encrypt_reply srv_seed)
    handle_encryption (record cli { base = set_crypt_key base key; is_encrypted = true })

module _ {ev : Cipher} {bn : Bignums} where
  -- `handle_handshake` behind the reading of `get_msgId()` and `get_bufsz()`
  unfoldable pub shake : Site bn → Client ev → ℕ → ℕ → Bool × Client ev
  shake site cli msg_id bufsz =
      if not (msg_id == c2s_connect)
      then (false, cli)
      else if not (bufsz == 2) && not (bufsz == 66)
      then (false, cli)
      else if bufsz == 2
      then if site.allow_decrypted then (true, record cli { is_encrypted = true }) else (false, cli)
      else (true, want_seed cli bufsz)

  unfoldable pub handle_handshake : Site bn → Client ev → Bytes → Option (Bool × Client ev)
  handle_handshake site cli buf = do
    msg_id ← get_uint buf 0 1
    bufsz ← get_uint buf 1 1
    some (shake site cli msg_id bufsz)

  unfoldable pub handle_ydata : Site bn → Client ev → ℕ → Bytes → Option (Bool × Client ev)
  handle_ydata site cli count buf = do
    made ← make_server_key bn site.key_k site.key_n count buf site.random
    establish cli site.random made

  -- `encrypted_handler::read`
  unfoldable pub handshake_read : Site bn → Client ev → ℕ → Bytes → Option (Bool × Client ev)
  handshake_read site cli count buf =
      assertd (not cli.is_encrypted)
      >> (if not cli.want_client_seed
          then handle_handshake site cli buf
          else handle_ydata site (record cli { want_client_seed = false }) count buf)

  -- `m_handler->read(*this, m_socket, buf)`
  unfoldable pub client_read : Site bn → Client ev → Handler → Bytes → Option (Bool × Client ev)
  client_read site cli incoming buf = incoming_read cli buf
  client_read site cli (gatekeeper count) buf =
      if not cli.is_encrypted
      then handshake_read site cli count buf
      else encrypted_read site cli buf
