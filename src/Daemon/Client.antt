-- ===== src/Daemon/Client.antt =====
-- src/daemon/client.h and the construction in client_common.cpp: a connection, its flags and its
-- handler.
use theme_srv.Common.{ℕ, List, Bool, false, Bytes}
use theme_srv.Protocol.Messages.{connection_header}
use theme_srv.Io.Cipher.{Cipher}
use theme_srv.Io.Crypto.{Bignums}
use theme_srv.Io.Socket.{Socket}
use theme_srv.Io.ClientBase.{ClientBase, init, queue_read}

-- Which `client_handler` the client has: `s_incomingHandler`, or a `gatekeeper_server`, with the
-- `m_count` of its `m_encryptBuf`.
pub data Handler : Type 0 where
  incoming : Handler
  gatekeeper : ℕ → Handler

-- The bits of `m_flags` are Booleans.
pub record Client (ev : Cipher) : Type 0 where
  pub base : ClientBase ev
  pub is_polling : Bool
  pub is_encrypted : Bool
  pub want_client_seed : Bool
  pub want_msg_header : Bool
  pub handler : Handler

-- What a handler finds around it: the addresses and the keys of the `gatekeeper_daemon`, whether
-- THEME_ALLOW_DECRYPTED_CONNECTIONS is defined, the next bytes of `RAND_bytes`, and the memory on
-- the stack in which a reply is built.
pub record Site (bn : Bignums) : Type 0 where
  pub authsrv : List ℕ
  pub filesrv : List ℕ
  pub key_k : bn.Bn
  pub key_n : bn.Bn
  pub allow_decrypted : Bool
  pub random : Bytes
  pub stack : Bytes

-- The constructor; `added` is what `add_fd` gives.
pub open_client : {ev : Cipher} → Socket → Bool → Client ev
open_client sock added = record {
  base = queue_read (init sock) connection_header;
  is_polling = added;
  is_encrypted = false;
  want_client_seed = false;
  want_msg_header = false;
  handler = incoming;
}
