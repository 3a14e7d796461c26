-- ===== src/Daemon/Gatekeeper.antt =====
-- src/daemon/gatekeeper.cpp: `gatekeeper_server` behind the encryption handshake. A handler gives
-- its Boolean and the client; `none` is a trap or an access outside a buffer.
pub mod Image
pub mod Replies
use theme_srv.Common.{
  ℕ, Bool, true, false, Option, none, some, Bytes, ◌==◌, if◌then◌else◌, ◌>>=◌, List,
}
use theme_srv.Protocol.NetStruct.{NetStruct}
use theme_srv.Protocol.Messages
use theme_srv.Protocol.GatekeeperId
use theme_srv.Protocol.Packed.{get_uint, set_uint, set_string_utf16}
use theme_srv.Io.Cipher.{Cipher}
use theme_srv.Io.Crypto.{Bignums}
use theme_srv.Io.ClientBase.{queue_read, resume_read_at}
use theme_srv.Io.Write.{enqueue_write}
use theme_srv.Daemon.Client.{Client, Site}

module _ {ev : Cipher} where
  -- `cli.write(msg)` as the last step of a handler
  unfoldable pub reply_with : Client ev → NetStruct → Bytes → Option (Bool × Client ev)
  reply_with cli ns msg = do
    base ← enqueue_write cli.base ns msg
    some (true, record cli { base = base })

  unfoldable pub handle_ping : Client ev → Bytes → Option (Bool × Client ev)
  handle_ping cli req = reply_with cli Messages.ping_reply req

-- A `gatekeeper_fileSrvReply` with the request's number and an address, in memory `stack`.
unfoldable pub file_srv_reply : Bytes → Bytes → List ℕ → Option Bytes
file_srv_reply stack req address = do
  typed ← set_uint stack 0 2 GatekeeperId.file_srv_reply
  trans_id ← get_uint req 2 4
  numbered ← set_uint typed 2 4 trans_id
  set_string_utf16 numbered 6 24 address

module _ {ev : Cipher} {bn : Bignums} where
  unfoldable pub handle_file_srv_req : Site bn → Client ev → Bytes → Option (Bool × Client ev)
  handle_file_srv_req site cli req = do
    reply ← file_srv_reply site.stack req site.filesrv
    reply_with cli Messages.file_srv_reply reply

  unfoldable pub handle_auth_srv_req : Site bn → Client ev → Bytes → Option (Bool × Client ev)
  handle_auth_srv_req site cli req = do
    reply ← file_srv_reply site.stack req site.authsrv
    reply_with cli Messages.file_srv_reply reply

  unfoldable pub dispatch_msg : Site bn → Client ev → Bytes → Option (Bool × Client ev)
  dispatch_msg site cli buf = do
    type ← get_uint buf 0 2
    if type == GatekeeperId.ping_request
        then handle_ping cli buf
        else if type == GatekeeperId.file_srv_request
        then handle_file_srv_req site cli buf
        else if type == GatekeeperId.auth_srv_request
        then handle_auth_srv_req site cli buf
        else some (false, cli)

-- The `switch` of `read_msg`.
unfoldable pub request_struct : ℕ → Option NetStruct
request_struct type =
    if type == GatekeeperId.ping_request
    then some (Messages.ping_request)
    else if type == GatekeeperId.file_srv_request
    then some (Messages.file_srv_request)
    else if type == GatekeeperId.auth_srv_request
    then some (Messages.auth_srv_request)
    else none

module _ {ev : Cipher} where
  -- `handle_encryption`
  unfoldable pub handle_encryption : Client ev → Option (Bool × Client ev)
  handle_encryption cli = some (
    true,
    record cli { base = queue_read cli.base Messages.msg_std_header; want_msg_header = true },
  )

  unfoldable pub read_known : Client ev → Bytes → Option NetStruct → Bool × Client ev
  read_known cli buf none = (false, cli)
  read_known cli buf (some ns) =
      (true, record cli { base = resume_read_at cli.base ns 1 (some buf) })

  unfoldable pub read_msg : Client ev → Bytes → Option (Bool × Client ev)
  unfolding read_known
  read_msg cli buf = do type ← get_uint buf 0 2; some (read_known cli buf (request_struct type))

module _ {ev : Cipher} {bn : Bignums} where
  -- `read` of an encrypted connection
  unfoldable pub encrypted_read : Site bn → Client ev → Bytes → Option (Bool × Client ev)
  encrypted_read site cli buf =
      if cli.want_msg_header
      then read_msg (record cli { want_msg_header = false }) buf
      else dispatch_msg site
          (record cli {
            base = queue_read cli.base Messages.msg_std_header;
            want_msg_header = true;
          })
          buf
