-- ===== src/Daemon/Gatekeeper/Replies.antt =====
-- What the handlers of src/daemon/gatekeeper.cpp send: the bytes of each reply on the wire.
use theme_srv.Common.{arith, ◌^◌, ◌<◌, ◌≡◌, refl, true, ◌++◌, some, Bytes, IsBytes, length}
use theme_srv.Protocol.NetStruct.{NetStruct}
use theme_srv.Protocol.Message.{IsMessage, IsMessage-length}
use theme_srv.Protocol.Messages
use theme_srv.Protocol.GatekeeperId
use theme_srv.Io.Cipher.{Cipher, IsStream}
use theme_srv.Io.Crypto.{Bignums}
use theme_srv.Io.Write.Stream.{AreSending, stream}
use theme_srv.Io.Write.Enqueue.{enqueue_write-stream}
use theme_srv.Daemon.Client.{Client, Site}
use theme_srv.Daemon.Gatekeeper.{reply_with, handle_ping, handle_file_srv_req, handle_auth_srv_req}
use theme_srv.Daemon.Gatekeeper.Image.{
  address_reply, file_srv_reply_image, address_reply-IsMessage, length-address_reply,
}

module _ {ev : Cipher} where
  -- What a reply does to the client: the bytes are behind the stream, encrypted, and the rest of
  -- the reader is as it was.
  pub record Replied (cli : Client ev) (m : Bytes) (cli' : Client ev) : Type 0 where
    pub stream_is : stream cli'.base ≡ stream cli.base ++ ev.update cli.base.encrypt m
    pub encrypt_is : cli'.base.encrypt ≡ ev.advance cli.base.encrypt m
    pub are_sending : AreSending cli'.base.writes
    pub want_msg_header_is : cli'.want_msg_header ≡ cli.want_msg_header
    pub is_encrypted_is : cli'.is_encrypted ≡ cli.is_encrypted

module _ {ev : Cipher} (law : IsStream ev) where
  pub reply_with-Replied :
      (cli : Client ev) (ns : NetStruct) (m rest : Bytes)
      → IsMessage ns.fields m
      → length m < 2 ^ 31
      → AreSending cli.base.writes
      → (cli' : Client ev) × (reply_with cli ns (m ++ rest) ≡ some (true, cli'))
        × Replied cli m cli'
  unfolding reply_with
  reply_with-Replied cli ns m rest msg small v =
      let (base, call, s, e, v') = enqueue_write-stream law cli.base ns m rest msg small v in
      (
        record cli { base = base },
        rw call refl,
        record {
          stream_is = s;
          encrypt_is = e;
          are_sending = v';
          want_msg_header_is = refl;
          is_encrypted_is = refl;
        },
      )

  -- Suppose that a cipher works byte by byte and that the buffers that wait are sound. The
  -- handler of a ping of less than 2^64 bytes that the wire format allows returns true and sends
  -- exactly the bytes of the ping, encrypted, behind what was sent before.
  pub handle_ping-Replied :
      (cli : Client ev) (m rest : Bytes)
      → IsMessage (Messages.ping_request.fields) m
      → length m < 2 ^ 64
      → AreSending cli.base.writes
      → (cli' : Client ev) × (handle_ping cli (m ++ rest) ≡ some (true, cli')) × Replied cli m cli'
  unfolding handle_ping
  handle_ping-Replied cli m rest msg small v =
      let short = IsMessage-length msg in
      reply_with-Replied cli Messages.ping_reply m rest msg (omega (arith, short)) v

module _ {ev : Cipher} {bn : Bignums} (law : IsStream ev) where
  -- Suppose that a cipher works byte by byte, that the buffers that wait are sound, that the
  -- reply is built in 56 bytes of memory, whatever they hold, and that the file server's address
  -- has less than 24 characters. The request's handler returns true and sends, encrypted,
  -- exactly the reply of type 1 with the request's number and the address, behind what was sent
  -- before.
  pub handle_file_srv_req-Replied :
      (site : Site bn) (cli : Client ev) (t trans r : Bytes)
      → length site.stack ≡ 56
      → length site.filesrv < 24
      → length t ≡ 2
      → length trans ≡ 4
      → IsBytes trans
      → AreSending cli.base.writes
      → (cli' : Client ev) × (handle_file_srv_req site cli (t ++ (trans ++ r)) ≡ some (true, cli'))
        × Replied cli (address_reply GatekeeperId.file_srv_reply trans site.filesrv) cli'
  unfolding handle_file_srv_req
  handle_file_srv_req-Replied site cli t trans r whole short ht htr bytes v =
      let (rest, image) =
        file_srv_reply_image site.stack t trans r site.filesrv whole ht htr bytes short in
      let (cli', call, got) =
        reply_with-Replied law cli Messages.file_srv_reply
          (address_reply GatekeeperId.file_srv_reply trans site.filesrv) rest
          (address_reply-IsMessage GatekeeperId.file_srv_reply trans site.filesrv htr short)
          (length-address_reply GatekeeperId.file_srv_reply trans site.filesrv htr short) v in
      (cli', rw (image, call) refl, got)

  -- Under the conditions of the handler of file server requests, the handler of auth server
  -- requests sends the auth server's address with the request's number, and with type 1, which
  -- is the type of a file server reply.
  pub handle_auth_srv_req-Replied :
      (site : Site bn) (cli : Client ev) (t trans r : Bytes)
      → length site.stack ≡ 56
      → length site.authsrv < 24
      → length t ≡ 2
      → length trans ≡ 4
      → IsBytes trans
      → AreSending cli.base.writes
      → (cli' : Client ev) × (handle_auth_srv_req site cli (t ++ (trans ++ r)) ≡ some (true, cli'))
        × Replied cli (address_reply GatekeeperId.file_srv_reply trans site.authsrv) cli'
  unfolding handle_auth_srv_req
  handle_auth_srv_req-Replied site cli t trans r whole short ht htr bytes v =
      let (rest, image) =
        file_srv_reply_image site.stack t trans r site.authsrv whole ht htr bytes short in
      let (cli', call, got) =
        reply_with-Replied law cli Messages.file_srv_reply
          (address_reply GatekeeperId.file_srv_reply trans site.authsrv) rest
          (address_reply-IsMessage GatekeeperId.file_srv_reply trans site.authsrv htr short)
          (length-address_reply GatekeeperId.file_srv_reply trans site.authsrv htr short) v in
      (cli', rw (image, call) refl, got)
