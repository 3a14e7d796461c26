-- ===== src/Daemon/Pump/Answers.antt =====
-- `dispatch_msg` of src/daemon/gatekeeper.cpp on each request that it serves.
use theme_srv.Common.{
  ℕ, ◌<◌, ◌≡◌, refl, ap, ◌∙◌, subst, true, some, List, [], ◌++◌, Bytes, length, arith, append_assoc,
  ◌>>=◌, >>=-eq-some,
}
use theme_srv.Protocol.NetStruct.{NetStruct}
use theme_srv.Protocol.Message.{fixed}
use theme_srv.Protocol.Messages
use theme_srv.Io.Cipher.{Cipher, IsStream}
use theme_srv.Io.Crypto.{Bignums}
use theme_srv.Io.ClientBase.{alloc_sz}
use theme_srv.Io.Write.{enqueue_write}
use theme_srv.Io.Write.Stream.{AreSending}
use theme_srv.Io.Write.Enqueue.{Leaves, enqueue_write-Leaves}
use theme_srv.Daemon.Client.{Client, Site}
use theme_srv.Daemon.Gatekeeper.{
  reply_with, handle_ping, file_srv_reply, handle_file_srv_req, handle_auth_srv_req, dispatch_msg,
}
use theme_srv.Daemon.Gatekeeper.Replies.{
  Replied, handle_ping-Replied, handle_file_srv_req-Replied, handle_auth_srv_req-Replied,
}
use theme_srv.Daemon.Handshake.Steps.{accepted}
use theme_srv.Daemon.Pump.Requests.{
  Request, ping, file_srv, auth_srv, type_bytes, body_of, IsRequest, answer, body_of-IsMessage,
  body_of_fits, get_uint-type_bytes,
}

-- The memory for a reply is as long as it is declared, and the addresses fit their arrays.
pub record IsFit {bn : Bignums} (site : Site bn) : Type 0 where
  pub stack_is : length site.stack ≡ 56
  pub filesrv_fits : length site.filesrv < 24
  pub authsrv_fits : length site.authsrv < 24

module _ {ev : Cipher} where
  -- What a reply leaves alone: the reader, the handler and the flags.
  pub record Stays (cli cli' : Client ev) : Type 0 where
    pub base_is : Leaves cli.base cli'.base
    pub handler_is : cli'.handler ≡ cli.handler
    pub encrypted_is : cli'.is_encrypted ≡ cli.is_encrypted
    pub header_is : cli'.want_msg_header ≡ cli.want_msg_header

  reply_with-Stays :
      (cli cli' : Client ev) (ns : NetStruct) (msg : Bytes)
      → reply_with cli ns msg ≡ some (true, cli')
      → Stays cli cli'
  unfolding reply_with
  reply_with-Stays cli cli' ns msg h =
      let (base, e, h₁) = >>=-eq-some (enqueue_write cli.base ns msg) _ h in
      subst (λ c. Stays cli c) (accepted (record cli { base = base }) cli' h₁)
        (record {
          base_is = enqueue_write-Leaves cli.base base ns msg e;
          handler_is = refl;
          encrypted_is = refl;
          header_is = refl;
        })

  address-Stays :
      (cli cli' : Client ev) (stack buf : Bytes) (address : List ℕ)
      → (file_srv_reply stack buf address >>= reply_with cli Messages.file_srv_reply)
        ≡ some (true, cli')
      → Stays cli cli'
  address-Stays cli cli' stack buf address h =
      let (reply, e, h₁) =
        >>=-eq-some (file_srv_reply stack buf address) (reply_with cli Messages.file_srv_reply) h in
      reply_with-Stays cli cli' Messages.file_srv_reply reply h₁

module _ {ev : Cipher} {bn : Bignums} (law : IsStream ev) (site : Site bn) (fit : IsFit site) where
  pub dispatch_msg-answer :
      (r : Request) (cli : Client ev) (pad : Bytes)
      → IsRequest r
      → AreSending cli.base.writes
      → (cli' : Client ev) × (dispatch_msg site cli (type_bytes r ++ (body_of r ++ pad))
          ≡ some (true, cli'))
        × Replied cli (answer site r) cli'
        × Stays cli cli'
  unfolding dispatch_msg handle_ping handle_file_srv_req handle_auth_srv_req alloc_sz
  dispatch_msg-answer (ping time trans payload) cli pad is v =
      let r = ping time trans payload in
      let fits = (body_of_fits r is).1 in
      let (cli', call, got) =
        handle_ping-Replied law cli (type_bytes r ++ body_of r) pad
          (fixed (type_bytes r) refl (omega arith) refl (body_of-IsMessage r is))
          (omega (arith, fits)) v in
      (
        cli',
        rw (get_uint-type_bytes r (body_of r ++ pad)) call,
        got,
        reply_with-Stays cli cli' Messages.ping_reply (type_bytes r ++ (body_of r ++ pad)) call,
      )
  dispatch_msg-answer (file_srv trans is_patcher) cli pad is v =
      let r = file_srv trans is_patcher in
      let (cli', call, got) =
        handle_file_srv_req-Replied law site cli (type_bytes r) trans ((is_patcher ++ []) ++ pad)
          fit.stack_is fit.filesrv_fits refl is.0 is.2 v in
      let call' : handle_file_srv_req site cli (type_bytes r ++ (body_of r ++ pad))
          ≡ some (true, cli') =
        ap (λ b. handle_file_srv_req site cli (type_bytes r ++ b))
          (append_assoc trans (is_patcher ++ []) pad)
        ∙ call in
      (
        cli',
        rw (get_uint-type_bytes r (body_of r ++ pad)) call',
        got,
        address-Stays cli cli' site.stack (type_bytes r ++ (body_of r ++ pad)) site.filesrv call',
      )
  dispatch_msg-answer (auth_srv trans) cli pad is v =
      let r = auth_srv trans in
      let (cli', call, got) =
        handle_auth_srv_req-Replied law site cli (type_bytes r) trans ([] ++ pad) fit.stack_is
          fit.authsrv_fits refl is.0 is.1 v in
      let call' : handle_auth_srv_req site cli (type_bytes r ++ (body_of r ++ pad))
          ≡ some (true, cli') =
        ap (λ b. handle_auth_srv_req site cli (type_bytes r ++ b)) (append_assoc trans [] pad)
        ∙ call in
      (
        cli',
        rw (get_uint-type_bytes r (body_of r ++ pad)) call',
        got,
        address-Stays cli cli' site.stack (type_bytes r ++ (body_of r ++ pad)) site.authsrv call',
      )
