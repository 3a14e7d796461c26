-- ===== src/Tests/Serving.antt =====
-- The handlers on the messages of a connection to the gatekeeper.
use theme_srv.Common.{◌≡◌, refl, true, [], ◌∷◌, ◌++◌, some, Bytes, IsBytes, arith, from_le, read_at}
use theme_srv.Protocol.Packed.{get_uint}
use theme_srv.Io.Read.{message}
use theme_srv.Daemon.Client.{Client, Site, gatekeeper}
use theme_srv.Daemon.Gatekeeper.{handle_ping, handle_file_srv_req, handle_auth_srv_req}
use theme_srv.Daemon.Gatekeeper.Image.{address_reply}
use theme_srv.Daemon.Gatekeeper.Replies.{
  Replied, handle_ping-Replied, handle_file_srv_req-Replied, handle_auth_srv_req-Replied,
}
use theme_srv.Daemon.Handshake.{create_gate, incoming_read, client_read}
use theme_srv.Daemon.Handshake.Phases.{client_read-IsReady}
use theme_srv.Daemon.Handshake.Order.{Phase, connecting, Follows, IsReady}
use theme_srv.Daemon.Pump.{over, shut, post}
use theme_srv.Daemon.Pump.Decrypted.{post-decrypted}
use theme_srv.Tests.{counting, counting-IsStream, newcomer, small_numbers, gate}
use theme_srv.Tests.Receiving.{ping_body}
use theme_srv.Tests.Sending.{reply-IsMessage}

abbrev caller : Client counting
caller = newcomer []

abbrev number : Bytes
number = 1 ∷ 2 ∷ 3 ∷ 4 ∷ []

number-IsBytes : IsBytes number
number-IsBytes = (omega arith, (omega arith, (omega arith, (omega arith, tt))))

handle_ping-Replied_example :
    (cli' : Client counting) × (handle_ping caller (((0 ∷ 0 ∷ []) ++ ping_body) ++ 9 ∷ [])
      ≡ some (true, cli'))
    × Replied caller ((0 ∷ 0 ∷ []) ++ ping_body) cli'
handle_ping-Replied_example =
    handle_ping-Replied counting-IsStream caller ((0 ∷ 0 ∷ []) ++ ping_body) (9 ∷ [])
      reply-IsMessage (omega arith) tt

handle_file_srv_req-Replied_example :
    (cli' : Client counting) × (handle_file_srv_req gate caller ((1 ∷ 0 ∷ []) ++ (number ++ 0 ∷ []))
      ≡ some (true, cli'))
    × Replied caller (address_reply 1 number (51 ∷ [])) cli'
handle_file_srv_req-Replied_example =
    handle_file_srv_req-Replied counting-IsStream gate caller (1 ∷ 0 ∷ []) number (0 ∷ []) refl
      (omega arith) refl refl number-IsBytes tt

handle_auth_srv_req-Replied_example :
    (cli' : Client counting) × (handle_auth_srv_req gate caller ((2 ∷ 0 ∷ []) ++ (number ++ []))
      ≡ some (true, cli'))
    × Replied caller (address_reply 1 number (49 ∷ 50 ∷ [])) cli'
handle_auth_srv_req-Replied_example =
    handle_auth_srv_req-Replied counting-IsStream gate caller (2 ∷ 0 ∷ []) number [] refl
      (omega arith) refl refl number-IsBytes tt

header_run :
    client_read gate caller (caller.handler) (22 ∷ 31 ∷ []) ≡ some (true, create_gate caller)
unfolding client_read incoming_read get_uint from_le read_at
header_run = refl

client_read-IsReady_example :
    (ph' : Phase) × Follows connecting ph' × IsReady ph' (create_gate caller)
client_read-IsReady_example =
    client_read-IsReady gate connecting caller (create_gate caller) (22 ∷ 31 ∷ []) refl
      (record { handler_is = refl; encrypted_is = refl; seed_is = refl; header_is = refl }) refl
      header_run

abbrev lax_gate : Site small_numbers
lax_gate = record gate { allow_decrypted = true }

abbrev shaking : Client counting
shaking = record caller { handler = gatekeeper 0 }

post-decrypted_example :
    post lax_gate shaking (message (some (0 ∷ 2 ∷ [])) caller.base)
    ≡ over (shut (record shaking { base = caller.base; is_encrypted = true }))
post-decrypted_example = post-decrypted lax_gate shaking (caller.base) 0 [] refl refl refl refl refl
