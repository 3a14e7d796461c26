-- ===== src/Daemon/Handshake/Order.antt =====
-- The order of the messages of a connection: what a phase reads, and the flags of src/daemon/client.h
-- in it.
use theme_srv.Common.{ℕ, ◌≡◌, Bool, true, false, Option, some}
use theme_srv.Protocol.NetStruct.{NetStruct}
use theme_srv.Protocol.Messages
use theme_srv.Io.Cipher.{Cipher}
use theme_srv.Daemon.Client.{Handler, incoming, gatekeeper, Client}
use theme_srv.Daemon.Gatekeeper.{request_struct}
use theme_srv.Daemon.Handshake.{encrypt_msg}

-- What is read next: the connection header, the handshake header, the client's seed, the type of a
-- message, or the rest of one.
pub data Phase : Type 0 where
  connecting handshaking seeding heading body : Phase

-- The order of the phases, apart from the code.
pub data Follows : Phase → Phase → Type 0 where
  connected : Follows connecting handshaking
  shaken : Follows handshaking seeding
  seeded : Follows seeding heading
  headed : Follows heading body
  handled : Follows body heading

abbrev pub handler_of : Phase → Handler
handler_of connecting = incoming
handler_of handshaking = gatekeeper 0
handler_of _ = gatekeeper 64

abbrev pub encrypted_of : Phase → Bool
encrypted_of heading = true
encrypted_of body = true
encrypted_of _ = false

abbrev pub seed_of : Phase → Bool
seed_of seeding = true
seed_of _ = false

abbrev pub header_of : Phase → Bool
header_of heading = true
header_of _ = false

-- The flags and the handler of a client that is in a phase.
pub record IsIn {ev : Cipher} (ph : Phase) (cli : Client ev) : Type 0 where
  pub handler_is : cli.handler ≡ handler_of ph
  pub encrypted_is : cli.is_encrypted ≡ encrypted_of ph
  pub seed_is : cli.want_client_seed ≡ seed_of ph
  pub header_is : cli.want_msg_header ≡ header_of ph

-- The structure and the field from which on a phase reads.
pub data IsDue : Phase → Option NetStruct → ℕ → Type 0 where
  connection : IsDue connecting (some Messages.connection_header) 0
  handshake : IsDue handshaking (some Messages.encrypt_header) 0
  seed : IsDue seeding (some (encrypt_msg 64)) 0
  header : IsDue heading (some Messages.msg_std_header) 0
  rest : (type : ℕ) {ns : NetStruct} → request_struct type ≡ some ns → IsDue body (some ns) 1

abbrev pub IsReady : {ev : Cipher} → Phase → Client ev → Type 0
IsReady ph cli = IsIn ph cli × IsDue ph cli.base.reading.struct cli.base.reading.field
