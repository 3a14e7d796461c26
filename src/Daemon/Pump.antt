-- ===== src/Daemon/Pump.antt =====
-- src/daemon/client_common.cpp: `pump_read` and `handle_dispatch`.
pub mod Decrypted
pub mod Endings
pub mod Requests
pub mod Answers
pub mod Turns
pub mod Serve
use theme_srv.Common.{ℕ, zero, suc, Bool, true, false, Option, none, some, Bytes, if◌then◌else◌}
use theme_srv.Io.Cipher.{Cipher}
use theme_srv.Io.Crypto.{Bignums}
use theme_srv.Io.Socket.{shutdown}
use theme_srv.Io.ClientBase.{ClientBase, has_pending_read}
use theme_srv.Io.Read.{Handled, message, nothing, trap, hang, handle_read}
use theme_srv.Io.Write.{pump_write}
use theme_srv.Daemon.Client.{Client, Site}
use theme_srv.Daemon.Handshake.{client_read}

-- How a loop over messages goes on: it is over, the next message is due, it faults, or a read
-- did not end.
pub data Turn (ev : Cipher) : Type 0 where
  over next : Client ev → Turn ev
  fault stuck : Turn ev

-- How a callback ends: with the client as it is then, with the client erased, in a fault, or not
-- within the rounds given.
pub data Ending (ev : Cipher) : Type 0 where
  alive : Client ev → Ending ev
  erased faulted unending : Ending ev

module _ {ev : Cipher} where
  abbrev pub shut : Client ev → Client ev
  shut cli = record cli { base = record (cli.base) { socket = shutdown (cli.base.socket) } }

  -- The body of the loop behind the call of the handler.
  unfoldable pub after_handler : Option (Bool × Client ev) → Turn ev
  after_handler none = fault
  after_handler (some (false, cli)) = over (shut cli)
  after_handler (some (true, cli)) = if has_pending_read cli.base then next cli else over (shut cli)

  abbrev pub take_turn : Turn ev → (Client ev → Ending ev) → Ending ev
  take_turn (over cli) again = alive cli
  take_turn (next cli) again = again cli
  take_turn fault again = faulted
  take_turn stuck again = unending

module _ {ev : Cipher} {bn : Bignums} where
  -- What `handle_read` gave; the loop ends on a null pointer.
  unfoldable pub post : Site bn → Client ev → Handled ev → Turn ev
  post site cli (message (some buf) base) =
      after_handler (client_read site (record cli { base = base }) cli.handler buf)
  post site cli (message none base) = over (record cli { base = base })
  post site cli (nothing base) = over (record cli { base = base })
  post site cli trap = fault
  post site cli hang = stuck

  -- `pump_read` over at most `fuel` messages, each with at most `rounds` rounds of `resume_read`.
  unfoldable pub pump_read : Site bn → ℕ → ℕ → Client ev → Ending ev
  pump_read site rounds zero cli = unending
  pump_read site rounds (suc fuel) cli =
      take_turn (post site cli (handle_read rounds cli.base)) (pump_read site rounds fuel)

  after_write : Site bn → ℕ → ℕ → Bool → Client ev → Option (ClientBase ev) → Ending ev
  after_write site rounds fuel readable cli none = faulted
  after_write site rounds fuel readable cli (some base) =
      if readable
      then pump_read site rounds fuel (record cli { base = base })
      else alive (record cli { base = base })

  -- `handle_dispatch`, for the events hang-up, writable and readable.
  unfoldable pub handle_dispatch : Site bn → ℕ → ℕ → Client ev → Bool → Bool → Bool → Ending ev
  unfolding after_write
  handle_dispatch site rounds fuel cli hup writable readable =
      if hup
      then erased
      else after_write site rounds fuel readable cli
          (if writable then pump_write cli.base else some (cli.base))
