-- ===== src/Tests/Requests.antt =====
-- Two requests that arrive together on an encrypted connection: a ping of three bytes, and a request
-- for an auth server.
use theme_srv.Common.{◌≡◌, refl, inl, true, some, List, [], ◌∷◌, ◌++◌, Bytes, arith}
use theme_srv.Protocol.Messages
use theme_srv.Io.Socket.{segment}
use theme_srv.Io.Read.Buffer.{fresh}
use theme_srv.Daemon.Client.{Client, gatekeeper}
use theme_srv.Daemon.Pump.{alive, pump_read}
use theme_srv.Daemon.Pump.Answers.{IsFit}
use theme_srv.Daemon.Pump.Requests.{Request, ping, auth_srv}
use theme_srv.Daemon.Pump.Turns.{IsIdle}
use theme_srv.Daemon.Pump.Serve.{wires, turns, Served, pump_read-Served}
use theme_srv.Tests.{counting, counting-IsStream, connected, newcomer, gate}

abbrev both : List Request
both =
    ping (1 ∷ 0 ∷ 0 ∷ 0 ∷ []) (2 ∷ 0 ∷ 0 ∷ 0 ∷ []) (7 ∷ 8 ∷ 9 ∷ [])
    ∷ auth_srv (3 ∷ 0 ∷ 0 ∷ 0 ∷ [])
    ∷ []

abbrev idle : Client counting
idle = record (newcomer []) {
  base = record (connected (segment (wires both) ∷ [])) {
    reading = record {
      struct = some (Messages.msg_std_header);
      field = 0;
      offset = 0;
      bufsz = 0;
      buf = theme_srv.Common.none;
    };
  };
  is_encrypted = true;
  want_msg_header = true;
  handler = gatekeeper 64;
}

idle-IsIdle : IsIdle idle
idle-IsIdle = record {
  handler_is = refl;
  encrypted_is = refl;
  header_is = refl;
  is_at = record {
    struct_is = refl;
    field_is = refl;
    offset_is = refl;
    holds = fresh refl refl;
    no_larger = inl refl;
  };
  are_sending = tt;
}

gate-IsFit : IsFit gate
gate-IsFit = record { stack_is = refl; filesrv_fits = omega arith; authsrv_fits = omega arith }

pump_read-Served_example :
    (cli' : Client counting) × (pump_read gate 2 (turns both) idle ≡ alive cli')
    × Served counting-IsStream gate gate-IsFit (wires both) both idle cli'
pump_read-Served_example =
    pump_read-Served counting-IsStream gate gate-IsFit both 0 idle (wires both) idle-IsIdle
      (
        (refl, refl, omega arith),
        ((refl, (omega arith, (omega arith, (omega arith, (omega arith, tt))))), tt),
      )
      refl refl
