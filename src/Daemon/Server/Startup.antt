-- ===== src/Daemon/Server/Startup.antt =====
-- `run` of src/daemon/server.cpp up to its loop: `init_fds` with its failures, and `init_servers`.
use theme_srv.Common.{
  ℕ, ◌%◌, ◌^◌, ◌≡◌, refl, Bool, true, false, Option, none, some, List, [], if◌then◌else◌,
}
use theme_srv.Core.Text.{Text, StringTheory, codes}
use theme_srv.Core.Config.{ConfigMap, get_string, get_uint}
use theme_srv.Core.Config.Lines.{c_str}
use theme_srv.Io.Cipher.{Cipher}
use theme_srv.Io.Crypto.{Bignums}
use theme_srv.Io.Crypto.Keys.{KeyTools, KeyStack}
use theme_srv.Io.Poll.{Poll, add_fd}
use theme_srv.Io.Socket.Bind.{Attempt, Bound, binds, fails, endless, bind}
use theme_srv.Daemon.Server.{GatekeeperDaemon, gatekeeper_daemon}
use theme_srv.Daemon.Server.Loop.{World, listening}

-- What the system does at the start: `getaddrinfo`, `::socket` with `::bind` at an address in a
-- round of the loop, `::listen`, and whether the kernel takes a descriptor to watch it.
pub record System : Type 1 where
  pub Addr : Type 0
  pub resolve : Text → ℕ → Option (List Addr)
  pub attempt : Addr → ℕ → Attempt
  pub listens : ℕ → Bool
  pub has_room : ℕ → Bool

-- How `init_fds` ends: with true, with false, in an assertion, or not within the rounds given.
pub data Started (ev : Cipher) : Type 0 where
  ready : World ev → Started ev
  refused trapped unending : Started ev

-- How `run` goes on: it returns false, or serves in its loop. (`m_active` is set once, to true, so
-- that the loop is not left.)
pub data Run (ev : Cipher) (bn : Bignums) : Type 0 where
  serves : World ev → GatekeeperDaemon bn → Run ev bn
  returns_false aborts hangs : Run ev bn

-- `poll_dispatch::create`
abbrev pub fresh_poll : Poll
fresh_poll = record { callbacks = []; watched = [] }

module _ {ev : Cipher} where
  -- The `THEME_ASSERTR` around `add_fd`
  asserted : ℕ → Bool × Poll → Started ev
  asserted fd (false, poll) = trapped
  asserted fd (true, poll) =
      ready (record { listen_fd = fd; poll = poll; clients = []; pending = [] })

  module _ (sys : System) where
    on_bound : Bound → Started ev
    unfolding asserted
    on_bound fails = refused
    on_bound endless = unending
    on_bound (binds fd) =
        if sys.listens fd then asserted fd (add_fd fresh_poll fd (sys.has_room fd)) else refused

    bind_config : ℕ → Option Text → Option ℕ → Started ev
    unfolding on_bound
    bind_config rounds none port = trapped
    bind_config rounds (some bindaddr) none = trapped
    bind_config rounds (some bindaddr) (some port) =
        on_bound (bind sys.attempt rounds (sys.resolve (c_str bindaddr) (port % 2 ^ 16)))

    -- `bind` takes the port as a `uint16_t`.
    unfoldable pub init_fds : StringTheory → ℕ → ConfigMap → Started ev
    unfolding bind_config
    init_fds st rounds config =
        bind_config rounds (get_string st config (codes "lobby") (codes "bindaddr"))
          (get_uint st config (codes "lobby") (codes "port"))

module _ {ev : Cipher} {bn : Bignums} where
  -- `init_servers`, and the loop
  serve_with : World ev → Option (GatekeeperDaemon bn) → Run ev bn
  serve_with w none = aborts
  serve_with w (some daemon) = serves w daemon

  then_serve : Started ev → Option (GatekeeperDaemon bn) → Run ev bn
  unfolding serve_with
  then_serve (ready w) daemon = serve_with w daemon
  then_serve refused daemon = returns_false
  then_serve trapped daemon = aborts
  then_serve unending daemon = hangs

  unfoldable pub run : System → StringTheory → KeyTools bn → KeyStack → ℕ → ConfigMap → Run ev bn
  unfolding then_serve
  run sys st tools stack rounds config =
      then_serve (init_fds sys st rounds config) (gatekeeper_daemon st tools stack config)

module _ {ev : Cipher} where
  -- Where nothing fails, the server listens, and watches nothing else.
  pub init_fds-listening :
      (sys : System) (st : StringTheory) (rounds : ℕ) (config : ConfigMap) (bindaddr : Text)
      (port fd : ℕ)
      → get_string st config (codes "lobby") (codes "bindaddr") ≡ some bindaddr
      → get_uint st config (codes "lobby") (codes "port") ≡ some port
      → bind sys.attempt rounds (sys.resolve (c_str bindaddr) (port % 2 ^ 16)) ≡ binds fd
      → sys.listens fd ≡ true
      → sys.has_room fd ≡ true
      → init_fds sys st rounds config ≡ ready (listening {ev = ev} fd)
  unfolding init_fds add_fd
  init_fds-listening sys st rounds config bindaddr port fd ha hp hb hl hr =
      rw (ha, hp, hb, hl, hr) refl
