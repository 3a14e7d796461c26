-- ===== src/Daemon/Server.antt =====
-- src/daemon/server.cpp: the table of the configuration, the server's construction, and the two
-- generators; and the constructor of `gatekeeper_daemon` in src/daemon/gatekeeper.cpp.
pub mod Defaults
pub mod Stores
pub mod Keys
pub mod Loop
pub mod Startup
use theme_srv.Common.{
  ℕ, zero, suc, ◌+◌, ◌/◌, ◌%◌, Bool, true, false, Option, none, some, List, [], ◌∷◌, ◌++◌, ltb,
  if◌then◌else◌, ◌>>=◌,
}
use theme_srv.Core.Text.{Text, StringTheory, codes, digits}
use theme_srv.Core.Config.{
  ValueType, ConfigItem, ConfigMap, config_parser, get_uint, get_string, get_utf16, set_string,
  theme_config_str, theme_config_int,
}
use theme_srv.Core.Config.Lines.{File, Reading, read_file}
use theme_srv.Io.Crypto.{Bignums}
use theme_srv.Io.Crypto.Keys.{KeyTools, KeyStack, generate_keys, load_keys}

-- s_daemonConfig
abbrev pub daemon_config : List ConfigItem
daemon_config =
    theme_config_str (codes "lobby") (codes "bindaddr") (codes "127.0.0.1") (
      codes
        "Lobby Bind Address\nIP Address that this THEME server should listen for connections on")
    ∷ theme_config_str (codes "lobby") (codes "extaddr") [] (
        codes
          "Lobby External Address\nIP Address that this THEME server can be reached on if behind NAT")
    ∷ theme_config_int (codes "lobby") (codes "port") (codes "14617")
        (codes "Lobby Bind Port\nPort that this THEME server should listen for connections on")
    ∷ theme_config_str (codes "gate") (codes "crypt_k") [] (codes "Private Key")
    ∷ theme_config_str (codes "gate") (codes "crypt_n") [] (codes "Public Key")
    ∷ theme_config_str (codes "gate") (codes "crypt_x") [] (codes "Shared Key")
    ∷ theme_config_int (codes "gate") (codes "crypt_g") (codes "4") (codes "Base Value")
    ∷ theme_config_str (codes "gate") (codes "fileaddr") []
        (codes "File Server Address\nReturn this address to clients asking for a file server")
    ∷ theme_config_str (codes "gate") (codes "authaddr") (codes "184.73.198.22")
        (codes "Auth Server Address\nReturn this address to clients asking for an auth server")
    ∷ theme_config_str (codes "file") (codes "path") []
        (codes "File Server Path\nPath to use for DirtSand-style manifest and file downloads")
    ∷ theme_config_int (codes "file") (codes "maxfds") (codes "1024") (
        codes
          "Maximum File Descriptors\nThis is the maximum number of REGULAR file descriptors that THEME will hold open to avoid blocking system calls.")
    ∷ []

abbrev pub quoted : Text → Text
quoted t = codes "\"" ++ (t ++ codes "\"\n")

abbrev pub or_else : Text → Text → Text
or_else [] t = t
or_else (c ∷ cs) t = c ∷ cs

-- The lines of the client's configuration.
abbrev pub client_ini : ℕ → Text → Text → Text → ℕ → Text
client_ini g n x host port =
    (codes "Server.Gate.G " ++ (digits 10 g ++ codes "\n"))
    ++ ((codes "Server.Gate.N " ++ quoted n)
        ++ ((codes "Server.Gate.X " ++ quoted x)
            ++ ((codes "Server.Gate.Host " ++ quoted host)
                ++ (codes "Server.Port " ++ (digits 10 port ++ codes "\n")))))

module _ (st : StringTheory) where
  -- The constructor, as far as the configuration goes: a missing file leaves the defaults.
  unfoldable pub open_server : File → Reading
  open_server file = (read_file st file (config_parser st daemon_config)).1

  -- What `generate_client_ini` puts into the stream.
  unfoldable pub generate_client_ini : ConfigMap → Option Text
  generate_client_ini config = do
    g ← get_uint st config (codes "gate") (codes "crypt_g")
    n ← get_string st config (codes "gate") (codes "crypt_n")
    x ← get_string st config (codes "gate") (codes "crypt_x")
    bindaddr ← get_string st config (codes "lobby") (codes "bindaddr")
    extaddr ← get_string st config (codes "lobby") (codes "extaddr")
    port ← get_uint st config (codes "lobby") (codes "port")
    some (client_ini g n x (or_else extaddr bindaddr) port)

  module _ {bn : Bignums} (tools : KeyTools bn) (stack : KeyStack) where
    unfoldable pub generate_daemon_keys : ConfigMap → Option ConfigMap
    generate_daemon_keys config = do
      g_value ← get_uint st config (codes "gate") (codes "crypt_g")
      gate_keys ← generate_keys tools stack g_value
      with_k ← set_string st config (codes "gate") (codes "crypt_k") gate_keys.k
      with_n ← set_string st with_k (codes "gate") (codes "crypt_n") gate_keys.n
      set_string st with_n (codes "gate") (codes "crypt_x") gate_keys.x

-- What a `gatekeeper_daemon` holds, and whether its keys were configured; it warns if not.
pub record GatekeeperDaemon (bn : Bignums) : Type 0 where
  pub authsrv : List ℕ
  pub filesrv : List ℕ
  pub crypt_k : bn.Bn
  pub crypt_n : bn.Bn
  pub configured : Bool

-- The constructor
unfoldable pub gatekeeper_daemon :
    StringTheory
    → {bn : Bignums} → KeyTools bn
    → KeyStack
    → ConfigMap
    → Option (GatekeeperDaemon bn)
gatekeeper_daemon st tools stack config = do
  authsrv ← get_utf16 st config (codes "gate") (codes "authaddr")
  filesrv ← get_utf16 st config (codes "gate") (codes "fileaddr")
  keys ← load_keys tools st stack config (codes "gate")
  some (record {
    authsrv = authsrv;
    filesrv = filesrv;
    crypt_k = keys.1;
    crypt_n = keys.2;
    configured = keys.0;
  })
