-- ===== src/Daemon/Main.antt =====
-- `main` of src/daemon/main.cpp, behind the flags of the command line.
pub mod Plain
pub mod Restart
use theme_srv.Common.{
  ℕ, Bool, true, false, Option, none, some, List, [], ◌∷◌, ◌++◌, if◌then◌else◌, ◌>>=◌,
}
use theme_srv.Core.Text.{Text, StringTheory, codes}
use theme_srv.Core.BuildInfo.{Build, print_build_info}
use theme_srv.Core.Config.{ConfigMap}
use theme_srv.Core.Config.Lines.{File}
use theme_srv.Core.Config.Print.{write_conf}
use theme_srv.Io.Cipher.{Cipher}
use theme_srv.Io.Crypto.{Bignums}
use theme_srv.Io.Crypto.Keys.{KeyTools, KeyStack}
use theme_srv.Daemon.Server.{open_server, generate_client_ini, generate_daemon_keys}
use theme_srv.Daemon.Server.Startup.{System, Run, serves, returns_false, aborts, hangs, run}

-- The flags that gflags has parsed
pub record Flags : Type 0 where
  pub flags_config_path : Text
  pub flags_generate_client_ini : Text
  pub flags_generate_keys : Bool
  pub flags_save_config : Bool

-- A file that is written: the client's configuration, or the lines of the server's.
pub data Written : Type 0 where
  ini : Text → Text → Written
  saved : Text → List Text → Written

-- What the program has printed and written when it calls `run`, with the configuration, and how
-- `run` goes on.
pub record Launch (ev : Cipher) (bn : Bignums) : Type 0 where
  pub printed : Text
  pub config : ConfigMap
  pub files : List Written
  pub goes_on : Run ev bn

-- The exit status, where `run` returns; it never returns true.
pub exit_status : {ev : Cipher} {bn : Bignums} → Run ev bn → Option ℕ
exit_status (serves w daemon) = none
exit_status returns_false = some 1
exit_status aborts = none
exit_status hangs = none

module _ (st : StringTheory) where
  -- The second `if`
  ini_files : Text → ConfigMap → Option (List Written)
  ini_files [] config = some []
  ini_files (c ∷ cs) config = do text ← generate_client_ini st config; some (ini (c ∷ cs) text ∷ [])

  -- The third `if`
  saved_files : Bool → Text → ConfigMap → List Written
  saved_files false path config = []
  saved_files true path config = saved path (write_conf st config) ∷ []

  -- The first `if`
  keyed_config : {bn : Bignums} → KeyTools bn → KeyStack → Bool → ConfigMap → Option ConfigMap
  keyed_config tools stack false config = some config
  keyed_config tools stack true config = generate_daemon_keys st tools stack config

  module _ {ev : Cipher} {bn : Bignums} (tools : KeyTools bn) (build : Build) (sys : System) where
    -- `file` is what stands at the path of the configuration; `none` is a failed assertion before
    -- `run`.
    unfoldable pub main : Flags → File → KeyStack → KeyStack → ℕ → Option (Launch ev bn)
    unfolding keyed_config ini_files saved_files
    main flags file stack later rounds = do
      config ← keyed_config tools stack flags.flags_generate_keys (open_server st file).conf
      inis ← ini_files flags.flags_generate_client_ini config
      some (record {
        printed =
            print_build_info build
            ++ (if flags.flags_generate_keys then codes "Generating keys...\n" else []);
        config = config;
        files = inis ++ saved_files flags.flags_save_config flags.flags_config_path config;
        goes_on = run sys st tools later rounds config;
      })
