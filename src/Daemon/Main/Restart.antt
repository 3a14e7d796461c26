-- ===== src/Daemon/Main/Restart.antt =====
-- From `main` of src/daemon/main.cpp, with keys generated and the configuration saved, to the next
-- start of the server.
use mathlib.Core.Path.{fun_ext}
use theme_srv.Common.{
  ℕ, true, some, List, [], ◌∷◌, ◌++◌, ◌≡◌, refl, ap, sym, ◌∙◌, subst, if◌then◌else◌,
}
use theme_srv.Core.Text.{Text, StringTheory, codes, same}
use theme_srv.Core.BuildInfo.{Build, print_build_info}
use theme_srv.Core.Config.{
  ConfigMap, config_parser, find, find_item, get_value, get_uint, get_utf16, insert_item, assign,
}
use theme_srv.Core.Config.Shape.{shape}
use theme_srv.Core.Config.Lines.{File, lines}
use theme_srv.Core.Config.Print.{write_conf}
use theme_srv.Core.Config.Print.Classified.{IsTrimming}
use theme_srv.Core.Config.Print.Reread.{IsPrintable}
use theme_srv.Core.Config.Print.Distinct.{
  DistinctKeys, AllDistinct, DistinctKeys-shape, AllDistinct-shape,
}
use theme_srv.Core.Config.Print.Kept.{IsKept}
use theme_srv.Core.Config.Print.Restored.{read_file-write_conf_same}
use theme_srv.Io.Cipher.{Cipher}
use theme_srv.Io.Crypto.{Bignums}
use theme_srv.Io.Crypto.Keys.{KeyTools, IsKeyTools, KeyStack, Finds, load_keys}
use theme_srv.Daemon.Server.{
  daemon_config, open_server, generate_client_ini, GatekeeperDaemon, gatekeeper_daemon,
}
use theme_srv.Daemon.Server.Defaults.{FoldsAscii, is_lowered, IsDaemons, generate_client_ini_total}
use theme_srv.Daemon.Server.Keys.{generate_daemon_keys-Agrees}
use theme_srv.Daemon.Server.Startup.{System, run}
use theme_srv.Daemon.Main.{
  Flags, Written, ini, saved, Launch, keyed_config, ini_files, saved_files, main,
}
use theme_srv.Daemon.Main.Plain.{PrintsPlain, generate_daemon_keys_plain}

module _ (st : StringTheory) (folds : FoldsAscii st) where
  daemon_distinct :
      DistinctKeys st (shape (config_parser st daemon_config))
      × AllDistinct st (shape (config_parser st daemon_config))
  unfolding find config_parser insert_item assign same
  daemon_distinct =
      subst
        (λ s.
          DistinctKeys s (shape (config_parser s daemon_config))
          × AllDistinct s (shape (config_parser s daemon_config)))
        (sym (is_lowered st folds))
        (
          (refl, (refl, (refl, tt))),
          (
            (refl, (refl, (refl, tt))),
            ((refl, (refl, (refl, (refl, (refl, (refl, tt)))))), ((refl, (refl, tt)), tt)),
          ),
        )

  module _ {bn : Bignums} (tools : KeyTools bn) where
    -- The gatekeeper looks at nothing but the items.
    gatekeeper_daemon_same :
        (later : KeyStack) (conf conf' : ConfigMap)
        → ((s key : Text) → find_item st conf s key ≡ find_item st conf' s key)
        → gatekeeper_daemon st tools later conf ≡ gatekeeper_daemon st tools later conf'
    unfolding gatekeeper_daemon get_utf16 load_keys get_value get_uint
    gatekeeper_daemon_same later conf conf' h =
        let items : find_item st conf ≡ find_item st conf' =
          fun_ext (λ s. fun_ext (λ key. h s key)) in
        rw items refl

    generate_client_ini_same :
        (conf conf' : ConfigMap)
        → ((s key : Text) → find_item st conf s key ≡ find_item st conf' s key)
        → generate_client_ini st conf ≡ generate_client_ini st conf'
    unfolding generate_client_ini get_value get_uint
    generate_client_ini_same conf conf' h =
        let items : find_item st conf ≡ find_item st conf' =
          fun_ext (λ s. fun_ext (λ key. h s key)) in
        rw items refl

    -- The configuration that is saved is the one that the next start has.
    saved_same :
        IsTrimming st
        → (conf : ConfigMap) → IsDaemons st conf
        → IsPrintable conf
        → IsKept conf
        → (s key : Text)
        → find_item st (open_server st (lines (write_conf st conf))).conf s key
          ≡ find_item st conf s key
    unfolding open_server
    saved_same trims conf is_daemons printable kept s key =
        let distinct = daemon_distinct in
        let sections = subst (DistinctKeys st) (sym is_daemons) distinct.0 in
        let items = subst (AllDistinct st) (sym is_daemons) distinct.1 in
        read_file-write_conf_same st trims conf (config_parser st daemon_config) s key is_daemons
          (DistinctKeys-shape st conf sections) (AllDistinct-shape st conf items) printable kept

    ini_files_total :
        (path : Text) (conf : ConfigMap)
        → IsDaemons st conf
        → (inis : List Written) × (ini_files st path conf ≡ some inis)
    unfolding ini_files
    ini_files_total [] conf is_daemons = ([], refl)
    ini_files_total (c ∷ cs) conf is_daemons =
        let (text, call) = generate_client_ini_total st folds conf is_daemons in
        (ini (c ∷ cs) text ∷ [], rw call refl)

    -- The program writes its configuration, and the next start reads it.
    pub record Restarts (ev : Cipher) (build : Build) (sys : System) (flags : Flags) (file : File)
        (stack later again : KeyStack) (rounds : ℕ) (k n : bn.Bn) : Type 0 where
      pub launch : Launch ev bn
      pub inis : List Written
      pub text : List Text
      pub daemon : GatekeeperDaemon bn
      pub runs : main st tools build sys flags file stack later rounds ≡ some launch
      pub writes : launch.files ≡ inis ++ saved flags.flags_config_path text ∷ []
      pub loads : gatekeeper_daemon st tools again (open_server st (lines text)).conf ≡ some daemon
      pub k_is : daemon.crypt_k ≡ k
      pub n_is : daemon.crypt_n ≡ n
      pub configured : daemon.configured ≡ true
      pub same_ini :
          generate_client_ini st (open_server st (lines text)).conf
          ≡ generate_client_ini st launch.config

    module _ {ev : Cipher} (build : Build) (sys : System) where
      -- Suppose that texts are folded as ASCII is and trimmed of spaces at their ends, that
      -- base64 has only characters without a meaning in a configuration, that OpenSSL finds two
      -- primes `k` and `n` of 64 bytes, that numbers and base64 are read back as they are
      -- written, and that the values of the configuration file can be written and are not empty
      -- unless they are strings. With the flags to generate keys and to save the configuration,
      -- `main` gets to its call of `run`, and the last file that it writes is the configuration,
      -- under its path. When the server starts again with this file, the gatekeeper loads `k`
      -- and `n` as configured keys, and the client's configuration is the one that the first run
      -- had.
      pub main-Restarts :
          (flags : Flags) (file : File) (stack later again : KeyStack) (rounds : ℕ) (k n : bn.Bn)
          → IsKeyTools tools
          → PrintsPlain tools
          → Finds tools stack k n
          → IsTrimming st
          → IsPrintable (open_server st file).conf
          → IsKept (open_server st file).conf
          → flags.flags_generate_keys ≡ true
          → flags.flags_save_config ≡ true
          → Restarts ev build sys flags file stack later again rounds k n
      unfolding main keyed_config saved_files
      main-Restarts flags file stack later again rounds k n law plain finds trims printable kept
            keys saves =
          let agrees = generate_daemon_keys-Agrees st folds tools stack again k n law finds file in
          let (p, q) =
            generate_daemon_keys_plain tools law plain stack k n finds st (open_server st file).conf
              agrees.conf' agrees.generates printable kept in
          let conf = agrees.conf' in
          let text = write_conf st conf in
          let (inis, inis_are) =
            ini_files_total flags.flags_generate_client_ini conf agrees.shape_is in
          let config_is =
            ap (λ b. keyed_config st tools stack b (open_server st file).conf) keys
            ∙ agrees.generates in
          let found = saved_same trims conf agrees.shape_is p q in
          record {
            launch = record {
              printed =
                  print_build_info build
                  ++ (if flags.flags_generate_keys then codes "Generating keys...\n" else []);
              config = conf;
              files = inis ++ saved_files st flags.flags_save_config flags.flags_config_path conf;
              goes_on = run sys st tools later rounds conf;
            };
            inis = inis;
            text = text;
            daemon = agrees.daemon;
            runs = rw (config_is, inis_are) refl;
            writes = ap (λ b. inis ++ saved_files st b flags.flags_config_path conf) saves;
            loads =
                gatekeeper_daemon_same again (open_server st (lines text)).conf conf found
                ∙ agrees.loads;
            k_is = agrees.k_is;
            n_is = agrees.n_is;
            configured = agrees.configured;
            same_ini = generate_client_ini_same (open_server st (lines text)).conf conf found;
          }
