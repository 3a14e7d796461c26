-- ===== src/Daemon/Server/Keys.antt =====
-- From `generate_daemon_keys` of src/daemon/server.cpp to the gatekeeper's constructor and the
-- client's configuration.
use theme_srv.Common.{drop, length, ◌++◌, ℕ, true, some, ◌≡◌, refl, ◌∙◌}
use theme_srv.Core.Text.{Text, StringTheory, codes, same}
use theme_srv.Core.Config.{ValueType, ConfigMap, get_uint, get_string, get_utf16}
use theme_srv.Core.Config.Lines.{File}
use theme_srv.Io.Crypto.{Bignums}
use theme_srv.Io.Crypto.Keys.{
  KeyTools, IsKeyTools, KeyStack, KeyTexts, Finds, load_key, load_key-generate_keys,
  load_keys-load_key,
}
use theme_srv.Daemon.Server.{
  open_server, generate_client_ini, client_ini, or_else, generate_daemon_keys, GatekeeperDaemon,
  gatekeeper_daemon,
}
use theme_srv.Daemon.Server.Defaults.{
  FoldsAscii, IsDaemons, open_server-IsDaemons, entry_of, crypt_g_defined, authaddr_defined,
  fileaddr_defined, bindaddr_defined, extaddr_defined, port_defined,
}
use theme_srv.Daemon.Server.Stores.{store_all}

module _ (st : StringTheory) (folds : FoldsAscii st) where
  module _ {bn : Bignums} (tools : KeyTools bn) (stack later : KeyStack) (k n : bn.Bn) where
    -- The shared key as it is loaded: its bytes, and those that stood behind them in the array
    abbrev shared : ℕ → bn.Bn
    shared g =
        let x_bytes = tools.bn2bin (bn.mod_exp (tools.set_word g) k n) in
        tools.bin2bn (x_bytes ++ drop (length x_bytes) stack.x_key)

    -- The generated keys `k` and `n` are stored, the gatekeeper has them, and the client's
    -- configuration is written with the same `n`, with the shared key, and with the other values
    -- as the configuration had them.
    pub record Agrees (conf : ConfigMap) : Type 0 where
      pub conf' : ConfigMap
      pub made : KeyTexts
      pub daemon : GatekeeperDaemon bn
      pub g : ℕ
      pub bindaddr : Text
      pub extaddr : Text
      pub port : ℕ
      pub g_is : get_uint st conf (codes "gate") (codes "crypt_g") ≡ some g
      pub bindaddr_is : get_string st conf (codes "lobby") (codes "bindaddr") ≡ some bindaddr
      pub extaddr_is : get_string st conf (codes "lobby") (codes "extaddr") ≡ some extaddr
      pub port_is : get_uint st conf (codes "lobby") (codes "port") ≡ some port
      pub shape_is : IsDaemons st conf'
      pub generates : generate_daemon_keys st tools stack conf ≡ some conf'
      pub loads : gatekeeper_daemon st tools later conf' ≡ some daemon
      pub authsrv_is : get_utf16 st conf (codes "gate") (codes "authaddr") ≡ some daemon.authsrv
      pub filesrv_is : get_utf16 st conf (codes "gate") (codes "fileaddr") ≡ some daemon.filesrv
      pub k_is : daemon.crypt_k ≡ k
      pub n_is : daemon.crypt_n ≡ n
      pub configured : daemon.configured ≡ true
      pub writes :
          generate_client_ini st conf'
          ≡ some (client_ini g made.n made.x (or_else extaddr bindaddr) port)
      pub client_n_is : load_key tools made.n ≡ some n
      pub client_x_is : load_key tools made.x ≡ some (shared g)

    agree :
        IsKeyTools tools
        → Finds tools stack k n
        → (conf : ConfigMap) → IsDaemons st conf
        → Agrees conf
    unfolding generate_daemon_keys gatekeeper_daemon get_uint get_utf16 generate_client_ini same
    agree law finds conf is_daemons =
        let (g, _, _, g_is) = entry_of st folds conf is_daemons _ _ _ (crypt_g_defined st) in
        let (p, _, _, p_is) = entry_of st folds conf is_daemons _ _ _ (port_defined st) in
        let (b, _, _, b_is) = entry_of st folds conf is_daemons _ _ _ (bindaddr_defined st) in
        let (e, _, _, e_is) = entry_of st folds conf is_daemons _ _ _ (extaddr_defined st) in
        let (a, _, _, a_is) = entry_of st folds conf is_daemons _ _ _ (authaddr_defined st) in
        let (f, _, _, f_is) = entry_of st folds conf is_daemons _ _ _ (fileaddr_defined st) in
        let (made, makes, load_k, load_n, load_x) =
          load_key-generate_keys tools law stack (st.to_uint g.value) k n finds in
        let stores = store_all st folds conf made is_daemons in
        let g_is' =
          stores.keeps (codes "gate") (codes "crypt_g") ValueType.integer refl refl refl ∙ g_is in
        let p_is' =
          stores.keeps (codes "lobby") (codes "port") ValueType.integer refl refl refl ∙ p_is in
        let b_is' =
          stores.keeps (codes "lobby") (codes "bindaddr") ValueType.string refl refl refl ∙ b_is in
        let e_is' =
          stores.keeps (codes "lobby") (codes "extaddr") ValueType.string refl refl refl ∙ e_is in
        let a_is' =
          stores.keeps (codes "gate") (codes "authaddr") ValueType.string refl refl refl ∙ a_is in
        let f_is' =
          stores.keeps (codes "gate") (codes "fileaddr") ValueType.string refl refl refl ∙ f_is in
        record {
          conf' = stores.conf';
          made = made;
          daemon = record {
            authsrv = st.to_utf16 a.value;
            filesrv = st.to_utf16 f.value;
            crypt_k = k;
            crypt_n = n;
            configured = true;
          };
          g = st.to_uint g.value;
          bindaddr = b.value;
          extaddr = e.value;
          port = st.to_uint p.value;
          g_is = rw g_is refl;
          bindaddr_is = b_is;
          extaddr_is = e_is;
          port_is = rw p_is refl;
          shape_is = stores.is_daemons;
          generates = rw (g_is, makes) stores.call;
          loads =
              rw
                (
                  a_is',
                  f_is',
                  load_keys-load_key tools law st later stores.conf' (codes "gate") made.k made.n k
                      n stores.k_is stores.n_is load_k load_n,
                )
                refl;
          authsrv_is = rw a_is refl;
          filesrv_is = rw f_is refl;
          k_is = refl;
          n_is = refl;
          configured = refl;
          writes = rw (g_is', stores.n_is, stores.x_is, b_is', e_is', p_is') refl;
          client_n_is = load_n;
          client_x_is = load_x;
        }

    -- Suppose that texts are folded as ASCII is, that OpenSSL finds two primes `k` and `n` of 64
    -- bytes, and that numbers and base64 are read back as they are written. Whatever
    -- configuration file was read, the keys that are generated are stored, the gatekeeper then
    -- loads `k` and `n` as configured keys, and the client's configuration is written with the
    -- texts of `n` and of the shared key, of which the first is loaded as `n`, and the second as
    -- the bytes of g^k mod n followed by what stood behind them in the array; the base `g`, the
    -- port, the addresses and what the gatekeeper has of its servers' addresses are those of the
    -- configuration before.
    pub generate_daemon_keys-Agrees :
        IsKeyTools tools → Finds tools stack k n → (file : File) → Agrees (open_server st file).conf
    generate_daemon_keys-Agrees law finds file =
        agree law finds (open_server st file).conf (open_server-IsDaemons st file)
