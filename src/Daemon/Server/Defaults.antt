-- ===== src/Daemon/Server/Defaults.antt =====
-- Every access of src/daemon/server.cpp and of the gatekeeper's constructor to the configuration,
-- whatever file was read.
use mathlib.Core.Path.{fun_ext}
use theme_srv.Common.{some, map, ◌≡◌, refl, ap, sym, ◌∙◌, subst, ◌>>=◌}
use theme_srv.Core.Text.{Text, StringTheory, codes, same}
use theme_srv.Core.Config.{
  ValueType, ConfigItem, Entry, ConfigMap, config_parser, find, find_item, get_value, get_uint,
  insert_item, assign,
}
use theme_srv.Core.Config.Shape.{shape, read_file-shape}
use theme_srv.Core.Config.Items.{lower, lowered, item_at, get_value-item_at}
use theme_srv.Core.Config.Lines.{File}
use theme_srv.Daemon.Server.{daemon_config, open_server, generate_client_ini, client_ini, or_else}

-- `ST::equal_i` ignores the case of the letters of ASCII, and nothing else.
abbrev pub FoldsAscii : StringTheory → Type 0
FoldsAscii st = (t : Text) → st.fold t ≡ map lower t

pub is_lowered : (st : StringTheory) → FoldsAscii st → st ≡ lowered st
is_lowered st h = ap (λ f. record st { fold = f }) (fun_ext h)

-- What an item of the daemon's table is looked up as.
abbrev pub Defines : StringTheory → Text → Text → ConfigItem → Type 0
Defines st section key item = item_at st (config_parser st daemon_config) section key ≡ some item

-- An item of the table with its type
abbrev pub Defined : StringTheory → Text → Text → ValueType → Type 0
Defined st section key type =
    (item : ConfigItem) × Defines (lowered st) section key item × (item.type ≡ type)

-- A configuration of the daemon's table, whatever its values are.
abbrev pub IsDaemons : StringTheory → ConfigMap → Type 0
IsDaemons st conf = shape conf ≡ shape (config_parser st daemon_config)

-- The constructor leaves the table as it is, whatever the file says.
pub open_server-IsDaemons :
    (st : StringTheory) (file : File) → IsDaemons st (open_server st file).conf
unfolding open_server
open_server-IsDaemons st file = read_file-shape st file (config_parser st daemon_config)

module _ (st : StringTheory) where
  pub crypt_g_defined : Defined st (codes "gate") (codes "crypt_g") ValueType.integer
  unfolding find config_parser insert_item assign same
  crypt_g_defined = (_, refl, refl)

  pub port_defined : Defined st (codes "lobby") (codes "port") ValueType.integer
  unfolding find config_parser insert_item assign same
  port_defined = (_, refl, refl)

  pub bindaddr_defined : Defined st (codes "lobby") (codes "bindaddr") ValueType.string
  unfolding find config_parser insert_item assign same
  bindaddr_defined = (_, refl, refl)

  pub extaddr_defined : Defined st (codes "lobby") (codes "extaddr") ValueType.string
  unfolding find config_parser insert_item assign same
  extaddr_defined = (_, refl, refl)

  pub crypt_k_defined : Defined st (codes "gate") (codes "crypt_k") ValueType.string
  unfolding find config_parser insert_item assign same
  crypt_k_defined = (_, refl, refl)

  pub crypt_n_defined : Defined st (codes "gate") (codes "crypt_n") ValueType.string
  unfolding find config_parser insert_item assign same
  crypt_n_defined = (_, refl, refl)

  pub crypt_x_defined : Defined st (codes "gate") (codes "crypt_x") ValueType.string
  unfolding find config_parser insert_item assign same
  crypt_x_defined = (_, refl, refl)

  pub fileaddr_defined : Defined st (codes "gate") (codes "fileaddr") ValueType.string
  unfolding find config_parser insert_item assign same
  fileaddr_defined = (_, refl, refl)

  pub authaddr_defined : Defined st (codes "gate") (codes "authaddr") ValueType.string
  unfolding find config_parser insert_item assign same
  authaddr_defined = (_, refl, refl)

  module _ (folds : FoldsAscii st) (conf : ConfigMap) (is_daemons : IsDaemons st conf) where
    -- The entry of an item of the table, with its type and its value.
    pub entry_of :
        (section key : Text) (type : ValueType)
        → Defined st section key type
        → (e : Entry) × (find_item st conf section key ≡ some e)
          × (e.item.type ≡ type)
          × (get_value st type conf section key ≡ some e.value)
    entry_of section key type (item, def, typed) =
        let def' = subst (λ s. Defines s section key item) (sym (is_lowered st folds)) def in
        let (e, there, is_item, value) =
          get_value-item_at st conf section key item
            (ap (λ m. find st section m >>= find st key) is_daemons ∙ def') in
        (
          e,
          there,
          ap (λ i. i.type) is_item ∙ typed,
          ap (λ t. get_value st t conf section key) (sym typed) ∙ value,
        )

    pub generate_client_ini_total : (t : Text) × (generate_client_ini st conf ≡ some t)
    unfolding generate_client_ini get_uint
    generate_client_ini_total =
        let (g, _, _, g_is) = entry_of _ _ _ crypt_g_defined in
        let (n, _, _, n_is) = entry_of _ _ _ crypt_n_defined in
        let (x, _, _, x_is) = entry_of _ _ _ crypt_x_defined in
        let (b, _, _, b_is) = entry_of _ _ _ bindaddr_defined in
        let (e, _, _, e_is) = entry_of _ _ _ extaddr_defined in
        let (p, _, _, p_is) = entry_of _ _ _ port_defined in
        (
          client_ini (st.to_uint g.value) n.value x.value (or_else e.value b.value)
              (st.to_uint p.value),
          rw (g_is, n_is, x_is, b_is, e_is, p_is) refl,
        )

  -- Suppose that texts are folded as ASCII is. Whatever configuration file was read, no access
  -- of `generate_client_ini` to the configuration fails: each item is there with the type that
  -- is asked for.
  pub generate_client_ini-open_server :
      FoldsAscii st
      → (file : File) → (t : Text) × (generate_client_ini st (open_server st file).conf ≡ some t)
  generate_client_ini-open_server folds file =
      generate_client_ini_total folds (open_server st file).conf (open_server-IsDaemons st file)
