-- ===== src/Tests/Settings.antt =====
-- The daemon's configuration and a small file. The texts of the tests are folded as ASCII is,
-- trimmed at their ends, and a number is printed as one character.
use theme_srv.Common.{
  ℕ, Bool, true, false, ◌≡◌, refl, some, List, [], ◌∷◌, map, arith, if◌then◌else◌, ◌==◌, ◌&&◌,
}
use theme_srv.Core.Text.{Text, StringTheory, IsExact, codes, same}
use theme_srv.Core.Config.{
  ValueType, Entry, ConfigMap, config_parser, insert_item, assign, find, find_item, get_uint,
  set_uint, get_string, set_string,
}
use theme_srv.Core.Config.Shape.{shape, read_file-shape}
use theme_srv.Core.Config.Stored.{same_item, get_uint-set_uint, get_string-set_string}
use theme_srv.Core.Config.Items.{lower}
use theme_srv.Core.Config.Lines.{header, setting, matched, lines, read_file, is_word, is_space}
use theme_srv.Core.Config.Matched.{matched_bracket, matched_setting}
use theme_srv.Daemon.Server.{daemon_config, open_server, generate_client_ini}
use theme_srv.Daemon.Server.Defaults.{generate_client_ini-open_server}

abbrev pub begins : Text → Text → Bool
begins t [] = true
begins [] (c ∷ cs) = false
begins (b ∷ bs) (c ∷ cs) = (b == c) && begins bs cs

abbrev pub first : Text → ℕ
first [] = 0
first (c ∷ cs) = c

abbrev pub kept : ℕ → Text → Text
kept c [] = if c == b' ' then [] else c ∷ []
kept c (d ∷ ds) = c ∷ d ∷ ds

-- Without the spaces at the end
abbrev pub trimmed : Text → Text
trimmed [] = []
trimmed (c ∷ cs) = kept c (trimmed cs)

abbrev pub plain : StringTheory
plain = record {
  Int = ℕ;
  Float = Text;
  fold = map lower;
  trim = trimmed;
  starts_with = begins;
  tokenize = λ t seps. t ∷ [];
  to_bool = λ t. same t (codes "true");
  from_bool = λ b. if b then codes "true" else codes "false";
  to_float = λ t. t;
  from_float = λ t. t;
  to_int = first;
  from_int = λ n. n ∷ [];
  to_uint = first;
  from_uint = λ n. n ∷ [];
  to_utf16 = λ t. t;
}

plain-IsExact : IsExact plain
unfolding same
plain-IsExact = record {
  to_bool-from_bool = exact;
  to_int-from_int = λ n. refl;
  to_uint-from_uint = λ n h. refl;
}
  where
    exact : (b : Bool) → same (if b then codes "true" else codes "false") (codes "true") ≡ b
    exact true = refl
    exact false = refl

abbrev small_file : List Text
small_file =
    codes "[Lobby]"
    ∷ codes "port = 80"
    ∷ codes "# no line"
    ∷ codes "[gate]"
    ∷ codes "CRYPT_N = abc"
    ∷ []

abbrev pub defaults : ConfigMap
defaults = config_parser plain daemon_config

read_file-shape_example :
    shape (read_file plain (lines small_file) defaults).1.conf ≡ shape defaults
read_file-shape_example = read_file-shape plain (lines small_file) defaults

matched_bracket_example : matched (codes "addr = [::1]:80") ≡ header (codes "::1")
matched_bracket_example =
    matched_bracket (codes "addr = ") (codes "::1") (codes ":80")
      (refl, (refl, (refl, (refl, (refl, (refl, (refl, tt))))))) (refl, (refl, (refl, tt)))

matched_setting_example : matched (codes "port = 80") ≡ setting (codes "port") (codes "80")
unfolding is_word is_space
matched_setting_example =
    matched_setting b'p' (codes "ort") b'8' (codes "0") (refl, (refl, (refl, (refl, tt)))) refl
      (refl, (refl, tt))

abbrev port_entry : Entry
port_entry = record {
  item = record {
    section = codes "lobby";
    key = codes "port";
    type = ValueType.integer;
    value = codes "14617";
    description =
        codes "Lobby Bind Port\nPort that this THEME server should listen for connections on";
  };
  value = codes "14617";
}

port_there : find_item plain defaults (codes "LOBBY") (codes "port") ≡ some port_entry
unfolding find_item find config_parser insert_item assign same
port_there = refl

get_uint-set_uint_example :
    (conf' : ConfigMap) × (set_uint plain defaults (codes "LOBBY") (codes "port") 80 ≡ some conf')
    × (get_uint plain conf' (codes "lobby") (codes "Port") ≡ (
        if same_item plain (codes "LOBBY") (codes "port") (codes "lobby") (codes "Port")
        then some 80
        else get_uint plain defaults (codes "lobby") (codes "Port")))
get_uint-set_uint_example =
    get_uint-set_uint plain defaults (codes "LOBBY") (codes "port") (codes "lobby") (codes "Port")
      port_entry 80 plain-IsExact port_there refl (omega arith)

abbrev pub x_entry : Entry
x_entry = record {
  item = record {
    section = codes "gate";
    key = codes "crypt_x";
    type = ValueType.string;
    value = [];
    description = codes "Shared Key";
  };
  value = [];
}

x_there : find_item plain defaults (codes "gate") (codes "crypt_x") ≡ some x_entry
unfolding find_item find config_parser insert_item assign same
x_there = refl

get_string-set_string_example :
    (conf' : ConfigMap) × (set_string plain defaults (codes "gate") (codes "crypt_x") (codes "xyz")
      ≡ some conf')
    × (get_string plain conf' (codes "gate") (codes "crypt_n") ≡ (
        if same_item plain (codes "gate") (codes "crypt_x") (codes "gate") (codes "crypt_n")
        then some (codes "xyz")
        else get_string plain defaults (codes "gate") (codes "crypt_n")))
get_string-set_string_example =
    get_string-set_string plain defaults (codes "gate") (codes "crypt_x") (codes "gate")
      (codes "crypt_n") x_entry (codes "xyz") x_there refl

generate_client_ini-open_server_example :
    (t : Text) × (generate_client_ini plain (open_server plain (lines small_file)).conf ≡ some t)
generate_client_ini-open_server_example =
    generate_client_ini-open_server plain (λ t. refl) (lines small_file)
