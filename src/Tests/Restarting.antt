-- ===== src/Tests/Restarting.antt =====
-- A first start without a configuration file, that generates keys and saves them, and the next one.
use theme_srv.Common.{
  ℕ, ◌+◌, Bool, true, ◌&&◌, some, [], ◌∷◌, Bytes, ◌≡◌, refl, arith, Bool-cases, inl, inr,
}
use theme_srv.Core.Text.{Text, codes, same}
use theme_srv.Core.BuildInfo.{Build}
use theme_srv.Core.Config.{config_parser, insert_item, assign, find, find_item}
use theme_srv.Core.Config.Lines.{missing, lines, read_file, is_word, is_space}
use theme_srv.Core.Config.Matched.{HasOnly}
use theme_srv.Core.Config.Print.{write_conf}
use theme_srv.Core.Config.Print.Classified.{IsWritable, empty}
use theme_srv.Core.Config.Print.Reread.{IsPrintable}
use theme_srv.Core.Config.Print.Kept.{IsKept}
use theme_srv.Core.Config.Print.Restored.{read_file-write_conf_same}
use theme_srv.Core.Config.Print.Plain.{is_plain, IsWritable-plain}
use theme_srv.Io.Socket.Bind.{bound}
use theme_srv.Daemon.Server.{open_server}
use theme_srv.Daemon.Server.Startup.{System}
use theme_srv.Daemon.Main.{Flags}
use theme_srv.Daemon.Main.Plain.{PrintsPlain}
use theme_srv.Daemon.Main.Restart.{Restarts, main-Restarts}
use theme_srv.Tests.{counting}
use theme_srv.Tests.Settings.{plain, defaults}
use theme_srv.Tests.Printing.{plain-IsTrimming}
use theme_srv.Tests.Keys.{raised, tools, tools-IsKeyTools, arrays, three-Finds}

abbrev all_of : (ℕ → Bool) → Text → Bool
all_of p [] = true
all_of p (c ∷ cs) = p c && all_of p cs

all_of-HasOnly : (p : ℕ → Bool) (t : Text) → all_of p t ≡ true → HasOnly p t
all_of-HasOnly p [] h = tt
all_of-HasOnly p (c ∷ cs) h = elim (Bool-cases (p c)) [
  | inl e ↦ (e, all_of-HasOnly p cs (rw e at h))
  | inr e ↦ absurd (let z = rw e at h in cc)
]

no_value : (w : ℕ) (word : Text) → all_of is_word (w ∷ word) ≡ true → IsWritable (w ∷ word) []
no_value w word h = empty w word (all_of-HasOnly is_word (w ∷ word) h)

plain_value :
    (w : ℕ) (word : Text) (v : ℕ) (value : Text)
    → all_of is_word (w ∷ word) ≡ true
    → all_of is_plain (v ∷ value) ≡ true
    → IsWritable (w ∷ word) (v ∷ value)
plain_value w word v value h h' =
    IsWritable-plain (w ∷ word) [] (v ∷ value) (no_value w word h)
      (all_of-HasOnly is_plain (v ∷ value) h')

raised_plain : (b : ℕ) → is_plain (b + 128) ≡ true
unfolding is_plain is_space
raised_plain b = ground arith

raised-HasOnly : (bs : Bytes) → HasOnly is_plain (raised bs)
raised-HasOnly [] = tt
raised-HasOnly (b ∷ bs) = (raised_plain b, raised-HasOnly bs)

tools_plain : PrintsPlain tools
tools_plain bs = raised-HasOnly bs

defaults-IsPrintable : IsPrintable defaults
unfolding config_parser insert_item assign same is_word is_space is_plain
defaults-IsPrintable = (
  (refl, (refl, (refl, (refl, (refl, tt))))),
  (refl, (refl, (refl, (refl, (refl, tt))))),
  (
    plain_value b'b' (codes "indaddr") b'1' (codes "27.0.0.1") refl refl,
    (
      no_value b'e' (codes "xtaddr") refl,
      (plain_value b'p' (codes "ort") b'1' (codes "4617") refl refl, tt),
    ),
  ),
  (
    (refl, (refl, (refl, (refl, tt)))),
    (refl, (refl, (refl, (refl, tt)))),
    (
      no_value b'c' (codes "rypt_k") refl,
      (
        no_value b'c' (codes "rypt_n") refl,
        (
          no_value b'c' (codes "rypt_x") refl,
          (
            plain_value b'c' (codes "rypt_g") b'4' [] refl refl,
            (
              no_value b'f' (codes "ileaddr") refl,
              (plain_value b'a' (codes "uthaddr") b'1' (codes "84.73.198.22") refl refl, tt),
            ),
          ),
        ),
      ),
    ),
    (
      (refl, (refl, (refl, (refl, tt)))),
      (refl, (refl, (refl, (refl, tt)))),
      (
        no_value b'p' (codes "ath") refl,
        (plain_value b'm' (codes "axfds") b'1' (codes "024") refl refl, tt),
      ),
      tt,
    ),
  ),
)

defaults-IsKept : IsKept defaults
unfolding config_parser insert_item assign same
defaults-IsKept = (
  (λ h. refl, (λ h. refl, (λ h. absurd (filled h), tt))),
  (
    (λ h. refl, (λ h. refl, (λ h. refl, (λ h. absurd (filled h), (λ h. refl, (λ h. refl, tt)))))),
    ((λ h. refl, (λ h. absurd (filled h), tt)), tt),
  ),
)
  where
    filled : {c : ℕ} {cs : Text} → c ∷ cs ≡ [] → ⊥
    filled h = cc

read_file-write_conf_same_example :
    find_item plain
      (read_file plain (lines (write_conf plain defaults)) defaults).1.conf
      (codes "LOBBY")
      (codes "extaddr")
    ≡ find_item plain defaults (codes "LOBBY") (codes "extaddr")
unfolding find config_parser insert_item assign same
read_file-write_conf_same_example =
    read_file-write_conf_same plain plain-IsTrimming defaults defaults (codes "LOBBY")
      (codes "extaddr") refl (refl, (refl, (refl, tt)))
      (
        (refl, (refl, (refl, tt))),
        ((refl, (refl, (refl, (refl, (refl, (refl, tt)))))), ((refl, (refl, tt)), tt)),
      )
      defaults-IsPrintable defaults-IsKept

abbrev build : Build
build = record {
  hash = codes "12ab";
  tag = [];
  branch = codes "master";
  date = codes "Jan  1 2020";
  time = codes "00:00:00";
  compiler = codes "g++ 9";
  pointer_sz = 8;
}

-- One address, which is bound to the descriptor 3.
abbrev machine : System
machine = record {
  Addr = Unit {0};
  resolve = λ host port. some (tt ∷ []);
  attempt = λ addr round. bound 3;
  listens = λ fd. true;
  has_room = λ fd. true;
}

abbrev flags : Flags
flags = record {
  flags_config_path = codes "theme.ini";
  flags_generate_client_ini = codes "server.ini";
  flags_generate_keys = true;
  flags_save_config = true;
}

main-Restarts_example :
    Restarts plain (λ t. refl) tools counting build machine flags missing arrays arrays arrays 9 3 5
unfolding open_server read_file
main-Restarts_example =
    main-Restarts plain (λ t. refl) tools build machine flags missing arrays arrays arrays 9 3 5
      tools-IsKeyTools tools_plain three-Finds plain-IsTrimming defaults-IsPrintable defaults-IsKept
      refl refl
