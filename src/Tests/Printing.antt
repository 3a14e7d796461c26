-- ===== src/Tests/Printing.antt =====
-- A configuration of one section and one item, printed and read.
use theme_srv.Common.{ℕ, true, false, ◌≡◌, refl, [], ◌∷◌, ◌++◌, ◌==◌, arith, ap, ◌∙◌}
use theme_srv.Core.Text.{Text, codes, same}
use theme_srv.Core.Config.{ConfigMap, config_parser, insert_item, assign, find, find_item}
use theme_srv.Core.Config.Lines.{is_word, is_space, lines, read_file}
use theme_srv.Core.Config.Assignments.{is_some, all_assigned}
use theme_srv.Core.Config.Print.{write_conf}
use theme_srv.Core.Config.Print.Classified.{IsTrimming, EndsWell, writable}
use theme_srv.Core.Config.Print.Reread.{all_items, AreKnown, IsPrintable, read_file-write_conf}
use theme_srv.Tests.Settings.{plain, trimmed, kept, begins, defaults, x_entry}

not_space : (c : ℕ) → is_space c ≡ false → (c == b' ') ≡ false
unfolding is_space
not_space c h = ground arith

trimmed_sound : (c : ℕ) (t : Text) → EndsWell (c ∷ t) → trimmed (c ∷ t) ≡ c ∷ t
trimmed_sound c [] h = rw (not_space c h) refl
trimmed_sound c (d ∷ ds) h = ap (kept c) (trimmed_sound d ds h)

trimmed_front : (c : ℕ) (t : Text) → is_space c ≡ false → (t' : Text) × (kept c t ≡ c ∷ t')
trimmed_front c [] h = ([], rw (not_space c h) refl)
trimmed_front c (d ∷ ds) h = (d ∷ ds, refl)

trimmed_behind : (t : Text) → trimmed (t ++ b' ' ∷ []) ≡ trimmed t
trimmed_behind [] = refl
trimmed_behind (c ∷ cs) = ap (kept c) (trimmed_behind cs)

pub plain-IsTrimming : IsTrimming plain
plain-IsTrimming = record {
  trim-nil = refl;
  trim_sound = λ c t h h'. trimmed_sound c t h';
  trim_front = λ c t h. trimmed_front c (trimmed t) h;
  trim_behind = λ c t h h'. trimmed_behind (c ∷ t) ∙ trimmed_sound c t h';
  starts_with-nil = begins_nil;
  starts_with-cons = λ c t p ps. refl;
}
  where
    begins_nil : (t : Text) → begins t [] ≡ true
    begins_nil [] = refl
    begins_nil (c ∷ cs) = refl

abbrev small : ConfigMap
small = (codes "gate", (codes "crypt_x", record x_entry { value = codes "x=y" }) ∷ []) ∷ []

small-IsPrintable : IsPrintable small
unfolding is_word is_space
small-IsPrintable = (
  (refl, (refl, (refl, (refl, tt)))),
  (refl, (refl, (refl, (refl, tt)))),
  (
    writable b'c' (codes "rypt_x") b'x' (codes "=y")
        (refl, (refl, (refl, (refl, (refl, (refl, (refl, tt))))))) refl (refl, (refl, (refl, tt)))
        (refl, (refl, (refl, tt))) refl,
    tt,
  ),
  tt,
)

small-AreKnown : AreKnown (λ name. is_some (find plain name defaults)) small
unfolding find config_parser insert_item assign same
small-AreKnown = (refl, tt)

read_file-write_conf_example :
    find_item plain
      (read_file plain (lines (write_conf plain small)) defaults).1.conf
      (codes "Gate")
      (codes "CRYPT_X")
    ≡ all_assigned plain
        (all_items small)
        (codes "Gate")
        (codes "CRYPT_X")
        (find_item plain defaults (codes "Gate") (codes "CRYPT_X"))
read_file-write_conf_example =
    read_file-write_conf plain plain-IsTrimming small defaults (codes "Gate") (codes "CRYPT_X")
      small-AreKnown small-IsPrintable
