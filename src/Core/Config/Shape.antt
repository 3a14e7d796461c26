-- ===== src/Core/Config/Shape.antt =====
-- The sections, keys and definitions of a configuration, which only its constructor decides.
use theme_srv.Common.{
  ℕ, suc, Option, none, some, List, [], ◌∷◌, ◌≡◌, refl, ap, sym, ◌∙◌, inl, inr, Bool-cases, ◌>>=◌,
  >>=-eq-some, Option-cases, assertd,
}
use mathlib.Core.Option.{some-injective}
use theme_srv.Core.Text.{Text, StringTheory}
use theme_srv.Core.Config.{
  ValueType, ConfigItem, Entry, ConfigMap, SectionMap, equal_i, is_type, find, found_key, adjust,
  put, set_value, find_item,
}
use theme_srv.Core.Config.Access.{map_option}
use theme_srv.Core.Config.Lines.{
  accept_value, Line, ignored, garbage, header, setting, Reading, classify, set_item, read_line,
  read_lines, File, missing, unreadable, lines, read_file,
}

abbrev map_values : {A B : Type 0} → (A → B) → List (Text × A) → List (Text × B)
map_values f [] = []
map_values f ((k, a) ∷ m) = (k, f a) ∷ map_values f m

abbrev pub items_of : SectionMap → List (Text × ConfigItem)
items_of m = map_values (λ e. e.item) m

abbrev pub shape : ConfigMap → List (Text × List (Text × ConfigItem))
shape conf = map_values items_of conf

module _ (st : StringTheory) where
  map_values-adjust :
      {A B : Type 0} (g : A → B) (k : Text) (f : A → A) (m : List (Text × A))
      → ((a : A) → g (f a) ≡ g a)
      → map_values g (adjust st k f m) ≡ map_values g m
  unfolding adjust
  map_values-adjust g k f [] h = refl
  map_values-adjust g k f ((i, a) ∷ m) h = elim (Bool-cases (equal_i st i k)) [
    | inl e ↦ rw (e, h a) refl
    | inr e ↦ rw (e, map_values-adjust g k f m h) refl
  ]

  -- A section is found in the shape if it is found.
  pub find-shape :
      (name : Text) (conf : ConfigMap)
      → find st name (shape conf) ≡ map_option items_of (find st name conf)
  unfolding find
  find-shape name [] = refl
  find-shape name ((j, m) ∷ conf) = elim (Bool-cases (equal_i st j name)) [
    | inl e ↦ rw e refl
    | inr e ↦ rw e (find-shape name conf)
  ]

  pub find-items_of :
      (key : Text) (m : SectionMap)
      → find st key (items_of m) ≡ map_option (λ e. e.item) (find st key m)
  unfolding find
  find-items_of key [] = refl
  find-items_of key ((j, e) ∷ m) = elim (Bool-cases (equal_i st j key)) [
    | inl h ↦ rw h refl
    | inr h ↦ rw h (find-items_of key m)
  ]

  adjust-shape :
      (conf : ConfigMap) (section key : Text) (f : Entry → Entry)
      → ((e : Entry) → (f e).item ≡ e.item)
      → shape (adjust st section (adjust st key f) conf) ≡ shape conf
  adjust-shape conf section key f h =
      map_values-adjust items_of section (adjust st key f) conf
        (λ m. map_values-adjust (λ e. e.item) key f m h)

  accept_value-item : (value : Text) (e : Entry) → (accept_value value e).item ≡ e.item
  unfolding accept_value
  accept_value-item [] e = elim (Bool-cases (is_type e.item.type ValueType.string)) [
    | inl s ↦ rw s refl
    | inr s ↦ rw s refl
  ]
  accept_value-item (c ∷ cs) e = refl

  set_item-shape :
      (n : ℕ) (section : Option Text) (key value : Text) (r : Reading)
      → shape (set_item st n section key value r).conf ≡ shape r.conf
  unfolding set_item
  set_item-shape n none key value r = refl
  set_item-shape n (some section) key value r =
      elim (Option-cases (find st section r.conf >>= find st key)) [
        | inl e ↦ rw e refl
        | inr (entry, e) ↦ rw e (adjust-shape r.conf section key _ (accept_value-item value))
      ]

  pub read_line-shape :
      (n : ℕ) (line : Line) (r : Reading) → shape (read_line st n line r).conf ≡ shape r.conf
  unfolding read_line
  read_line-shape n ignored r = refl
  read_line-shape n garbage r = refl
  read_line-shape n (header name) r = elim (Option-cases (found_key st name r.conf)) [
    | inl e ↦ rw e refl
    | inr (section, e) ↦ rw e refl
  ]
  read_line-shape n (setting key value) r = set_item-shape n r.section key value r

  read_lines-shape :
      (n : ℕ) (bufs : List Text) (r : Reading) → shape (read_lines st n bufs r).conf ≡ shape r.conf
  unfolding read_lines
  read_lines-shape n [] r = refl
  read_lines-shape n (buf ∷ bufs) r =
      read_lines-shape (suc n) bufs (read_line st n (classify st buf) r)
      ∙ read_line-shape n (classify st buf) r

  -- Reading a file keeps the sections, the keys and the definitions of a configuration, in their
  -- order, whatever the file says.
  pub read_file-shape :
      (file : File) (conf : ConfigMap) → shape (read_file st file conf).1.conf ≡ shape conf
  unfolding read_file
  read_file-shape missing conf = refl
  read_file-shape unreadable conf = refl
  read_file-shape (lines bufs) conf = read_lines-shape 0 bufs _

  pub set_value-shape :
      (type : ValueType) (conf conf' : ConfigMap) (section key value : Text)
      → set_value st type conf section key value ≡ some conf'
      → shape conf' ≡ shape conf
  unfolding set_value
  set_value-shape type conf conf' section key value h =
      let (entry, e, h₁) = >>=-eq-some (find_item st conf section key) _ h in
      let (u, e', h₂) = >>=-eq-some (assertd (is_type entry.item.type type)) _ h₁ in
      ap shape (some-injective conf' _ (sym h₂))
      ∙ adjust-shape conf section key (put value) (λ x. refl)
