-- ===== src/Core/Config/Print/Classified.antt =====
-- The lines that `write` of src/core/config_parser.cpp puts out, as `read` takes them.
use theme_srv.Common.{
  ℕ, Bool, true, false, ◌&&◌, ◌||◌, [], ◌∷◌, ◌++◌, ◌==◌, ◌≡◌, refl, ap, sym, ◌∙◌, arith,
  append_assoc,
}
use theme_srv.Core.Text.{Text, StringTheory, codes}
use theme_srv.Core.Config.Lines.{
  c_str, is_word, is_space, ignored, header, setting, matched, classify,
}
use theme_srv.Core.Config.Matched.{
  HasNone, HasNone-append, HasOnly, opens, ends_name, matched_bracket, matched_setting,
  matched_empty,
}
use theme_srv.Core.Config.Print.{setting_line, comment_line, section_line}

abbrev pub EndsWell : Text → Type 0
EndsWell [] = ⊥
EndsWell (c ∷ []) = is_space c ≡ false
EndsWell (c ∷ d ∷ ds) = EndsWell (d ∷ ds)

-- `trim` takes spaces from both ends, and nothing else; `starts_with` compares a prefix.
pub record IsTrimming (st : StringTheory) : Type 0 where
  pub trim-nil : st.trim [] ≡ []
  pub trim_sound :
      (c : ℕ) (t : Text) → is_space c ≡ false → EndsWell (c ∷ t) → st.trim (c ∷ t) ≡ c ∷ t
  pub trim_front :
      (c : ℕ) (t : Text) → is_space c ≡ false → (t' : Text) × (st.trim (c ∷ t) ≡ c ∷ t')
  pub trim_behind :
      (c : ℕ) (t : Text)
      → is_space c ≡ false
      → EndsWell (c ∷ t)
      → st.trim ((c ∷ t) ++ b' ' ∷ []) ≡ c ∷ t
  pub starts_with-nil : (t : Text) → st.starts_with t [] ≡ true
  pub starts_with-cons :
      (c : ℕ) (t : Text) (p : ℕ) (ps : Text)
      → st.starts_with (c ∷ t) (p ∷ ps) ≡ ((c == p) && st.starts_with t ps)

-- What would end a text of C, or a line.
abbrev pub ends_text : ℕ → Bool
ends_text c = (c == 0) || (c == 10)

-- A key is a word; a value has no opening bracket and no space at its ends, or it is empty.
pub data IsWritable : Text → Text → Type 0 where
  writable :
      (w : ℕ) (word : Text) (v : ℕ) (value : Text)
      → HasOnly is_word (w ∷ word)
      → is_space v ≡ false
      → HasNone opens (v ∷ value)
      → HasNone ends_text (v ∷ value)
      → EndsWell (v ∷ value)
      → IsWritable (w ∷ word) (v ∷ value)
  empty : (w : ℕ) (word : Text) → HasOnly is_word (w ∷ word) → IsWritable (w ∷ word) []

EndsWell-append : (xs : Text) (y : ℕ) (ys : Text) → EndsWell (y ∷ ys) → EndsWell (xs ++ y ∷ ys)
EndsWell-append [] y ys h = h
EndsWell-append (x ∷ []) y ys h = h
EndsWell-append (x ∷ z ∷ zs) y ys h = EndsWell-append (z ∷ zs) y ys h

c_str_whole : (t : Text) → HasNone ends_text t → c_str t ≡ t
unfolding c_str
c_str_whole [] h = refl
c_str_whole (c ∷ cs) h =
    let z : (c == 0) ≡ false = (let e = h.0 in ground (arith, e)) in
    rw z (ap (◌∷◌ c) (c_str_whole cs h.1))

word_plain : (word : Text) → HasOnly is_word word → HasNone ends_text word
unfolding is_word
word_plain [] h = tt
word_plain (c ∷ cs) h = (let z = h.0 in ground (arith, z), word_plain cs h.1)

whole : (key value : Text) → IsWritable key value → (c_str key ≡ key) × (c_str value ≡ value)
unfolding c_str
whole key value (writable w word v value' a b c d e) =
    (c_str_whole (w ∷ word) (word_plain (w ∷ word) a), c_str_whole (v ∷ value') d)
whole key value (empty w word a) = (c_str_whole (w ∷ word) (word_plain (w ∷ word) a), refl)

-- A word begins neither with a space nor with the sign of a comment.
word_start :
    (w : ℕ)
    → is_word w ≡ true
    → (is_space w ≡ false) × ((w == b';') ≡ false) × ((w == b'#') ≡ false) × ((w == b'/') ≡ false)
unfolding is_word is_space
word_start w h = (ground (arith, h), ground (arith, h), ground (arith, h), ground (arith, h))

module _ (st : StringTheory) (law : IsTrimming st) where
  -- A line that is sound at its ends once it is trimmed, and no comment
  classify_trimmed :
      (line : Text) (c : ℕ) (t : Text)
      → st.trim line ≡ c ∷ t
      → (c == b';') ≡ false
      → (c == b'#') ≡ false
      → (c == b'/') ≡ false
      → HasNone ends_text (c ∷ t)
      → classify st line ≡ matched (c ∷ t)
  unfolding classify
  classify_trimmed line c t trims a b d whole =
      rw
        (
          trims,
          law.starts_with-cons c t b';' [],
          law.starts_with-cons c t b'#' [],
          law.starts_with-cons c t b'/' (codes "/"),
          a,
          b,
          d,
        )
        (ap matched (c_str_whole (c ∷ t) whole))

  pub classify_comment : (comment : Text) → classify st (comment_line comment) ≡ ignored
  unfolding classify is_space
  classify_comment comment =
      let (t, e) = law.trim_front b';' (b' ' ∷ c_str comment) refl in
      rw (e, law.starts_with-cons b';' t b';' [], law.starts_with-nil t) refl

  pub classify_blank : classify st [] ≡ ignored
  unfolding classify
  classify_blank = rw law.trim-nil refl

  pub classify_header :
      (name : Text)
      → HasNone ends_name name
      → HasNone ends_text name
      → classify st (codes "[" ++ (name ++ codes "]")) ≡ header name
  unfolding is_space
  classify_header name h h' =
      classify_trimmed (codes "[" ++ (name ++ codes "]")) b'[' (name ++ codes "]")
        (law.trim_sound b'[' (name ++ codes "]") refl (EndsWell-append (b'[' ∷ name) b']' [] refl))
        refl refl refl (refl, HasNone-append ends_text name (codes "]") h' (refl, tt))
      ∙ matched_bracket [] name [] tt h

  pub classify_assigned :
      (key value : Text)
      → IsWritable key value
      → classify st (key ++ (codes " = " ++ value)) ≡ setting key value
  unfolding is_space
  classify_assigned key value (writable w word v value' a b c d e) =
      let (s, x, y, z) = word_start w a.0 in
      let line = codes " = " ++ v ∷ value' in
      classify_trimmed (w ∷ word ++ line) w (word ++ line)
        (law.trim_sound w (word ++ line) s (
          EndsWell-append (w ∷ word) b' ' (codes "= " ++ v ∷ value')
            (EndsWell-append (codes " = ") v value' e)))
        x y z
        (HasNone-append ends_text (w ∷ word) line (word_plain (w ∷ word) a)
          (refl, (refl, (refl, d))))
      ∙ matched_setting w word v value' a b c
  classify_assigned key value (empty w word a) =
      let (s, x, y, z) = word_start w a.0 in
      let trims : st.trim (w ∷ word ++ codes " = ") ≡ w ∷ (word ++ codes " =") =
        ap st.trim (sym (append_assoc (w ∷ word) (codes " =") (codes " ")))
        ∙ law.trim_behind w (word ++ codes " =") s
            (EndsWell-append (w ∷ word) b' ' (codes "=") refl) in
      classify_trimmed (w ∷ word ++ codes " = ") w (word ++ codes " =") trims x y z (
        HasNone-append ends_text (w ∷ word) (codes " =") (word_plain (w ∷ word) a)
          (refl, (refl, tt)))
      ∙ matched_empty w word a

  -- The lines as they are put out, up to a NUL
  pub classify_section :
      (name : Text)
      → HasNone ends_name name
      → HasNone ends_text name
      → classify st (section_line name) ≡ header name
  classify_section name h h' =
      ap (λ t. classify st (codes "[" ++ (t ++ codes "]"))) (c_str_whole name h')
      ∙ classify_header name h h'

  pub classify_setting :
      (key value : Text)
      → IsWritable key value
      → classify st (setting_line key value) ≡ setting key value
  classify_setting key value w =
      let (k, v) = whole key value w in
      ap (λ t. classify st (t ++ (codes " = " ++ c_str value))) k
      ∙ (ap (λ t. classify st (key ++ (codes " = " ++ t))) v ∙ classify_assigned key value w)
