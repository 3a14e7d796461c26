-- ===== src/Core/Config/Matched.antt =====
-- What the regular expressions of src/core/config_parser.cpp make of a line.
use theme_srv.Common.{
  ℕ, Bool, true, false, ◌||◌, Option, none, some, [], ◌∷◌, ◌++◌, ◌==◌, ◌≡◌, refl, ◌∙◌, arith,
}
use theme_srv.Core.Text.{Text, codes}
use theme_srv.Core.Config.Lines.{
  search, is_word, is_space, word_run, skip_space, up_to_bracket, section_at, behind_equals,
  assigned_at, value_of, value_at, empty_at, header, setting, matched,
}

-- No character of a text is one of some.
abbrev pub HasNone : (ℕ → Bool) → Text → Type 0
HasNone p [] = Unit
HasNone p (c ∷ cs) = (p c ≡ false) × HasNone p cs

abbrev pub HasOnly : (ℕ → Bool) → Text → Type 0
HasOnly p [] = Unit
HasOnly p (c ∷ cs) = (p c ≡ true) × HasOnly p cs

abbrev pub opens : ℕ → Bool
opens c = c == b'['

-- What ends the name of a section: the bracket, or the end of a line.
abbrev pub ends_name : ℕ → Bool
ends_name c = (c == b']') || ((c == 10) || (c == 13))

up_to_bracket_name :
    (name post : Text) → HasNone ends_name name → up_to_bracket (name ++ b']' ∷ post) ≡ some name
unfolding up_to_bracket
up_to_bracket_name [] post h = refl
up_to_bracket_name (c ∷ cs) post h =
    let (a, b) = parts c h.0 in rw (a, b, up_to_bracket_name cs post h.1) refl
  where
    parts :
        (c : ℕ) → ends_name c ≡ false → ((c == b']') ≡ false) × (((c == 10) || (c == 13)) ≡ false)
    parts c h = (ground arith, ground arith)

module _ {A : Type 0} (at : Text → Option A) where
  search_here : (c : ℕ) (cs : Text) {a : A} → at (c ∷ cs) ≡ some a → search at (c ∷ cs) ≡ some a
  unfolding search
  search_here c cs h = rw (search, h) refl

  search_later : (c : ℕ) (cs : Text) → at (c ∷ cs) ≡ none → search at (c ∷ cs) ≡ search at cs
  unfolding search
  search_later c cs h = rw (search, h) refl

no_bracket : (c : ℕ) (cs : Text) → opens c ≡ false → section_at (c ∷ cs) ≡ none
unfolding section_at
no_bracket c cs h = rw h refl

bracket :
    (name post : Text)
    → HasNone ends_name name
    → section_at (b'[' ∷ name ++ b']' ∷ post) ≡ some name
unfolding section_at
bracket name post h = up_to_bracket_name name post h

search_section :
    (pre name post : Text)
    → HasNone opens pre
    → HasNone ends_name name
    → search section_at (pre ++ b'[' ∷ name ++ b']' ∷ post) ≡ some name
search_section [] name post h h' =
    search_here section_at b'[' (name ++ b']' ∷ post) (bracket name post h')
search_section (c ∷ cs) name post h h' =
    search_later section_at c (cs ++ b'[' ∷ name ++ b']' ∷ post)
      (no_bracket c (cs ++ b'[' ∷ name ++ b']' ∷ post) h.0)
    ∙ search_section cs name post h.1 h'

search_no_section : (line : Text) → HasNone opens line → search section_at line ≡ none
unfolding search section_at
search_no_section [] h = refl
search_no_section (c ∷ cs) h =
    search_later section_at c cs (no_bracket c cs h.0) ∙ search_no_section cs h.1

-- A line with a first opening bracket and, before the line's end, a closing one behind it is the
-- header of the section that is named between them, whatever stands in front of the bracket.
pub matched_bracket :
    (pre name post : Text)
    → HasNone opens pre
    → HasNone ends_name name
    → matched (pre ++ b'[' ∷ name ++ b']' ∷ post) ≡ header name
unfolding matched
matched_bracket pre name post h h' = rw (search_section pre name post h h') refl

pub HasNone-append :
    (p : ℕ → Bool) (xs ys : Text) → HasNone p xs → HasNone p ys → HasNone p (xs ++ ys)
HasNone-append p [] ys h h' = h'
HasNone-append p (x ∷ xs) ys h h' = (h.0, HasNone-append p xs ys h.1 h')

word_HasNone : (word : Text) → HasOnly is_word word → HasNone opens word
unfolding is_word
word_HasNone [] h = tt
word_HasNone (c ∷ cs) h = (let z = h.0 in ground (arith, z), word_HasNone cs h.1)

word_run_word :
    (word : Text) (c : ℕ) (rest : Text)
    → HasOnly is_word word
    → is_word c ≡ false
    → word_run (word ++ c ∷ rest) ≡ (word, c ∷ rest)
unfolding word_run
word_run_word [] c rest h h' = rw h' refl
word_run_word (x ∷ xs) c rest h h' = rw (h.0, word_run_word xs c rest h.1 h') refl

value_at_word :
    (w : ℕ) (word : Text) (v : ℕ) (value : Text)
    → HasOnly is_word (w ∷ word)
    → is_space v ≡ false
    → value_at ((w ∷ word) ++ (codes " = " ++ v ∷ value)) ≡ some (w ∷ word, v ∷ value)
unfolding value_at assigned_at value_of behind_equals skip_space is_space is_word
value_at_word w word v value h h' =
    rw (word_run_word (w ∷ word) b' ' (codes "= " ++ v ∷ value) h refl, h') refl

-- A line that assigns to a word a value without an opening bracket, of which the first character
-- is no space, with a space on both sides of the sign, is a setting of the word to the value.
pub matched_setting :
    (w : ℕ) (word : Text) (v : ℕ) (value : Text)
    → HasOnly is_word (w ∷ word)
    → is_space v ≡ false
    → HasNone opens (v ∷ value)
    → matched ((w ∷ word) ++ (codes " = " ++ v ∷ value)) ≡ setting (w ∷ word) (v ∷ value)
unfolding matched
matched_setting w word v value h h' b =
    let no_header =
      search_no_section ((w ∷ word) ++ (codes " = " ++ v ∷ value))
        (HasNone-append opens (w ∷ word) _ (word_HasNone (w ∷ word) h) (refl, (refl, (refl, b)))) in
    rw
      (
        no_header,
        search_here value_at w (word ++ (codes " = " ++ v ∷ value))
            (value_at_word w word v value h h'),
      )
      refl

no_value :
    (w : ℕ) (word : Text) → HasOnly is_word (w ∷ word) → value_at ((w ∷ word) ++ codes " =") ≡ none
unfolding value_at assigned_at value_of behind_equals skip_space is_space is_word
no_value w word h = rw (word_run_word (w ∷ word) b' ' (codes "=") h refl) refl

search_no_value : (word : Text) → HasOnly is_word word → search value_at (word ++ codes " =") ≡ none
unfolding search value_at assigned_at word_run is_word
search_no_value [] h = refl
search_no_value (c ∷ cs) h =
    search_later value_at c (cs ++ codes " =") (no_value c cs h) ∙ search_no_value cs h.1

empty_at_word :
    (w : ℕ) (word : Text)
    → HasOnly is_word (w ∷ word)
    → empty_at ((w ∷ word) ++ codes " =") ≡ some (w ∷ word)
unfolding empty_at assigned_at behind_equals skip_space is_space is_word
empty_at_word w word h = rw (word_run_word (w ∷ word) b' ' (codes "=") h refl) refl

-- A line that assigns nothing to a word is a setting of the word to the empty text.
pub matched_empty :
    (w : ℕ) (word : Text)
    → HasOnly is_word (w ∷ word)
    → matched ((w ∷ word) ++ codes " =") ≡ setting (w ∷ word) []
unfolding matched
matched_empty w word h =
    let no_header = search_no_section ((w ∷ word) ++ codes " =") (
      HasNone-append opens (w ∷ word) (codes " =") (word_HasNone (w ∷ word) h)
        (refl, (refl, tt))) in
    rw
      (
        no_header,
        search_no_value (w ∷ word) h,
        search_here empty_at w (word ++ codes " =") (empty_at_word w word h),
      )
      refl
