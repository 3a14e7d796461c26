-- ===== src/Core/Config/Lines.antt =====
-- `config_parser::read` of src/core/config_parser.cpp: the three regular expressions, what a line
-- is, and the loop over the lines.
use theme_srv.Common.{
  ℕ, suc, Bool, true, false, ◌&&◌, ◌||◌, not, Option, none, some, List, [], ◌∷◌, ◌++◌,
  if◌then◌else◌, ◌>>=◌, ◌==◌, leb,
}
use theme_srv.Core.Text.{Text, StringTheory, codes}
use theme_srv.Core.Config.{ValueType, Entry, ConfigMap, is_type, find, found_key, adjust, put}

-- `c_str`, which the expressions look at: up to a NUL.
unfoldable pub c_str : Text → Text
c_str [] = []
c_str (c ∷ cs) = if c == 0 then [] else c ∷ c_str cs

-- `regex_search`: the leftmost place where a match begins.
unfoldable pub search {ℓ} : {A : Type ℓ} → (Text → Option A) → Text → Option A
search at [] = at []
search at (c ∷ cs) =
    let later = search at cs in elim (at (c ∷ cs)) [ some a ↦ some a | none ↦ later ]

-- `\w`
unfoldable pub is_word : ℕ → Bool
is_word c =
    (leb b'a' c && leb c b'z')
    || ((leb b'A' c && leb c b'Z') || ((leb b'0' c && leb c b'9') || (c == b'_')))

-- `\s`
unfoldable pub is_space : ℕ → Bool
is_space c = (c == b' ') || (leb 9 c && leb c 13)

unfoldable pub word_run : Text → Text × Text
word_run [] = ([], [])
word_run (c ∷ cs) =
    let rest = word_run cs in if is_word c then (c ∷ rest.0, rest.1) else ([], c ∷ cs)

unfoldable pub skip_space : Text → Text
skip_space [] = []
skip_space (c ∷ cs) = if is_space c then skip_space cs else c ∷ cs

-- `(.*?)\]` behind the bracket; a dot is no line terminator.
unfoldable pub up_to_bracket : Text → Option Text
up_to_bracket [] = none
up_to_bracket (c ∷ cs) =
    let rest = up_to_bracket cs in
    if c == b']'
    then some []
    else if (c == 10) || (c == 13)
    then none
    else rest >>= λ name. some (c ∷ name)

-- `\[(.*?)\]` at the front
unfoldable pub section_at : Text → Option Text
section_at [] = none
section_at (c ∷ cs) = if c == b'[' then up_to_bracket cs else none

-- `(\w+)\s*=` at the front: the word, and what is behind the sign.
unfoldable pub behind_equals : Text → Option Text
behind_equals [] = none
behind_equals (c ∷ cs) = if c == b'=' then some cs else none

unfoldable pub assigned_at : Text → Option (Text × Text)
assigned_at cs = named (word_run cs)
  where
    named : Text × Text → Option (Text × Text)
    named ([], rest) = none
    named (c ∷ word, rest) = do value ← behind_equals (skip_space rest); some (c ∷ word, value)

last_of : ℕ → Text → Text
last_of c [] = c ∷ []
last_of c (d ∷ ds) = last_of d ds

-- `\s*([^]+(?!\+{3}))` behind the sign: at least one character is left to the value.
unfoldable pub value_of : Text → Option Text
unfolding last_of
value_of [] = none
value_of (c ∷ cs) = some (elim (skip_space (c ∷ cs)) [ [] ↦ last_of c cs | d ∷ ds ↦ d ∷ ds ])

unfoldable pub value_at : Text → Option (Text × Text)
value_at cs = do found ← assigned_at cs; value ← value_of found.1; some (found.0, value)

unfoldable pub empty_at : Text → Option Text
empty_at cs = do found ← assigned_at cs; some found.0

-- What the loop takes a line for.
pub data Line : Type 0 where
  ignored garbage : Line
  header : Text → Line
  setting : Text → Text → Line

or_garbage : Option Text → Line
or_garbage none = garbage
or_garbage (some key) = setting key []

or_empty : Option (Text × Text) → Line → Line
or_empty none line = line
or_empty (some (key, value)) line = setting key value

or_setting : Option Text → Line → Line
or_setting none line = line
or_setting (some name) line = header name

unfoldable pub matched : Text → Line
unfolding or_garbage or_empty or_setting
matched line =
    or_setting (search section_at line)
      (or_empty (search value_at line) (or_garbage (search empty_at line)))

is_empty : Text → Bool
is_empty [] = true
is_empty (c ∷ cs) = false

-- What the loop says on `cerr`, each with its line's number.
pub data Message : Type 0 where
  outside_section : ℕ → Text → Message
  unknown_item : ℕ → Text → Text → Message
  invalid_section : ℕ → Text → Message
  no_line : ℕ → Message

-- The variables of the loop; `section` is the key of the section, none for `m_config.end()`.
pub record Reading : Type 0 where
  pub conf : ConfigMap
  pub section : Option Text
  pub messages : List Message

-- A value of `set`: nothing stands for zero, except as a string.
unfoldable pub accept_value : Text → Entry → Entry
unfolding is_empty
accept_value value entry =
    if not (is_empty value) || is_type entry.item.type ValueType.string
    then put value entry
    else put (codes "0") entry

pub data File : Type 0 where
  missing unreadable : File
  lines : List Text → File

module _ (st : StringTheory) where
  is_comment : Text → Bool
  is_comment line =
      st.starts_with line (codes ";")
      || (st.starts_with line (codes "#") || st.starts_with line (codes "//"))

  unfoldable pub classify : Text → Line
  unfolding is_empty is_comment
  classify buf =
      let line = st.trim buf in
      if is_empty line || is_comment line then ignored else matched (c_str line)

  say : Reading → Message → Reading
  say r message = record r { messages = r.messages ++ message ∷ [] }

  -- The internal `set`
  set_in : ℕ → Text → Text → Text → Reading → Option Entry → Reading
  set_in lineno section key value r (some entry) = record r {
    conf = adjust st section (adjust st key (accept_value value)) r.conf;
  }
  set_in lineno section key value r none = say r (unknown_item lineno section key)

  unfoldable pub set_item : ℕ → Option Text → Text → Text → Reading → Reading
  unfolding set_in say
  set_item lineno none key value r = say r (outside_section lineno key)
  set_item lineno (some section) key value r =
      set_in lineno section key value r (find st section r.conf >>= find st key)

  enter : ℕ → Text → Option Text → Reading → Reading
  enter lineno name none r = say (record r { section = none }) (invalid_section lineno name)
  enter lineno name (some section) r = record r { section = some section }

  unfoldable pub read_line : ℕ → Line → Reading → Reading
  unfolding enter say
  read_line lineno ignored r = r
  read_line lineno garbage r = say r (no_line lineno)
  read_line lineno (header name) r = enter lineno name (found_key st name r.conf) r
  read_line lineno (setting key value) r = set_item lineno r.section key value r

  unfoldable pub read_lines : ℕ → List Text → Reading → Reading
  read_lines lineno [] r = r
  read_lines lineno (buf ∷ bufs) r =
      read_lines (suc lineno) bufs (read_line lineno (classify buf) r)

  abbrev pub beginning : ConfigMap → Reading
  beginning conf = record { conf = conf; section = none; messages = [] }

  -- `read`: its Boolean, the configuration, and what it said.
  unfoldable pub read_file : File → ConfigMap → Bool × Reading
  read_file missing conf = (false, beginning conf)
  read_file unreadable conf = (true, beginning conf)
  read_file (lines bufs) conf = (true, read_lines 0 bufs (beginning conf))
