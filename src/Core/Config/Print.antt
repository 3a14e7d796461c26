-- ===== src/Core/Config/Print.antt =====
-- `config_parser::write` of src/core/config_parser.cpp. What it puts on the stream is the list of its
-- lines, each ended by `std::endl`; a text is put out as `c_str`, up to a NUL.
pub mod Classified
pub mod Reread
pub mod Distinct
pub mod Kept
pub mod Restored
pub mod Plain
use theme_srv.Common.{Bool, true, false, ◌&&◌, not, List, [], ◌∷◌, ◌++◌, map, if◌then◌else◌}
use theme_srv.Core.Text.{Text, StringTheory, codes}
use theme_srv.Core.Config.Lines.{c_str}
use theme_srv.Core.Config.{Entry, SectionMap, ConfigMap}

unfoldable pub has_comments : List Text → Bool
has_comments [] = false
has_comments (c ∷ cs) = true

-- The line of a setting
abbrev pub setting_line : Text → Text → Text
setting_line key value = c_str key ++ (codes " = " ++ c_str value)

abbrev pub comment_line : Text → Text
comment_line comment = codes "; " ++ c_str comment

abbrev pub section_line : Text → Text
section_line name = codes "[" ++ (c_str name ++ codes "]")

module _ (st : StringTheory) where
  -- An item; `first` is that it is the first one of its section.
  unfoldable pub write_item : Bool → Text → Entry → List Text
  unfolding has_comments
  write_item first key entry =
      let comments = st.tokenize entry.item.description (codes "\r\n") in
      (if has_comments comments && not first then [] ∷ [] else [])
      ++ (map comment_line comments ++ setting_line key entry.value ∷ [])

  unfoldable pub write_items : Bool → SectionMap → List Text
  write_items first [] = []
  write_items first ((key, entry) ∷ items) = write_item first key entry ++ write_items false items

  unfoldable pub write_conf : ConfigMap → List Text
  write_conf [] = []
  write_conf ((name, items) ∷ conf) =
      section_line name ∷ (write_items true items ++ [] ∷ write_conf conf)
