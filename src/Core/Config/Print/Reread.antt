-- ===== src/Core/Config/Print/Reread.antt =====
-- A configuration that is written by src/core/config_parser.cpp, read again.
use theme_srv.Common.{
  Bool, true, false, ◌&&◌, not, Option, none, some, List, [], ◌∷◌, ◌++◌, map, ◌≡◌, refl, ap, ◌∙◌,
  inl, inr, Bool-cases, if◌then◌else◌, append_assoc,
}
use theme_srv.Core.Text.{Text, StringTheory, codes}
use theme_srv.Core.Config.{Entry, SectionMap, ConfigMap, find, find_item}
use theme_srv.Core.Config.Lines.{classify, lines, read_file}
use theme_srv.Core.Config.Matched.{HasNone, ends_name}
use theme_srv.Core.Config.Assignments.{Assignment, assignments, is_some, all_assigned}
use theme_srv.Core.Config.Meaning.{read_file-assigned}
use theme_srv.Core.Config.Print.{
  setting_line, comment_line, has_comments, write_item, write_items, write_conf,
}
use theme_srv.Core.Config.Print.Classified.{
  ends_text, IsTrimming, IsWritable, classify_comment, classify_blank, classify_section,
  classify_setting,
}

abbrev pub AreWritable : SectionMap → Type 0
AreWritable [] = Unit
AreWritable ((key, entry) ∷ items) = IsWritable key entry.value × AreWritable items

abbrev pub IsPrintable : ConfigMap → Type 0
IsPrintable [] = Unit
IsPrintable ((name, items) ∷ conf) =
    HasNone ends_name name × HasNone ends_text name × AreWritable items × IsPrintable conf

-- The assignments of the items of a configuration
abbrev pub items_in : Text → SectionMap → List Assignment
items_in name [] = []
items_in name ((key, entry) ∷ items) =
    record { section = name; key = key; value = entry.value } ∷ items_in name items

abbrev pub all_items : ConfigMap → List Assignment
all_items [] = []
all_items ((name, items) ∷ conf) = items_in name items ++ all_items conf

-- The sections that are written are sections of the configuration that is read into.
abbrev pub AreKnown : (Text → Bool) → ConfigMap → Type 0
AreKnown known [] = Unit
AreKnown known ((name, items) ∷ conf) = (known name ≡ true) × AreKnown known conf

module _ (st : StringTheory) (law : IsTrimming st) where
  comments_ignored :
      (known : Text → Bool) (section : Option Text) (comments rest : List Text)
      → assignments known section (map (classify st) (map comment_line comments ++ rest))
        ≡ assignments known section (map (classify st) rest)
  comments_ignored known section [] rest = refl
  comments_ignored known section (c ∷ cs) rest =
      rw (classify_comment st law c) (comments_ignored known section cs rest)

  -- The comments and the line of an item
  item_lines :
      (known : Text → Bool) (name key value : Text) (comments rest : List Text)
      → IsWritable key value
      → assignments known
          (some name)
          (map (classify st) ((map comment_line comments ++ setting_line key value ∷ []) ++ rest))
        ≡ (record { section = name; key = key; value = value })
          ∷ assignments known (some name) (map (classify st) rest)
  item_lines known name key value comments rest w =
      ap (λ ls. assignments known (some name) (map (classify st) ls))
        (append_assoc (map comment_line comments) (setting_line key value ∷ []) rest)
      ∙ (comments_ignored known (some name) comments (setting_line key value ∷ rest)
          ∙ ap (λ l. assignments known (some name) (l ∷ map (classify st) rest))
              (classify_setting st law key value w))

  write_item-assignments :
      (known : Text → Bool) (name : Text) (first : Bool) (key : Text) (entry : Entry)
      (rest : List Text)
      → IsWritable key entry.value
      → assignments known (some name) (map (classify st) (write_item st first key entry ++ rest))
        ≡ (record { section = name; key = key; value = entry.value })
          ∷ assignments known (some name) (map (classify st) rest)
  unfolding write_item
  write_item-assignments known name first key entry rest w =
      let comments = st.tokenize entry.item.description (codes "\r\n") in
      elim (Bool-cases (has_comments comments && not first)) [
        | inl more ↦
            rw (more, (classify_blank st law))
              (item_lines known name key entry.value comments rest w)
        | inr less ↦ rw less (item_lines known name key entry.value comments rest w)
      ]

  write_items-assignments :
      (known : Text → Bool) (name : Text) (first : Bool) (items : SectionMap) (rest : List Text)
      → AreWritable items
      → assignments known (some name) (map (classify st) (write_items st first items ++ rest))
        ≡ items_in name items ++ assignments known (some name) (map (classify st) rest)
  unfolding write_items
  write_items-assignments known name first [] rest w = refl
  write_items-assignments known name first ((key, entry) ∷ items) rest (w, ws) =
      ap (λ ls. assignments known (some name) (map (classify st) ls))
        (append_assoc (write_item st first key entry) (write_items st false items) rest)
      ∙ (write_item-assignments known name first key entry (write_items st false items ++ rest) w
          ∙ ap (◌∷◌ (record { section = name; key = key; value = entry.value }))
              (write_items-assignments known name false items rest ws))

  write_conf-assignments :
      (known : Text → Bool) (section : Option Text) (conf : ConfigMap)
      → AreKnown known conf
      → IsPrintable conf
      → assignments known section (map (classify st) (write_conf st conf)) ≡ all_items conf
  unfolding write_conf
  write_conf-assignments known section [] k p = refl
  write_conf-assignments known section ((name, items) ∷ conf) (k, ks) (p, q, w, ps) =
      let body = map (classify st) (write_items st true items ++ [] ∷ write_conf st conf) in
      let rest = map (classify st) (write_conf st conf) in
      ap (λ l. assignments known section (l ∷ body)) (classify_section st law name p q)
      ∙ (ap (λ b. assignments known (if b then some name else none) body) k
          ∙ (write_items-assignments known name true items ([] ∷ write_conf st conf) w
              ∙ ap (◌++◌ (items_in name items)) (
                  ap (λ l. assignments known (some name) (l ∷ rest)) (classify_blank st law)
                  ∙ write_conf-assignments known (some name) conf ks ps)))

  -- Suppose that `trim` takes spaces from both ends and nothing else, and that `starts_with`
  -- compares a prefix. A configuration that is written and read into one that has its sections
  -- assigns to each of its items, in their order, the value that was written (zero for an empty
  -- value of an item that is no string), and nothing else; this holds if the names of the
  -- sections have no closing bracket and no line break, the keys are words, and the values have
  -- no opening bracket, no NUL, no line feed and no space at their ends; they may be empty.
  pub read_file-write_conf :
      (conf old : ConfigMap) (section key : Text)
      → AreKnown (λ name. is_some (find st name old)) conf
      → IsPrintable conf
      → find_item st (read_file st (lines (write_conf st conf)) old).1.conf section key
        ≡ all_assigned st (all_items conf) section key (find_item st old section key)
  read_file-write_conf conf old section key k p =
      read_file-assigned st (write_conf st conf) old section key
      ∙ ap (λ made. all_assigned st made section key (find_item st old section key))
          (write_conf-assignments (λ name. is_some (find st name old)) none conf k p)
