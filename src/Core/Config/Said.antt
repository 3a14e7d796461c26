-- ===== src/Core/Config/Said.antt =====
-- What the lines of a configuration file say, without the code of src/core/config_parser.cpp, and that its
-- `read` does what they say.
use theme_srv.Common.{none, List, [], ◌∷◌, ◌++◌, map, ◌≡◌, refl, ap, ◌∙◌}
use theme_srv.Core.Text.{Text, StringTheory, codes}
use theme_srv.Core.Config.{ConfigMap, find, find_item}
use theme_srv.Core.Config.Lines.{
  Line, ignored, header, setting, is_space, classify, lines, read_file,
}
use theme_srv.Core.Config.Matched.{HasNone, ends_name}
use theme_srv.Core.Config.Assignments.{is_some, assignments, all_assigned}
use theme_srv.Core.Config.Meaning.{read_file-assigned}
use theme_srv.Core.Config.Print.Classified.{
  ends_text, IsTrimming, IsWritable, classify_blank, classify_header, classify_assigned,
}

-- A line that is blank, a comment, the header of a section, or an assignment to a key.
pub data Says : Text → Line → Type 0 where
  blank : Says [] ignored
  semicolon : (t : Text) → Says (b';' ∷ t) ignored
  hash : (t : Text) → Says (b'#' ∷ t) ignored
  section :
      (name : Text)
      → HasNone ends_name name
      → HasNone ends_text name
      → Says (codes "[" ++ (name ++ codes "]")) (header name)
  assignment :
      (key value : Text)
      → IsWritable key value
      → Says (key ++ (codes " = " ++ value)) (setting key value)

pub data AllSay : List Text → List Line → Type 0 where
  nil : AllSay [] []
  cons :
      {buf : Text} {bufs : List Text} {l : Line} {ls : List Line}
      → Says buf l
      → AllSay bufs ls
      → AllSay (buf ∷ bufs) (l ∷ ls)

module _ (st : StringTheory) (law : IsTrimming st) where
  classify_semicolon : (t : Text) → classify st (b';' ∷ t) ≡ ignored
  unfolding classify is_space
  classify_semicolon t =
      let (t', e) = law.trim_front b';' t refl in
      rw (e, law.starts_with-cons b';' t' b';' [], law.starts_with-nil t') refl

  classify_hash : (t : Text) → classify st (b'#' ∷ t) ≡ ignored
  unfolding classify is_space
  classify_hash t =
      let (t', e) = law.trim_front b'#' t refl in
      rw
        (
          e,
          law.starts_with-cons b'#' t' b';' [],
          law.starts_with-cons b'#' t' b'#' [],
          law.starts_with-nil t',
        )
        refl

  classify-Says : {buf : Text} {l : Line} → Says buf l → classify st buf ≡ l
  classify-Says blank = classify_blank st law
  classify-Says (semicolon t) = classify_semicolon t
  classify-Says (hash t) = classify_hash t
  classify-Says (section name h h') = classify_header st law name h h'
  classify-Says (assignment key value w) = classify_assigned st law key value w

  map-classify : {bufs : List Text} {ls : List Line} → AllSay bufs ls → map (classify st) bufs ≡ ls
  map-classify nil = refl
  map-classify (cons {l = l} {ls = ls} says later) =
      rw (classify-Says says, map-classify later) refl

  -- Suppose that `trim` takes spaces from both ends and nothing else, and that `starts_with`
  -- compares a prefix. Let each line of a file be empty, a comment behind a semicolon or a hash
  -- sign, the header of a section (a name without a closing bracket, a NUL or a line break, in
  -- brackets), or an assignment (a key, which is a word, and behind the sign with its spaces a
  -- value that is empty or has no opening bracket, no NUL, no line feed and no space at its
  -- ends). What is found under any section and key after the file has been read is what was
  -- found there before, with each assignment applied in turn that names the section and the key,
  -- up to case. An assignment counts in the section of the last header before it if there is
  -- such a section; an empty value is zero for an item that is no string; unknown items, unknown
  -- sections and comments change nothing.
  pub read_file-AllSay :
      (bufs : List Text) (ls : List Line) (conf : ConfigMap) (s k : Text)
      → AllSay bufs ls
      → find_item st (read_file st (lines bufs) conf).1.conf s k
        ≡ all_assigned st
            (assignments (λ name. is_some (find st name conf)) none ls)
            s
            k
            (find_item st conf s k)
  read_file-AllSay bufs ls conf s k all =
      read_file-assigned st bufs conf s k
      ∙ ap
          (λ z.
            all_assigned st (assignments (λ name. is_some (find st name conf)) none z) s k
              (find_item st conf s k))
          (map-classify all)
