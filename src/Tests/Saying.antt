-- ===== src/Tests/Saying.antt =====
-- A file with comments, an empty value of a number and a section that there is not.
use theme_srv.Common.{none, [], ◌∷◌, List, ◌≡◌, refl}
use theme_srv.Core.Text.{Text, codes}
use theme_srv.Core.Config.{find, find_item}
use theme_srv.Core.Config.Lines.{
  Line, ignored, header, setting, is_word, is_space, lines, read_file,
}
use theme_srv.Core.Config.Assignments.{is_some, assignments, all_assigned}
use theme_srv.Core.Config.Print.Classified.{writable, empty}
use theme_srv.Core.Config.Said.{
  AllSay, nil, cons, blank, semicolon, hash, section, assignment, read_file-AllSay,
}
use theme_srv.Tests.Settings.{plain, defaults}
use theme_srv.Tests.Printing.{plain-IsTrimming}

abbrev file_lines : List Text
file_lines =
    codes "# lobby"
    ∷ codes "[Lobby]"
    ∷ codes "port = "
    ∷ []
    ∷ codes "; none"
    ∷ codes "[no]"
    ∷ codes "port = 80"
    ∷ []

abbrev said : List Line
said =
    ignored
    ∷ header (codes "Lobby")
    ∷ setting (codes "port") []
    ∷ ignored
    ∷ ignored
    ∷ header (codes "no")
    ∷ setting (codes "port") (codes "80")
    ∷ []

file-AllSay : AllSay file_lines said
unfolding is_word is_space
file-AllSay = cons (hash (codes " lobby")) (
    cons
      (section (codes "Lobby") (refl, (refl, (refl, (refl, (refl, tt)))))
        (refl, (refl, (refl, (refl, (refl, tt))))))
      (cons
        (assignment (codes "port") [] (empty b'p' (codes "ort") (refl, (refl, (refl, (refl, tt))))))
        (cons blank (
          cons (semicolon (codes " none")) (
            cons (section (codes "no") (refl, (refl, tt)) (refl, (refl, tt))) (
              cons
                (assignment (codes "port") (codes "80") (
                  writable b'p' (codes "ort") b'8' (codes "0") (refl, (refl, (refl, (refl, tt))))
                    refl (refl, (refl, tt)) (refl, (refl, tt)) refl))
                nil))))))

read_file-AllSay_example :
    find_item plain
      (read_file plain (lines file_lines) defaults).1.conf
      (codes "lobby")
      (codes "port")
    ≡ all_assigned plain
        (assignments (λ name. is_some (find plain name defaults)) none said)
        (codes "lobby")
        (codes "port")
        (find_item plain defaults (codes "lobby") (codes "port"))
read_file-AllSay_example =
    read_file-AllSay plain plain-IsTrimming file_lines said defaults (codes "lobby") (codes "port")
      file-AllSay
