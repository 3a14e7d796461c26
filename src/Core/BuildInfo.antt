-- ===== src/Core/BuildInfo.antt =====
-- src/core/build_info.cpp: the version and the line that the server prints first. What the build
-- generates, and the compiler's name and version, are a parameter.
use theme_srv.Common.{ℕ, [], ◌∷◌, ◌++◌, ◌==◌, if◌then◌else◌}
use theme_srv.Core.Text.{Text, codes}

-- BUILD_HASH and the others, the compiler, and `sizeof(void*)`.
pub record Build : Type 0 where
  pub hash : Text
  pub tag : Text
  pub branch : Text
  pub date : Text
  pub time : Text
  pub compiler : Text
  pub pointer_sz : ℕ

abbrev pub build_date : Build → Text
build_date b = b.date

abbrev pub build_hash : Build → Text
build_hash b = b.hash

abbrev pub build_branch : Build → Text
build_branch b = b.branch

abbrev pub build_tag : Build → Text
build_tag b = b.tag

abbrev pub build_time : Build → Text
build_time b = b.time

tagged_or : Text → Text → Text
tagged_or [] hash = hash
tagged_or (c ∷ cs) hash = c ∷ cs

unfoldable pub build_version : Build → Text
unfolding tagged_or
build_version b = tagged_or b.tag b.hash

in_parens : Text → Text
in_parens [] = []
in_parens (c ∷ cs) = codes " (" ++ ((c ∷ cs) ++ codes ")")

-- `build_info()`
unfoldable pub build_info : Build → Text
unfolding in_parens
build_info b =
    codes "THEME - The H'uru Enhanced MOULa Experience"
    ++ (in_parens b.tag
        ++ (codes " ["
            ++ (b.hash
                ++ (codes " ("
                    ++ (b.branch
                        ++ (codes ")] "
                            ++ (b.date
                                ++ (codes " "
                                    ++ (b.time
                                        ++ (codes " "
                                            ++ (b.compiler
                                                ++ (if b.pointer_sz == 4
                                                    then codes " (x86)"
                                                    else if b.pointer_sz == 8
                                                    then codes " (x64)"
                                                    else codes ""))))))))))))

-- `build_info(stream)`
abbrev pub print_build_info : Build → Text
print_build_info b = build_info b ++ codes "\n"
