-- ===== src/Core/Errors.antt =====
-- src/core/errors.h and errors.cpp: assertions and their handler, in a debug build.
use theme_srv.Common.{Bool, true, false, Option, none, some, [], ◌++◌, ◌≢◌}
use theme_srv.Core.Text.{Text, codes}

-- The arguments of a handler; `line` is printed already.
pub record Report : Type 0 where
  pub cond : Text
  pub file : Text
  pub line : Text
  pub msg : Option Text

-- How a call of a handler ends, with what it printed on `cerr`.
pub data Handling : Type 0 where
  returns traps : Text → Handling

-- `handler_t`
abbrev pub Handler : Type 0
Handler = Report → Handling

abbrev message_line : Option Text → Text
message_line none = []
message_line (some msg) = codes "Message: " ++ (msg ++ codes "\n")

-- `_default_assert_handler`
unfoldable pub default_handler : Handler
default_handler r = traps (
    codes "\nAssertion Failed\n"
    ++ (codes "Condition: "
        ++ (r.cond
            ++ (codes "\nFile: "
                ++ (r.file
                    ++ (codes "\nLine: " ++ (r.line ++ (codes "\n" ++ message_line r.msg))))))))

-- `handle`, for `s_assertHandler`, which may be empty
unfoldable pub handle : Option Handler → Report → Handling
handle none r = returns []
handle (some handler) r = handler r

abbrev pub reset_handler : Option Handler
reset_handler = some default_handler

abbrev pub set_handler : Option Handler → Option Handler
set_handler handler = handler

-- `THEME_ASSERTD` and `THEME_ASSERTR`
unfoldable pub asserts : Option Handler → Bool → Report → Handling
asserts handler true r = returns []
asserts handler false r = handle handler r

-- With the handler that is set at first, a failed assertion does not return.
pub asserts_failed : (r : Report) (text : Text) → asserts reset_handler false r ≢ returns text
unfolding asserts handle default_handler
asserts_failed r text h = cc
