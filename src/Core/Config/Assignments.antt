-- ===== src/Core/Config/Assignments.antt =====
-- What the lines of a configuration file mean: a list of assignments, of which the last one to an
-- item counts.
use theme_srv.Common.{Bool, true, false, ◌&&◌, Option, none, some, List, [], ◌∷◌, if◌then◌else◌}
use theme_srv.Core.Text.{Text, StringTheory, codes}
use theme_srv.Core.Config.{ValueType, Entry, equal_i}
use theme_srv.Core.Config.Access.{map_option}
use theme_srv.Core.Config.Lines.{Line, ignored, garbage, header, setting}

pub record Assignment : Type 0 where
  pub section : Text
  pub key : Text
  pub value : Text

abbrev pub is_some {ℓ} : {A : Type ℓ} → Option A → Bool
is_some none = false
is_some (some a) = true

abbrev pub within : Option Text → Text → Text → List Assignment → List Assignment
within none key value rest = rest
within (some section) key value rest = record { section = section; key = key; value = value } ∷ rest

-- The assignments of lines, in a section at first; `known` tells the sections that there are.
abbrev pub assignments : (Text → Bool) → Option Text → List Line → List Assignment
assignments known section [] = []
assignments known section (ignored ∷ ls) = assignments known section ls
assignments known section (garbage ∷ ls) = assignments known section ls
assignments known section (header name ∷ ls) =
    assignments known (if known name then some name else none) ls
assignments known section (setting key value ∷ ls) =
    within section key value (assignments known section ls)

-- A text that is a number's: nothing stands for zero.
abbrev or_zero : Text → Text
or_zero [] = codes "0"
or_zero (c ∷ cs) = c ∷ cs

abbrev pub value_meant : ValueType → Text → Text
value_meant ValueType.boolean value = or_zero value
value_meant ValueType.float value = or_zero value
value_meant ValueType.integer value = or_zero value
value_meant ValueType.string value = value

-- The entry with the value that an assignment means
abbrev pub assign_value : Text → Entry → Entry
assign_value value e = record e { value = value_meant e.item.type value }

module _ (st : StringTheory) where
  -- One assignment, as it changes what is found under two names.
  abbrev pub assigned : Assignment → Text → Text → Option Entry → Option Entry
  assigned a section key e =
      if equal_i st a.section section && equal_i st a.key key
      then map_option (assign_value a.value) e
      else e

  abbrev pub all_assigned : List Assignment → Text → Text → Option Entry → Option Entry
  all_assigned [] section key e = e
  all_assigned (a ∷ rest) section key e = all_assigned rest section key (assigned a section key e)
