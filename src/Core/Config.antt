-- ===== src/Core/Config.antt =====
-- src/core/config_parser.h and the typed access of src/core/config_parser.cpp. A map is an
-- association list, whose order stands for the unspecified order of `std::unordered_map`; its
-- keys are compared without regard to case.
pub mod Access
pub mod Lines
pub mod Matched
pub mod Print
pub mod Said
pub mod Shape
pub mod Assignments
pub mod Meaning
pub mod Stored
pub mod Items
use theme_srv.Common.{
  ℕ, Bool, true, false, Option, none, some, List, [], ◌∷◌, if◌then◌else◌, ◌>>=◌, ◌>>◌, assertd,
}
use theme_srv.Core.Text.{Text, StringTheory, same}

pub data ValueType : Type 0 where
  boolean float integer string : ValueType

pub record ConfigItem : Type 0 where
  pub section : Text
  pub key : Text
  pub type : ValueType
  pub value : Text
  pub description : Text

-- THEME_CONFIG, and the macros for each type. A value that is no string is the text of its number.
abbrev pub theme_config : Text → Text → ValueType → Text → Text → ConfigItem
theme_config section key type value desc = record {
  section = section;
  key = key;
  type = type;
  value = value;
  description = desc;
}

abbrev pub theme_config_bool : Text → Text → Text → Text → ConfigItem
theme_config_bool section key value desc = theme_config section key ValueType.boolean value desc

abbrev pub theme_config_float : Text → Text → Text → Text → ConfigItem
theme_config_float section key value desc = theme_config section key ValueType.float value desc

abbrev pub theme_config_int : Text → Text → Text → Text → ConfigItem
theme_config_int section key value desc = theme_config section key ValueType.integer value desc

abbrev pub theme_config_str : Text → Text → Text → Text → ConfigItem
theme_config_str section key value desc = theme_config section key ValueType.string value desc

-- `_config_item`: the definition and the value.
pub record Entry : Type 0 where
  pub item : ConfigItem
  pub value : Text

abbrev pub SectionMap : Type 0
SectionMap = List (Text × Entry)

abbrev pub ConfigMap : Type 0
ConfigMap = List (Text × SectionMap)

-- `type == expected`
unfoldable pub is_type : ValueType → ValueType → Bool
is_type ValueType.boolean ValueType.boolean = true
is_type ValueType.float ValueType.float = true
is_type ValueType.integer ValueType.integer = true
is_type ValueType.string ValueType.string = true
is_type _ _ = false

abbrev pub put : Text → Entry → Entry
put value entry = record entry { value = value }

module _ (st : StringTheory) where
  abbrev pub equal_i : Text → Text → Bool
  equal_i a b = same (st.fold a) (st.fold b)

  module _ {A : Type 0} where
    unfoldable pub find : Text → List (Text × A) → Option A
    find k [] = none
    find k ((j, a) ∷ m) = if equal_i j k then some a else find k m

    -- The key as it stands in the map.
    unfoldable pub found_key : Text → List (Text × A) → Option Text
    found_key k [] = none
    found_key k ((j, a) ∷ m) = if equal_i j k then some j else found_key k m

    -- An assignment through what `find` gave.
    unfoldable pub adjust : Text → (A → A) → List (Text × A) → List (Text × A)
    adjust k f [] = []
    adjust k f ((j, a) ∷ m) = if equal_i j k then (j, f a) ∷ m else (j, a) ∷ adjust k f m

    -- An assignment through `operator[]`, which makes the entry where there is none.
    unfoldable pub assign : Text → (Option A → A) → List (Text × A) → List (Text × A)
    assign k f [] = (k, f none) ∷ []
    assign k f ((j, a) ∷ m) = if equal_i j k then (j, f (some a)) ∷ m else (j, a) ∷ assign k f m

  or_empty : Option SectionMap → SectionMap
  or_empty none = []
  or_empty (some m) = m

  unfoldable pub insert_item : ConfigItem → ConfigMap → ConfigMap
  unfolding or_empty
  insert_item item conf =
      assign item.section
        (λ s. assign item.key (λ e. record { item = item; value = item.value }) (or_empty s)) conf

  insert_items : List ConfigItem → ConfigMap → ConfigMap
  insert_items [] conf = conf
  insert_items (item ∷ items) conf = insert_items items (insert_item item conf)

  -- The constructor
  unfoldable pub config_parser : List ConfigItem → ConfigMap
  unfolding insert_items
  config_parser items = insert_items items []

  -- `none` is the trap of `THEME_ASSERTD`.
  unfoldable pub find_item : ConfigMap → Text → Text → Option Entry
  find_item conf section key = do items ← find section conf; find key items

  -- The value of an item that must have a type.
  unfoldable pub get_value : ValueType → ConfigMap → Text → Text → Option Text
  get_value type conf section key = do
    entry ← find_item conf section key
    assertd (is_type entry.item.type type)
    some entry.value

  unfoldable pub get_bool : ConfigMap → Text → Text → Option Bool
  get_bool conf section key = do
    value ← get_value ValueType.boolean conf section key
    some (st.to_bool value)

  unfoldable pub get_float : ConfigMap → Text → Text → Option st.Float
  get_float conf section key = do
    value ← get_value ValueType.float conf section key
    some (st.to_float value)

  unfoldable pub get_int : ConfigMap → Text → Text → Option st.Int
  get_int conf section key = do
    value ← get_value ValueType.integer conf section key
    some (st.to_int value)

  unfoldable pub get_uint : ConfigMap → Text → Text → Option ℕ
  get_uint conf section key = do
    value ← get_value ValueType.integer conf section key
    some (st.to_uint value)

  abbrev pub get_string : ConfigMap → Text → Text → Option Text
  get_string conf section key = get_value ValueType.string conf section key

  unfoldable pub get_utf16 : ConfigMap → Text → Text → Option (List ℕ)
  get_utf16 conf section key = do
    value ← get_value ValueType.string conf section key
    some (st.to_utf16 value)

  -- The assignment to an item that must have a type.
  unfoldable pub set_value : ValueType → ConfigMap → Text → Text → Text → Option ConfigMap
  set_value type conf section key value = do
    entry ← find_item conf section key
    assertd (is_type entry.item.type type)
    some (adjust section (adjust key (put value)) conf)

  unfoldable pub set_bool : ConfigMap → Text → Text → Bool → Option ConfigMap
  set_bool conf section key value =
      set_value ValueType.boolean conf section key (st.from_bool value)

  unfoldable pub set_float : ConfigMap → Text → Text → st.Float → Option ConfigMap
  set_float conf section key value =
      set_value ValueType.float conf section key (st.from_float value)

  unfoldable pub set_int : ConfigMap → Text → Text → st.Int → Option ConfigMap
  set_int conf section key value = set_value ValueType.integer conf section key (st.from_int value)

  unfoldable pub set_uint : ConfigMap → Text → Text → ℕ → Option ConfigMap
  set_uint conf section key value =
      set_value ValueType.integer conf section key (st.from_uint value)

  abbrev pub set_string : ConfigMap → Text → Text → Text → Option ConfigMap
  set_string conf section key value = set_value ValueType.string conf section key value
