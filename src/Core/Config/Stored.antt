-- ===== src/Core/Config/Stored.antt =====
-- The typed access of src/core/config_parser.cpp: what `set` stores, `get` gives.
use theme_srv.Common.{
  ℕ, Bool, true, false, ◌&&◌, Option, some, ◌≡◌, refl, ap, sym, ◌∙◌, inl, inr, if◌then◌else◌,
  Bool-cases, ◌>>=◌, ◌<◌, ◌^◌,
}
use mathlib.Core.Option.{some-injective}
use theme_srv.Core.Text.{Text, StringTheory, IsExact}
use theme_srv.Core.Config.{
  ValueType, Entry, ConfigMap, is_type, equal_i, adjust, find_item, put, get_value, set_value,
  get_bool, set_bool, get_int, set_int, get_uint, set_uint, get_string, set_string,
}
use theme_srv.Core.Config.Access.{find_item-adjust, find_item-equal_i}

pub is_type_refl : (t : ValueType) → is_type t t ≡ true
unfolding is_type
is_type_refl ValueType.boolean = refl
is_type_refl ValueType.float = refl
is_type_refl ValueType.integer = refl
is_type_refl ValueType.string = refl

module _ (st : StringTheory) where
  -- Whether two pairs of names are an item's.
  abbrev pub same_item : Text → Text → Text → Text → Bool
  same_item section key s k = equal_i st section s && equal_i st key k

  module _ (conf : ConfigMap) (section key s k : Text) (e : Entry)
      (there : find_item st conf section key ≡ some e) where
    stored : Text → ConfigMap
    stored value = adjust st section (adjust st key (put value)) conf

    -- The type that the item has is the one asked for.
    set_value-stored :
        (t : ValueType) (value : Text)
        → e.item.type ≡ t
        → set_value st t conf section key value ≡ some (stored value)
    unfolding set_value stored
    set_value-stored t value h = rw (there, h, is_type_refl t) refl

    seen : (same_item section key s k ≡ true) → find_item st conf s k ≡ some e
    seen h = elim (Bool-cases (equal_i st section s)) [
      | inl h' ↦ sym (find_item-equal_i st conf s k section key h' (rw h' at h)) ∙ there
      | inr h' ↦ let z : false ≡ true = rw h' at h in absurd cc
    ]

    get_value-stored :
        (t : ValueType) (value : Text)
        → e.item.type ≡ t
        → get_value st t (stored value) s k
          ≡ (if same_item section key s k then some value else get_value st t conf s k)
    unfolding get_value stored
    get_value-stored t value h' =
        rw (find_item-adjust st conf section key (put value) s k)
          (elim (Bool-cases (same_item section key s k)) [
            | inl h ↦ rw (h, seen h, h', is_type_refl t) refl
            | inr h ↦ rw h refl
          ])

    module _ {A : Type 0} (read : Text → A) where
      read_value : Option Text → Option A
      read_value o = o >>= λ v. some (read v)

      -- An access that reads what is stored.
      set_value-read :
          (t : ValueType) (value : Text) {a : A}
          → e.item.type ≡ t
          → read value ≡ a
          → (conf' : ConfigMap) × (set_value st t conf section key value ≡ some conf')
            × ((get_value st t conf' s k >>= λ v. some (read v)) ≡ (
                if same_item section key s k
                then some a
                else (get_value st t conf s k >>= λ v. some (read v))))
      unfolding read_value
      set_value-read t value {a} h back = (
        stored value,
        set_value-stored t value h,
        ap read_value (get_value-stored t value h) ∙ choose,
      )
        where
          choose :
              read_value (if same_item section key s k then some value else get_value st t conf s k)
              ≡ (if same_item section key s k then some a else read_value (get_value st t conf s k))
          choose = elim (Bool-cases (same_item section key s k)) [
            | inl h ↦ rw (h, back) refl
            | inr h ↦ rw h refl
          ]

  -- A text assigned to an item of string type is stored; it is then the value of that item under
  -- all names that are equal up to case, and the text under any other section and key is what it
  -- was.
  pub get_string-set_string :
      (conf : ConfigMap) (section key s k : Text) (e : Entry) (value : Text)
      → find_item st conf section key ≡ some e
      → e.item.type ≡ ValueType.string
      → (conf' : ConfigMap) × (set_string st conf section key value ≡ some conf')
        × (get_string st conf' s k
            ≡ (if same_item section key s k then some value else get_string st conf s k))
  get_string-set_string conf section key s k e value there type = (
    stored conf section key s k e there value,
    set_value-stored conf section key s k e there ValueType.string value type,
    get_value-stored conf section key s k e there ValueType.string value type,
  )

  -- What is found under other names stays.
  pub find_item-set_string :
      (conf conf' : ConfigMap) (section key s k : Text) (e : Entry) (value : Text)
      → find_item st conf section key ≡ some e
      → e.item.type ≡ ValueType.string
      → set_string st conf section key value ≡ some conf'
      → same_item section key s k ≡ false
      → find_item st conf' s k ≡ find_item st conf s k
  unfolding stored
  find_item-set_string conf conf' section key s k e value there typed call other =
      let made = set_value-stored conf section key s k e there ValueType.string value typed in
      let is = some-injective (stored conf section key s k e there value) conf' (sym made ∙ call) in
      ap (λ c. find_item st c s k) (sym is)
      ∙ (find_item-adjust st conf section key (put value) s k ∙ rw other refl)

  pub get_bool-set_bool :
      (conf : ConfigMap) (section key s k : Text) (e : Entry) (b : Bool)
      → IsExact st
      → find_item st conf section key ≡ some e
      → e.item.type ≡ ValueType.boolean
      → (conf' : ConfigMap) × (set_bool st conf section key b ≡ some conf')
        × (get_bool st conf' s k
            ≡ (if same_item section key s k then some b else get_bool st conf s k))
  unfolding get_bool set_bool
  get_bool-set_bool conf section key s k e b exact there type =
      set_value-read conf section key s k e there st.to_bool ValueType.boolean (st.from_bool b) type
        (exact.to_bool-from_bool b)

  pub get_int-set_int :
      (conf : ConfigMap) (section key s k : Text) (e : Entry) (n : st.Int)
      → IsExact st
      → find_item st conf section key ≡ some e
      → e.item.type ≡ ValueType.integer
      → (conf' : ConfigMap) × (set_int st conf section key n ≡ some conf')
        × (get_int st conf' s k
            ≡ (if same_item section key s k then some n else get_int st conf s k))
  unfolding get_int set_int
  get_int-set_int conf section key s k e n exact there type =
      set_value-read conf section key s k e there st.to_int ValueType.integer (st.from_int n) type
        (exact.to_int-from_int n)

  -- Suppose that a number below 2^32 is read back as it is printed. A number assigned to an item
  -- of integer type is stored; it is then the value of that item under all names that are equal
  -- up to case, and the number under any other section and key is what it was.
  pub get_uint-set_uint :
      (conf : ConfigMap) (section key s k : Text) (e : Entry) (n : ℕ)
      → IsExact st
      → find_item st conf section key ≡ some e
      → e.item.type ≡ ValueType.integer
      → n < 2 ^ 32
      → (conf' : ConfigMap) × (set_uint st conf section key n ≡ some conf')
        × (get_uint st conf' s k
            ≡ (if same_item section key s k then some n else get_uint st conf s k))
  unfolding get_uint set_uint
  get_uint-set_uint conf section key s k e n exact there type small =
      set_value-read conf section key s k e there st.to_uint ValueType.integer (st.from_uint n) type
        (exact.to_uint-from_uint n small)
