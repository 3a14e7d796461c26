-- ===== src/Core/Uuid/Values.antt =====
-- The class of src/core/uuid.h and uuid.cpp: its text form, comparison and copies. Libuuid is a
-- parameter; what the code relies on is that a text that it prints is read back.
use theme_srv.Common.{
  Bool, true, false, Option, none, some, Bytes, length, replicate, take, read_at, write_at, ◌≡◌,
  refl, ap, sym, ◌∙◌, append-nil, take-length, [],
}
use theme_srv.Core.Text.{Text}
use theme_srv.Core.Uuid.{from_le_bytes, to_le_bytes}

-- How `uuid_compare` orders two identifiers: -1, 0 or 1.
pub data Order : Type 0 where
  below equal above : Order

-- `uuid_unparse` (the 36 characters before the NUL), `uuid_parse` (none if it fails, which leaves
-- the identifier), `uuid_is_null`, `uuid_compare`, and what `uuid_generate` makes.
pub record LibUuid : Type 0 where
  pub unparse : Bytes → Text
  pub parse : Text → Option Bytes
  pub is_null : Bytes → Bool
  pub compare : Bytes → Bytes → Order
  pub generated : Bytes

pub record IsLibUuid (lib : LibUuid) : Type 0 where
  pub length-unparse : (id : Bytes) → length id ≡ 16 → length (lib.unparse id) ≡ 36
  pub parse-unparse : (id : Bytes) → length id ≡ 16 → lib.parse (lib.unparse id) ≡ some id

-- The default constructor, `null`, and `clear`
abbrev pub null : Bytes
null = replicate 16 0

abbrev pub clear : Bytes → Bytes
clear id = null

-- The constructor from bytes, and `from_bytes`
unfoldable pub from_bytes : Bytes → Option Bytes
from_bytes buf = read_at buf 0 16

-- `operator =`, a `memcpy`
unfoldable pub copy : Bytes → Bytes → Option Bytes
copy id rhs = write_at id 0 rhs

-- `to_le` and `from_le`, for an array of 16 bytes
abbrev pub to_le_array : Bytes → Bytes → Option Bytes
to_le_array id buf = to_le_bytes id buf

abbrev pub from_le_array : Bytes → Option Bytes
from_le_array buf = from_le_bytes buf

is_below : Order → Bool
is_below below = true
is_below equal = false
is_below above = false

is_equal : Order → Bool
is_equal below = false
is_equal equal = true
is_equal above = false

parsed : Bytes → Option Bytes → Bool × Bytes
parsed id none = (false, id)
parsed id (some made) = (true, made)

module _ (lib : LibUuid) where
  unfoldable pub generate : Option Bytes
  generate = from_bytes lib.generated

  unfoldable pub as_string : Bytes → Text
  as_string id = take 36 (lib.unparse id)

  unfoldable pub from_string : Bytes → Text → Bool × Bytes
  unfolding parsed
  from_string id str = parsed id (lib.parse str)

  abbrev pub empty : Bytes → Bool
  empty id = lib.is_null id

  unfoldable pub equals : Bytes → Bytes → Bool
  unfolding is_equal
  equals id rhs = is_equal (lib.compare id rhs)

  -- `operator <`
  unfoldable pub less : Bytes → Bytes → Bool
  unfolding is_below
  less id rhs = is_below (lib.compare id rhs)

  -- The text of an identifier is read back, whatever the object was before.
  pub from_string-as_string :
      IsLibUuid lib
      → (id old : Bytes) → length id ≡ 16
      → from_string old (as_string id) ≡ (true, id)
  unfolding from_string as_string
  from_string-as_string law id old h =
      let t = lib.unparse id in
      let all : take 36 t ≡ t =
        ap (λ n. take n t) (sym (law.length-unparse id h))
        ∙ ap (take (length t)) (sym (append-nil t))
        ∙ take-length t [] in
      rw (all, law.parse-unparse id h) refl
