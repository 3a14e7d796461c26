-- ===== src/Protocol/Packed.antt =====
-- src/protocol/protocol_structs_begin.inl: the accessors of the packed structures, for a message
-- that stands in a buffer. The host is little-endian, so THEME_LE16 and THEME_LE32 change nothing.
use theme_srv.Common.{
  ℕ, ◌+◌, ◌-◌, ◌*◌, ◌^◌, ◌%◌, List, [], ◌∷◌, ◌++◌, Option, some, Bytes, length, take, min, read_at,
  write_at, from_le, to_le, ◌>>=◌,
}
pub mod Strings

-- `get_name()` of an integer field of `w` bytes at `pos`
unfoldable pub get_uint : Bytes → ℕ → ℕ → Option ℕ
get_uint buf pos w = do bs ← read_at buf pos w; some (from_le bs)

-- `set_name(value)` of an integer field of `w` bytes
unfoldable pub set_uint : Bytes → ℕ → ℕ → ℕ → Option Bytes
set_uint buf pos w value = write_at buf pos (to_le w value)

-- The memory of an array of `char16_t`.
unfoldable pub units : List ℕ → Bytes
units [] = []
units (c ∷ cs) = to_le 2 c ++ units cs

-- `set_name(value)` of THEME_NET_FIELD_STRING_UTF16, with room for `szval` characters
unfoldable pub set_string_utf16 : Bytes → ℕ → ℕ → List ℕ → Option Bytes
set_string_utf16 buf pos szval value = do
  let size = min szval (length value)
  copied ← write_at buf (pos + 2) (units (take size value))
  ended ← write_at copied (pos + 2 + 2 * min (szval - 1) (length value)) (to_le 2 0)
  set_uint ended pos 2 size

-- `get_namesz()` of THEME_NET_FIELD_BUFFER_REDUNDANT, for the field's value `stored`
unfoldable pub get_redundant_sz : ℕ → ℕ
get_redundant_sz stored = (stored + 2 ^ 64 - 4) % 2 ^ 64 % 2 ^ 32

-- `set_namesz(value)`: what is stored
unfoldable pub set_redundant_sz : ℕ → ℕ
set_redundant_sz value = (value + 4) % 2 ^ 64 % 2 ^ 32
