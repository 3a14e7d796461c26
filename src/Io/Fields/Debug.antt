-- ===== src/Io/Fields/Debug.antt =====
-- `debug_field` of src/io/client_base.cpp: the message for the log. How string_theory prints a UTF-16
-- string and libuuid an identifier are a parameter.
use theme_srv.Common.{ℕ, Option, some, ◌++◌, Bytes, drop, ◌>>=◌}
use theme_srv.Core.Text.{Text, codes, digits}
use theme_srv.Core.Uuid.{from_le_bytes}
use theme_srv.Protocol.NetStruct.{
  DataType, integer, uuid, blob, buffer_size, string_utf16, buffer, buffer_redundant, NetField,
}
use theme_srv.Io.Fields.{extract_integer}

pub record FieldText : Type 0 where
  pub utf16 : Bytes → ℕ → Text
  pub unparse : Bytes → Text

-- `{}: FIELD {} ` and what follows it
abbrev pub field_line : Text → NetField → Text → Text
field_line addr field rest = addr ++ (codes ": FIELD " ++ (codes field.name ++ (codes " " ++ rest)))

debug_integer : Text → NetField → Bytes → ℕ → Option Text
debug_integer addr field buf pos = do
  value ← extract_integer field buf pos
  some (field_line addr field (codes "[INT]: " ++ digits 20 value))

debug_uuid : FieldText → Text → NetField → Bytes → ℕ → Option Text
debug_uuid show addr field buf pos = do
  id ← from_le_bytes (drop pos buf)
  some (field_line addr field (codes "[UUID]: " ++ show.unparse id))

-- The `switch`
debug_type : DataType → FieldText → Text → NetField → Bytes → ℕ → Option Text
unfolding debug_integer debug_uuid
debug_type blob show addr field buf pos = some (field_line addr field (codes "[BUFFER]"))
debug_type buffer show addr field buf pos = some (field_line addr field (codes "[BUFFER]"))
debug_type buffer_redundant show addr field buf pos =
    some (field_line addr field (codes "[BUFFER]"))
debug_type integer show addr field buf pos = debug_integer addr field buf pos
debug_type buffer_size show addr field buf pos = debug_integer addr field buf pos
debug_type string_utf16 show addr field buf pos =
    some (field_line addr field (codes "[STRING]: " ++ show.utf16 buf pos))
debug_type uuid show addr field buf pos = debug_uuid show addr field buf pos

-- `none` is a failed assertion, or a read outside the buffer.
unfoldable pub debug_field : FieldText → Text → NetField → Bytes → ℕ → Option Text
unfolding debug_type
debug_field show addr field buf pos = debug_type field.type show addr field buf pos
