-- ===== src/Io/Fields.antt =====
-- src/io/client_base.cpp, the sizes of fields: `calc_field_sz`, `extract_elementcount` and
-- `extract_integer`, on a little-endian host in a debug build. `none` is a failed
-- `THEME_ASSERTD`, or a read outside the buffer that a pointer goes into.
pub mod Wire
pub mod Debug
use theme_srv.Common.{
  ℕ, suc, ◌+◌, ◌-◌, ◌/◌, ◌%◌, Bool, true, false, ◌||◌, Option, none, some, Bytes, ltb, leb, ◌==◌,
  if◌then◌else◌, get_elem?, read_at, from_le, sub64, mul64, size_max, ◌>>=◌, ◌>>◌, assertd,
}
use theme_srv.Protocol.NetStruct.{
  DataType, string_utf16, buffer, buffer_redundant, NetField, NetStruct, is_buffer_size,
  is_redundant, size,
}

-- A pointer into a buffer, `none` for a null pointer.
abbrev pub Pointer : Type 0
Pointer = Option (Bytes × ℕ)

abbrev pub max_buf_count : ℕ
max_buf_count = 1024

-- The tuple of `calc_field_sz`: whether the size is known, the size in memory, the size on the wire.
pub record FieldSz : Type 0 where
  pub known : Bool
  pub alloc : ℕ
  pub wire : ℕ

unfoldable pub extract_integer : NetField → Bytes → ℕ → Option ℕ
extract_integer field buf pos =
    if field.elementsz == 1 || field.elementsz == 2 || field.elementsz == 4 || field.elementsz == 8
    then (do bs ← read_at buf pos field.elementsz; some (from_le bs))
    else none

-- The size of a redundant buffer counts its size field: take that off, with `size_t` wrap-around.
abbrev compensate : NetField → NetField → ℕ → Option ℕ
compensate sz_field buf_field result =
    if is_redundant buf_field.type
    then (do
      assertd (sz_field.elementsz % buf_field.elementsz == 0)
      some (sub64 result (sz_field.elementsz / buf_field.elementsz)))
    else some result

-- The limit on the number of elements; (size_t)-1 stands for too many.
abbrev pub limited : ℕ → ℕ
limited result = if ltb max_buf_count result then size_max else result

-- `buf` and `pos` point at the buffer field, which stands behind its size field.
unfoldable pub extract_elementcount : NetField → NetField → Bytes → ℕ → Option ℕ
extract_elementcount sz_field buf_field buf pos = do
  assertd (is_buffer_size sz_field.type)
  assertd (sz_field.count == 1)
  assertd (leb sz_field.elementsz pos)
  result ← extract_integer sz_field buf (pos - sz_field.elementsz)
  count ← compensate sz_field buf_field result
  some (limited count)

-- The case of `e_string_utf16`, into which the two buffer types fall through.
variable_sz : NetStruct → ℕ → NetField → Pointer → Option FieldSz
variable_sz ns field cur none = do
  assertd (ltb 0 field)
  some (record { known = false; alloc = mul64 cur.elementsz cur.count; wire = 0 })
variable_sz ns field cur (some (buf, pos)) = do
  assertd (ltb 0 field)
  sz_field ← get_elem? ns.fields (field - 1)
  count ← extract_elementcount sz_field cur buf pos
  some (record {
    known = true;
    alloc = mul64 cur.elementsz cur.count;
    wire = mul64 cur.elementsz count;
  })

fixed_sz : NetField → FieldSz
fixed_sz cur = record {
  known = true;
  alloc = mul64 cur.elementsz cur.count;
  wire = mul64 cur.elementsz cur.count;
}

type_sz : DataType → NetStruct → ℕ → NetField → Pointer → Option FieldSz
unfolding variable_sz fixed_sz
type_sz buffer ns field cur buf = do assertd (field + 1 == size ns); variable_sz ns field cur buf
type_sz buffer_redundant ns field cur buf = do
  assertd (field + 1 == size ns)
  variable_sz ns field cur buf
type_sz string_utf16 ns field cur buf = variable_sz ns field cur buf
type_sz _ ns field cur buf = some (fixed_sz cur)

unfoldable pub calc_field_sz : NetStruct → ℕ → Pointer → Option FieldSz
unfolding type_sz
calc_field_sz ns field buf = do cur ← get_elem? ns.fields field; type_sz cur.type ns field cur buf
