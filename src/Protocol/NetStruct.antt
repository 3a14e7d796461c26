-- ===== src/Protocol/NetStruct.antt =====
-- src/protocol/net_struct.h and net_struct.cpp: the descriptions of fields and structures, and
-- the size of a structure in memory. `m_size` is the length of the field list, as `std::size`
-- makes it in every structure that the program builds.
use Prim.Native.String.{String}
use theme_srv.Common.{
  ℕ, zero, suc, ◌+◌, ◌≤◌, ◌<◌, ◌*◌, ◌^◌, ◌≡◌, refl, some, List, [], ◌∷◌, Bool, true, false, arith,
  length, get_elem?, add64, mul64,
}

-- `net_field::data_type`
pub data DataType : Type 0 where
  integer uuid blob buffer_size string_utf16 buffer buffer_redundant : DataType

pub record NetField : Type 0 where
  pub type : DataType
  pub name : String
  pub elementsz : ℕ
  pub count : ℕ

pub record NetStruct : Type 0 where
  pub name : String
  pub fields : List NetField

abbrev pub size : NetStruct → ℕ
size ns = length ns.fields

-- The `for` loop of `net_struct_calcsz` from one field on: it stops at the end or at `idx`.
calcsz_from : List NetField → ℕ → ℕ → ℕ
calcsz_from [] idx sz = sz
calcsz_from (f ∷ fs) zero sz = sz
calcsz_from (f ∷ fs) (suc idx) sz = calcsz_from fs idx (add64 sz (mul64 f.elementsz f.count))

unfoldable pub net_struct_calcsz : NetStruct → ℕ → ℕ
unfolding calcsz_from
net_struct_calcsz msg idx = calcsz_from msg.fields idx 0

-- `_get_data_type_str`
unfoldable pub get_data_type_str : DataType → String
get_data_type_str blob = "BLOB"
get_data_type_str buffer = "BUFFER"
get_data_type_str buffer_redundant = "BUFFER"
get_data_type_str integer = "INTEGER"
get_data_type_str buffer_size = "INTEGER"
get_data_type_str string_utf16 = "STRING"
get_data_type_str uuid = "UUID"

-- The types whose size on the wire is their size in memory.
abbrev pub is_fixed : DataType → Bool
is_fixed buffer = false
is_fixed buffer_redundant = false
is_fixed string_utf16 = false
is_fixed _ = true

abbrev pub is_buffer_size : DataType → Bool
is_buffer_size buffer_size = true
is_buffer_size _ = false

abbrev pub is_redundant : DataType → Bool
is_redundant buffer_redundant = true
is_redundant _ = false

abbrev pub field_sz : NetField → ℕ
field_sz f = f.elementsz * f.count

-- The place in memory of field `i`: the sum of the sizes before it.
abbrev pub mem_offset : List NetField → ℕ → ℕ
mem_offset [] i = 0
mem_offset (f ∷ fs) zero = 0
mem_offset (f ∷ fs) (suc i) = field_sz f + mem_offset fs i

-- The size in memory of the whole structure.
abbrev pub total_sz : List NetField → ℕ
total_sz [] = 0
total_sz (f ∷ fs) = field_sz f + total_sz fs

pub mem_offset-zero : (fs : List NetField) → mem_offset fs 0 ≡ 0
mem_offset-zero [] = refl
mem_offset-zero (f ∷ fs) = refl

pub mem_offset-suc :
    (fs : List NetField) (i : ℕ) {f : NetField}
    → get_elem? fs i ≡ some f
    → mem_offset fs (suc i) ≡ mem_offset fs i + field_sz f
mem_offset-suc [] i h = cc
mem_offset-suc (g ∷ fs) zero {f} h = ground (arith, mem_offset-zero fs)
mem_offset-suc (g ∷ fs) (suc i) {f} h = omega (arith, mem_offset-suc fs i h)

pub mem_offset-le-total_sz : (fs : List NetField) (i : ℕ) → mem_offset fs i ≤ total_sz fs
mem_offset-le-total_sz [] i = omega arith
mem_offset-le-total_sz (f ∷ fs) zero = omega arith
mem_offset-le-total_sz (f ∷ fs) (suc i) = omega (arith, mem_offset-le-total_sz fs i)

calcsz_from-mem_offset :
    (fs : List NetField) (idx sz : ℕ)
    → sz + total_sz fs < 2 ^ 64
    → calcsz_from fs idx sz ≡ sz + mem_offset fs idx
unfolding calcsz_from
calcsz_from-mem_offset [] idx sz h = omega arith
calcsz_from-mem_offset (f ∷ fs) zero sz h = omega arith
calcsz_from-mem_offset (f ∷ fs) (suc idx) sz h =
    let e : add64 sz (mul64 f.elementsz f.count) ≡ sz + f.elementsz * f.count = omega arith in
    rw e (omega (arith, calcsz_from-mem_offset fs idx (sz + f.elementsz * f.count) (omega arith)))

-- For a structure of less than 2^64 bytes, `net_struct_calcsz` up to a field is the sum of the
-- sizes before that field, or of all sizes if there are fewer fields.
pub net_struct_calcsz-mem_offset :
    (msg : NetStruct) (idx : ℕ)
    → total_sz msg.fields < 2 ^ 64
    → net_struct_calcsz msg idx ≡ mem_offset msg.fields idx
unfolding net_struct_calcsz
net_struct_calcsz-mem_offset msg idx h =
    omega (arith, calcsz_from-mem_offset msg.fields idx 0 (omega arith))
