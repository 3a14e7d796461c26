-- ===== src/Core/Uuid.antt =====
-- src/core/uuid.h, uuid.cpp and endian.h: the byte orders of an identifier, on a little-endian host.
pub mod Order
pub mod Values
use theme_srv.Common.{
  ℕ, ◌+◌, List, [], ◌∷◌, ◌++◌, Option, some, Bytes, replicate, read_at, write_at, from_le, to_le,
  ◌>>=◌,
}

abbrev pub backwards : Bytes → Bytes
backwards [] = []
backwards (b ∷ bs) = backwards bs ++ b ∷ []

-- `swap_endian` of an integer of `w` bytes, which is `__builtin_bswap16`, `32` or `64`
unfoldable pub swap_endian : ℕ → ℕ → ℕ
swap_endian w value = from_le (backwards (to_le w value))

-- `x->m_data = __builtin_bswap(src->m_data)` for a member of `w` bytes at `pos`
unfoldable pub put_swapped : Bytes → Bytes → ℕ → ℕ → Option Bytes
put_swapped src dst pos w = do
  bs ← read_at src pos w
  write_at dst pos (to_le w (swap_endian w (from_le bs)))

unfoldable pub to_le_bytes : Bytes → Bytes → Option Bytes
to_le_bytes src buf = do
  one ← put_swapped src buf 0 4
  two ← put_swapped src one 4 2
  three ← put_swapped src two 6 2
  rest ← read_at src 8 8
  write_at three 8 rest

unfoldable pub from_le_bytes : Bytes → Option Bytes
from_le_bytes buf = do
  result ← read_at buf 0 16
  one ← put_swapped result result 0 4
  two ← put_swapped one one 4 2
  put_swapped two two 6 2
