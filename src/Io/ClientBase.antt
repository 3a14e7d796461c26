-- ===== src/Io/ClientBase.antt =====
-- src/io/client_base.h and client_base.cpp: the state of a client's two streams, its
-- constructor, `set_crypt_key`, `alloc_buf`, and the three forms of `read` that only set the state.
use theme_srv.Common.{
  ℕ, ◌+◌, ◌/◌, Bool, true, false, List, [], ◌∷◌, Option, none, some, Bytes, replicate, read_at,
  write_at, mul64, ◌==◌, if◌then◌else◌, size_max, ◌>>=◌,
}
use theme_srv.Protocol.NetStruct.{NetStruct}
use theme_srv.Io.Cipher.{Cipher}
use theme_srv.Io.Socket.{Socket}

-- An `io_state` in its use for reading: `struct` is the null pointer when no read is queued.
pub record ReadState : Type 0 where
  pub struct : Option NetStruct
  pub field : ℕ
  pub offset : ℕ
  pub bufsz : ℕ
  pub buf : Option Bytes

-- An `io_state` in its use for writing. (`m_fd` and `m_fdoffs` are never used.)
pub record WriteState : Type 0 where
  pub bufoffs : ℕ
  pub bufsz : ℕ
  pub buf : Bytes

pub record ClientBase (ev : Cipher) : Type 0 where
  pub socket : Socket
  pub reading : ReadState
  pub writes : List WriteState
  pub encrypt : ev.Ctx
  pub decrypt : ev.Ctx

-- The value-initialised `io_state`.
abbrev pub blank_read : ReadState
blank_read = record { struct = none; field = 0; offset = 0; bufsz = 0; buf = none }

-- The size that `alloc_buf` takes for a request: the machine word is 8 bytes.
unfoldable pub alloc_sz : ℕ → Bool → ℕ
alloc_sz requestsz true = requestsz
alloc_sz requestsz false = mul64 (requestsz / 8 + 4) 8

-- `memcpy` of `m_bufsz` bytes of the old buffer into the new one, which is all zeros at first; a
-- fault where either is too small.
alloc_copy : Option Bytes → ℕ → ℕ → Option Bytes
alloc_copy none oldsz bufsz = some (replicate bufsz 0)
alloc_copy (some old) oldsz bufsz = do bs ← read_at old 0 oldsz; write_at (replicate bufsz 0) 0 bs

-- `alloc_buf` of a read. (An allocation that fails throws, and the null check behind it is idle.)
unfoldable pub alloc_buf : ReadState → ℕ → Option ReadState
unfolding alloc_sz alloc_copy
alloc_buf state requestsz = do
  buf ← alloc_copy state.buf state.bufsz (alloc_sz requestsz false)
  some (record state { bufsz = alloc_sz requestsz false; buf = some buf })

module _ {ev : Cipher} where
  pub init : Socket → ClientBase ev
  init sock = record {
    socket = sock;
    reading = blank_read;
    writes = [];
    encrypt = ev.enc_null;
    decrypt = ev.enc_null;
  }

  unfoldable pub set_crypt_key : ClientBase ev → Bytes → ClientBase ev
  set_crypt_key cli key = record cli { encrypt = ev.rc4 key; decrypt = ev.rc4 key }

  abbrev pub has_pending_read : ClientBase ev → Bool
  has_pending_read cli = elim cli.reading.struct [ none ↦ false | some ns ↦ true ]

  abbrev pub has_pending_write : ClientBase ev → Bool
  has_pending_write cli = elim cli.writes [ [] ↦ false | w ∷ ws ↦ true ]

  -- `read<T>()` and `read(ns)`
  unfoldable pub queue_read : ClientBase ev → NetStruct → ClientBase ev
  queue_read cli ns = record cli { reading = record (cli.reading) { struct = some ns } }

  -- `read(ns, field, buf)`: a null `buf` leaves the buffer, and the field -1 the field.
  unfoldable pub resume_read_at : ClientBase ev → NetStruct → ℕ → Option Bytes → ClientBase ev
  resume_read_at cli ns field buf = record cli {
    reading = record (cli.reading) {
      struct = some ns;
      field = if field == size_max then cli.reading.field else field;
      buf = elim buf [ none ↦ cli.reading.buf | some b ↦ some b ];
    };
  }
