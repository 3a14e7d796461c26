-- ===== src/Io/Read.antt =====
-- src/io/client_base.cpp, the receiving side: `resume_read` and `handle_read`, in a debug build.
-- `none` and `trapped` are a failed `THEME_ASSERTD` or an access outside a buffer. The buffer on
-- the stack or the heap for the encrypted bytes is exactly as long as the call of `read` asks for.
-- One call of `read` gives less than 2^31 bytes, which the `int` of `EVP_DecryptUpdate` holds.
pub mod Loops
pub mod Scatter
pub mod ScatterVaried
pub mod Buffer
pub mod Passes
pub mod Counted
pub mod Announced
pub mod Varying
pub mod Whole
pub mod Wanting
pub mod Blocked
pub mod Silent
pub mod Overflow
pub mod Partway
pub mod Pieces
pub mod Refilled
pub mod Segments
pub mod TooLarge
use theme_srv.Common.{
  ℕ, zero, suc, ◌+◌, ◌-◌, Bool, true, false, ◌&&◌, Option, none, some, Bytes, length, min, read_at,
  write_at, ltb, ◌==◌, if◌then◌else◌, add64, size_max, ◌>>=◌, ◌>>◌, assertd,
}
use theme_srv.Protocol.NetStruct.{NetStruct, size}
use theme_srv.Io.Cipher.{Cipher}
use theme_srv.Io.Socket.{IoResult, read, shutdown}
use theme_srv.Io.Fields.{Pointer, calc_field_sz}
use theme_srv.Io.ClientBase.{ReadState, ClientBase, alloc_buf}

-- `state.m_buf.get() + pos`
abbrev pub pointer : Option Bytes → ℕ → Pointer
pointer none pos = none
pointer (some buf) pos = some (buf, pos)

-- The first loop, over `left` fields from `i` on: the size in memory of what has been read. (The
-- size on the wire is added up beside it and never used.)
pub read_so_far : NetStruct → Option Bytes → ℕ → ℕ → ℕ → Option ℕ
read_so_far ns buf zero i memsz = some memsz
read_so_far ns buf (suc left) i memsz = do
  sz ← calc_field_sz ns i (pointer buf memsz)
  assertd sz.known
  read_so_far ns buf left (i + 1) (add64 memsz sz.alloc)

-- What the second loop finds: how much to allocate and to read, or a request that is too large.
pub data Need : Type 0 where
  too_large : Need
  need : ℕ → ℕ → Need

-- The second loop, over `left` fields from `i` on. Only the field at hand, `first`, is looked at
-- in the buffer.
pub to_read : NetStruct → Option Bytes → ℕ → ℕ → ℕ → ℕ → Bool → ℕ → ℕ → Option Need
to_read ns buf memsz first zero i fixedsz allocsz readsz = some (need allocsz readsz)
to_read ns buf memsz first (suc left) i fixedsz allocsz readsz = do
  sz ← calc_field_sz ns i (if i == first then pointer buf memsz else none)
  let rest =
      to_read ns buf memsz first left (i + 1) (fixedsz && sz.known) (add64 allocsz sz.alloc)
        (if fixedsz && sz.known then add64 readsz sz.wire else readsz)
  if sz.wire == size_max then some too_large else rest

-- Where the third loop stands: the field, the offset in it, the message and the cipher.
pub record Cursor (ev : Cipher) : Type 0 where
  pub field : ℕ
  pub offset : ℕ
  pub buf : Bytes
  pub ctx : ev.Ctx

-- The third loop, over `left` fields: `nread` bytes of `chunk` from `wirepos` on are decrypted
-- into the message. The Boolean is that the message is complete.
pub scatter :
    (ev : Cipher) → NetStruct → Bytes → ℕ → ℕ → ℕ → ℕ → Cursor ev → Option (Bool × Cursor ev)
scatter ev ns chunk zero mempos wirepos nread cur = none
scatter ev ns chunk (suc left) mempos wirepos nread cur = do
  sz ← calc_field_sz ns cur.field (some (cur.buf, mempos))
  assertd sz.known
  let field_nread = min sz.wire nread
  taken ← read_at chunk wirepos field_nread
  assertd (length (ev.update cur.ctx taken) == field_nread)
  buf ← write_at cur.buf (mempos + cur.offset) (ev.update cur.ctx taken)
  let ctx = ev.advance cur.ctx taken
  let next = record cur { field = cur.field + 1; offset = 0; buf = buf; ctx = ctx }
  let rest =
      scatter ev ns chunk left (mempos + cur.offset + sz.alloc) (wirepos + field_nread)
        (nread - field_nread) next
  let over = assertd (nread - field_nread == 0)
  let part = record cur { offset = add64 cur.offset field_nread; buf = buf; ctx = ctx }
  let whole = record cur { field = cur.field + 1; buf = buf; ctx = ctx }
  if ltb field_nread sz.wire
      then over >> some (false, part)
      else if cur.field + 1 == size ns
      then over >> some (true, whole)
      else rest

-- What one round of the outer loop does: return, or go round again.
pub data Pass (ev : Cipher) : Type 0 where
  returns : Bool → ClientBase ev → Pass ev
  repeats : ClientBase ev → Pass ev

module _ {ev : Cipher} where
  -- The state behind the third loop.
  pub settle : ClientBase ev → ReadState → Bool × Cursor ev → Pass ev
  settle cli st (complete, cur) =
      let cli' = record cli {
        reading = record st { field = cur.field; offset = cur.offset; buf = some (cur.buf) };
        decrypt = cur.ctx;
      } in
      if complete then returns true cli' else repeats cli'

  -- The call of `read` and what follows it; `cli` has the socket behind the call.
  pub received : ClientBase ev → NetStruct → ReadState → Bytes → ℕ → IoResult → Option (Pass ev)
  received cli ns st buf memsz r =
      if r.success
      then (do
        res ←
            scatter ev ns r.bytes (size ns - st.field) memsz 0 r.amount
              (record { field = st.field; offset = st.offset; buf = buf; ctx = cli.decrypt })
        some (settle cli st res))
      else some (
          returns false (record cli {
            reading = st;
            socket = if r.amount == size_max then shutdown (cli.socket) else cli.socket;
          }))

  pub fetch : ClientBase ev → NetStruct → ReadState → ℕ → ℕ → Option (Pass ev)
  fetch cli ns st memsz readsz = do
    buf ← st.buf
    let (r, sock) = read cli.socket readsz
    received (record cli { socket = sock }) ns st buf memsz r

  pub satisfy : ClientBase ev → NetStruct → ℕ → Need → Option (Pass ev)
  satisfy cli ns memsz too_large =
      some (returns false (record cli { socket = shutdown (cli.socket) }))
  satisfy cli ns memsz (need allocsz readsz) = do
    st ← alloc_buf cli.reading allocsz
    let left = readsz - min readsz cli.reading.offset
    if ltb 0 left then fetch cli ns st memsz left else some (repeats (record cli { reading = st }))

  unfoldable pub pass : ClientBase ev → Option (Pass ev)
  unfolding read_so_far to_read scatter settle received fetch satisfy
  pass cli = do
    ns ← cli.reading.struct
    memsz ← read_so_far ns cli.reading.buf cli.reading.field 0 0
    wanted ←
        to_read ns cli.reading.buf memsz cli.reading.field (size ns - cli.reading.field)
          cli.reading.field true memsz 0
    satisfy cli ns memsz wanted

-- How a call of `resume_read` ends: with true or false, in a trap, or not within the rounds given.
pub data Outcome (ev : Cipher) : Type 0 where
  finished : ClientBase ev → Outcome ev
  waiting : ClientBase ev → Outcome ev
  trapped : Outcome ev
  endless : Outcome ev

-- What `handle_read` gives: the message, if it is complete.
pub data Handled (ev : Cipher) : Type 0 where
  message : Option Bytes → ClientBase ev → Handled ev
  nothing : ClientBase ev → Handled ev
  trap hang : Handled ev

module _ {ev : Cipher} where
  abbrev pub after_pass : Option (Pass ev) → (ClientBase ev → Outcome ev) → Outcome ev
  after_pass none again = trapped
  after_pass (some (returns true cli)) again = finished cli
  after_pass (some (returns false cli)) again = waiting cli
  after_pass (some (repeats cli)) again = again cli

  unfoldable pub resume_read : ℕ → ClientBase ev → Outcome ev
  resume_read zero cli = endless
  resume_read (suc fuel) cli = after_pass (pass cli) (resume_read fuel)

  -- The end of `handle_read`: the state is reset and the buffer given to the caller. `m_bufsz`
  -- keeps its value.
  abbrev pub release : ClientBase ev → ClientBase ev
  release cli = record cli {
    reading = record (cli.reading) { struct = none; field = 0; offset = 0; buf = none };
  }

  abbrev pub handled : Outcome ev → Handled ev
  handled (finished cli) = message (cli.reading.buf) (release cli)
  handled (waiting cli) = nothing cli
  handled trapped = trap
  handled endless = hang

  unfoldable pub handle_read : ℕ → ClientBase ev → Handled ev
  handle_read fuel cli = handled (resume_read fuel cli)
