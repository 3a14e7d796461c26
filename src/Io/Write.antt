-- ===== src/Io/Write.antt =====
-- src/io/client_base.cpp, the sending side: `resume_write`, `enqueue_write` and `handle_write`,
-- and `pump_write` of src/daemon/client_common.cpp. `none` is a failed `THEME_ASSERTD` or an
-- access outside a buffer.
pub mod Image
pub mod Stream
pub mod Enqueue
use theme_srv.Common.{
  ℕ, zero, suc, ◌+◌, ◌%◌, ◌^◌, ltb, Bool, true, false, List, [], ◌∷◌, ◌++◌, Option, none, some,
  Bytes, length, drop, replicate, read_at, write_at, ◌==◌, if◌then◌else◌, add64, size_max, ◌>>=◌,
  ◌>>◌, assertd,
}
use theme_srv.Protocol.NetStruct.{NetStruct, size}
use theme_srv.Io.Cipher.{Cipher}
use theme_srv.Io.Socket.{Socket, IoResult, write, shutdown}
use theme_srv.Io.Fields.{calc_field_sz}
use theme_srv.Io.ClientBase.{WriteState, ClientBase, alloc_sz, has_pending_write}

-- Whether the whole buffer has gone out, and the state and the socket behind the call.
pub record Resumed : Type 0 where
  pub complete : Bool
  pub state : WriteState
  pub socket : Socket

after_write : WriteState → IoResult → Socket → Resumed
after_write st r sock =
    if r.success
    then record {
      complete = add64 st.bufoffs r.amount == st.bufsz;
      state = record st { bufoffs = add64 st.bufoffs r.amount };
      socket = sock;
    }
    else record {
      complete = false;
      state = st;
      socket = if r.amount == size_max then shutdown sock else sock;
    }

unfoldable pub resume_write : WriteState → Socket → Resumed
unfolding after_write
resume_write st sock =
    let (r, sock') = write sock (drop st.bufoffs st.buf) in after_write st r sock'

-- The first loop of `enqueue_write`, over `left` fields from field `i` on: the size on the wire.
-- It looks for field `i` at the place that the sizes on the wire give.
pub wire_size : NetStruct → Bytes → ℕ → ℕ → ℕ → Option ℕ
wire_size ns buf zero i wiresz = some wiresz
wire_size ns buf (suc left) i wiresz = do
  sz ← calc_field_sz ns i (some (buf, wiresz))
  assertd sz.known
  wire_size ns buf left (i + 1) (add64 wiresz sz.wire)

-- The size that a call of `EVP_EncryptUpdate` gets, whose argument is an `int`: `none` for a negative
-- one, which the call refuses, so that the assertion behind it fails.
unfoldable pub as_int : ℕ → Option ℕ
as_int n = let k = n % 2 ^ 32 in if ltb k (2 ^ 31) then some k else none

-- The second loop: each field goes from the message at `mem` to the new buffer at `wire`.
pub encrypt_fields :
    (ev : Cipher) → NetStruct → Bytes → ℕ → ℕ → ℕ → ℕ → Bytes → ev.Ctx → Option (Bytes × ev.Ctx)
encrypt_fields ev ns buf zero i mem wire out ctx = some (out, ctx)
encrypt_fields ev ns buf (suc left) i mem wire out ctx = do
  sz ← calc_field_sz ns i (some (buf, mem))
  assertd sz.known
  len ← as_int sz.wire
  plain ← read_at buf mem len
  assertd (length (ev.update ctx plain) == sz.wire)
  out' ← write_at out wire (ev.update ctx plain)
  encrypt_fields ev ns buf left (i + 1) (mem + sz.alloc) (wire + sz.wire) out'
      (ev.advance ctx plain)

module _ {ev : Cipher} where
  -- The end of `enqueue_write`: with nothing waiting, try to send at once.
  send_or_queue : ClientBase ev → WriteState → ClientBase ev
  send_or_queue cli st =
      if has_pending_write cli
      then record cli { writes = cli.writes ++ st ∷ [] }
      else (let r = resume_write st cli.socket in
          if r.complete
          then record cli { socket = r.socket }
          else record cli { socket = r.socket; writes = cli.writes ++ (r.state) ∷ [] })

  unfoldable pub enqueue_write : ClientBase ev → NetStruct → Bytes → Option (ClientBase ev)
  unfolding wire_size encrypt_fields send_or_queue
  enqueue_write cli ns buf = do
    wiresz ← wire_size ns buf (size ns) 0 0
    let bufsz = alloc_sz wiresz true
    (out, ctx) ← encrypt_fields ev ns buf (size ns) 0 0 0 (replicate bufsz 0) cli.encrypt
    some (
        send_or_queue (record cli { encrypt = ctx })
          (record { bufoffs = 0; bufsz = bufsz; buf = out }))

  write_front : ClientBase ev → List WriteState → Bool × ClientBase ev
  write_front cli [] = (false, cli)
  write_front cli (st ∷ rest) =
      let r = resume_write st cli.socket in
      if r.complete
      then (true, record cli { socket = r.socket; writes = rest })
      else (false, record cli { socket = r.socket; writes = (r.state) ∷ rest })

  unfoldable pub handle_write : ClientBase ev → Bool × ClientBase ev
  unfolding write_front
  handle_write cli = write_front cli cli.writes

  -- The loop of `pump_write`, with a bound on its rounds; `none` when that is reached.
  pump_write_fuel : ℕ → ClientBase ev → Option (ClientBase ev)
  pump_write_fuel zero cli = none
  pump_write_fuel (suc fuel) cli =
      let (more, cli') = handle_write cli in
      let rest = pump_write_fuel fuel cli' in if more then rest else some cli'

  unfoldable pub pump_write : ClientBase ev → Option (ClientBase ev)
  unfolding pump_write_fuel
  pump_write cli = pump_write_fuel (suc (length cli.writes)) cli
