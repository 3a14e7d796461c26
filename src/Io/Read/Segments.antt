-- ===== src/Io/Read/Segments.antt =====
-- `resume_read` and `handle_read` of src/io/client_base.cpp on a message that arrives in several
-- segments, cut where a fixed field starts.
use theme_srv.Common.{
  ℕ, suc, ◌+◌, ◌^◌, ◌≤◌, ◌<◌, ◌≡◌, ap, sym, ◌∙◌, true, some, List, [], ◌∷◌, ◌++◌, Bytes, length,
  length-append, arith, append_assoc, subst,
}
use theme_srv.Protocol.NetStruct.{NetField, NetStruct, is_fixed, field_sz, total_sz}
use theme_srv.Protocol.Message.{
  IsMessage, IsFixedRun, IsFixedRun-length, IsFixedRun-append, IsMessage-append,
}
use theme_srv.Io.Cipher.{Cipher, IsStream}
use theme_srv.Io.Socket.{Socket, Arrival, segment}
use theme_srv.Io.ClientBase.{ClientBase}
use theme_srv.Io.Read.{resume_read, finished, message, release, handled, handle_read}
use theme_srv.Io.Read.Buffer.{room, in_segments}
use theme_srv.Io.Read.Passes.{IsAt, Received}
use theme_srv.Io.Read.Varying.{Received-append}
use theme_srv.Io.Read.Whole.{resume_read-IsMessage}
use theme_srv.Io.Read.Refilled.{pass-run}

-- The bytes `pieces` fill whole fixed fields of `fs`, one piece after another; `last` is left, and
-- starts with a fixed field that is not empty.
pub data IsCut : List NetField → List Bytes → List NetField → Type 0 where
  uncut : {fs : List NetField} → IsCut fs [] fs
  cut :
      {fs last : List NetField} {bs : List Bytes} (f : NetField) (run : List NetField)
      (g : NetField) (more : List NetField) (e : Bytes)
      → fs ≡ f ∷ run ++ g ∷ more
      → IsFixedRun (f ∷ run) e
      → is_fixed g.type ≡ true
      → field_sz g < 2 ^ 32
      → 0 < field_sz g
      → IsCut (g ∷ more) bs last
      → IsCut fs (e ∷ bs) last

abbrev pub joined : List Bytes → Bytes
joined [] = []
joined (b ∷ bs) = b ++ joined bs

pub IsCut-IsMessage :
    {fs last : List NetField} {bs : List Bytes} {m : Bytes}
    → IsCut fs bs last
    → IsMessage last m
    → IsMessage fs (joined bs ++ m)
IsCut-IsMessage uncut msg = msg
IsCut-IsMessage {m = m} (cut {bs = bs} f run g more e eq hr fx small pos later) msg =
    rw (eq, append_assoc e (joined bs) m) (IsMessage-append hr (IsCut-IsMessage later msg))

-- A round for each piece, and two for the rest.
abbrev pub rounds : List Bytes → ℕ → ℕ
rounds [] fuel = suc (suc fuel)
rounds (b ∷ bs) fuel = suc (rounds bs fuel)

module _ {ev : Cipher} (law : IsStream ev) (ns : NetStruct)
    (small : total_sz ns.fields < 2 ^ 32) where
  resume_read-IsCut :
      (fuel : ℕ) {fs last : List NetField} {pieces : List Bytes} (cli : ClientBase ev)
      (pre : List NetField) (p m e x : Bytes) (rest : List Arrival)
      → IsCut fs pieces last
      → IsAt ns (length pre) p cli
      → IsFixedRun pre p
      → IsMessage last m
      → ns.fields ≡ pre ++ fs
      → 0 < length m
      → ev.update (ev.advance cli.decrypt (joined pieces)) e ≡ m
      → length p + length (joined pieces) + length m ≤ room ns
      → cli.socket.arrivals ≡ in_segments pieces (segment (e ++ x) ∷ rest)
      → (cli' : ClientBase ev) × (resume_read (rounds pieces fuel) cli ≡ finished cli')
        × Received ns p (joined pieces ++ e) x rest cli cli'
  unfolding resume_read
  resume_read-IsCut fuel cli pre p m e x rest uncut at hp msg eq pos plain fits arr =
      resume_read-IsMessage law ns small fuel cli pre _ p m e x rest at hp msg eq pos
        (ap (λ c. ev.update c e) (sym (law.advance-nil cli.decrypt)) ∙ plain) (omega arith) arr
  resume_read-IsCut fuel cli pre p m e x rest
        (cut {fs} {last} {bs} f run g more b split hr fx bound some_g later) at hp msg eq pos plain
        fits arr =
      let m' = joined bs ++ m in
      let (mid, call, at', a) =
        pass-run law ns small cli pre f run g more p b m' (in_segments bs (segment (e ++ x) ∷ rest))
          at hp hr (IsCut-IsMessage later msg) (eq ∙ ap (◌++◌ pre) split) fx bound some_g
          (omega (arith, length-append (joined bs) m)) (omega (arith, length-append b (joined bs)))
          arr in
      let u = ev.update cli.decrypt b in
      let same = law.length-update cli.decrypt b in
      let (cli', calls, got) =
        resume_read-IsCut fuel mid (pre ++ f ∷ run) (p ++ u) m e x rest later at'
          (IsFixedRun-append hp (IsFixedRun-length u hr same)) msg
          (eq ∙ ap (◌++◌ pre) split ∙ sym (append_assoc pre (f ∷ run) (g ∷ more))) pos
          (ap (λ c. ev.update (ev.advance c (joined bs)) e) a.decrypt_is
            ∙ ap (λ c. ev.update c e) (sym (law.advance-append cli.decrypt b (joined bs)))
            ∙ plain)
          (omega (arith, length-append p u, length-append b (joined bs)))
          (ap (λ (s : Socket). s.arrivals) a.socket_is) in
      (
        cli',
        rw call calls,
        subst (λ t. Received ns p t x rest cli cli') (sym (append_assoc b (joined bs) e))
            (Received-append law ns small p b (joined bs ++ e) x rest _ cli mid cli' a got),
      )

  -- Suppose that a cipher works byte by byte, that a client is about to read the fields `fs` of
  -- a structure of less than 4 GiB, with the bytes `p` of the fixed fields before them in its
  -- buffer, and that the rest of the message arrives in several segments: each but the last
  -- holds whole fixed fields, with a fixed field that is not empty behind them, and the last
  -- begins with `e`. If `e` decrypts, behind the other segments, to bytes, not empty, which the
  -- wire format allows for the fields that are left, and the message fits the buffer, then
  -- `handle_read` ends within a round for each of the other segments and two more, and gives the
  -- caller `p`, then all that has arrived, decrypted as one stream, then padding, and its reader
  -- is reset; exactly the message has been read, and the cipher has moved on by it.
  pub handle_read-IsCut :
      (fuel : ℕ) {fs last : List NetField} {pieces : List Bytes} (cli : ClientBase ev)
      (pre : List NetField) (p m e x : Bytes) (rest : List Arrival)
      → IsCut fs pieces last
      → IsAt ns (length pre) p cli
      → IsFixedRun pre p
      → IsMessage last m
      → ns.fields ≡ pre ++ fs
      → 0 < length m
      → ev.update (ev.advance cli.decrypt (joined pieces)) e ≡ m
      → length p + length (joined pieces) + length m ≤ room ns
      → cli.socket.arrivals ≡ in_segments pieces (segment (e ++ x) ∷ rest)
      → (pad : Bytes) × (cli' : ClientBase ev) × (handle_read (rounds pieces fuel) cli
          ≡ message
              (some (p ++ (ev.update cli.decrypt (joined pieces ++ e) ++ pad)))
              (release cli'))
        × Received ns p (joined pieces ++ e) x rest cli cli'
  unfolding handle_read
  handle_read-IsCut fuel cli pre p m e x rest at_pieces at hp msg eq pos plain fits arr =
      let (cli', call, got) =
        resume_read-IsCut fuel cli pre p m e x rest at_pieces at hp msg eq pos plain fits arr in
      (got.pad, cli', ap handled call ∙ ap (λ b. message b (release cli')) got.buf_is, got)
