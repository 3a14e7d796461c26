-- ===== src/Io/Read/Whole.antt =====
-- `resume_read` and `handle_read` on a message that has arrived whole, in one segment.
use theme_srv.Common.{
  ℕ, suc, ◌+◌, ◌^◌, ◌≤◌, ◌<◌, ◌≡◌, ap, sym, ◌∙◌, inl, inr, some, List, [], ◌∷◌, ◌++◌, Bytes, length,
  arith,
}
use theme_srv.Protocol.NetStruct.{NetField, NetStruct, total_sz}
use theme_srv.Protocol.Message.{IsMessage, IsMessage-cases, IsFixedRun}
use theme_srv.Io.Cipher.{Cipher, IsStream}
use theme_srv.Io.Socket.{Arrival, segment}
use theme_srv.Io.ClientBase.{ClientBase}
use theme_srv.Io.Read.{message, release, resume_read, handled, handle_read}
use theme_srv.Io.Read.Buffer.{room, total_sz-run}
use theme_srv.Io.Read.Passes.{IsAt, Received}
use theme_srv.Io.Read.Passes.{pass-fixed}
use theme_srv.Io.Read.Varying.{Completes, complete_varying}

module _ {ev : Cipher} (law : IsStream ev) (ns : NetStruct)
    (small : total_sz ns.fields < 2 ^ 32) where
  -- Suppose that the client is about to read the fields `fs` of a structure of less than 4 GiB,
  -- that the fixed fields before them are in its buffer, and that the rest of the message, `e`
  -- as it is on the wire, has arrived in one segment. If the message decrypts to one that the
  -- wire format allows for `fs`, is not empty and fits the buffer, then `resume_read` returns true
  -- in two rounds at most; the decrypted message stands behind what was there, exactly its
  -- bytes have been read and have moved the cipher on, and nothing has been written.
  pub resume_read-IsMessage :
      (fuel : ℕ) (cli : ClientBase ev) (pre fs : List NetField) (p m e x : Bytes)
      (rest : List Arrival)
      → IsAt ns (length pre) p cli
      → IsFixedRun pre p
      → IsMessage fs m
      → ns.fields ≡ pre ++ fs
      → 0 < length m
      → ev.update cli.decrypt e ≡ m
      → length p + length m ≤ room ns
      → cli.socket.arrivals ≡ segment (e ++ x) ∷ rest
      → Completes ns cli p e x rest fuel
  unfolding resume_read
  resume_read-IsMessage fuel cli pre fs p m e x rest at hp msg eq pos plain fits arr =
      elim (IsMessage-cases msg) [
        | inl run ↦ all_fixed fs run eq
        | inr c ↦
            complete_varying law ns small fuel cli pre fs p m e x rest at hp c eq plain fits arr
      ]
    where
      len : length e ≡ length m
      len = sym (law.length-update cli.decrypt e) ∙ ap length plain

      all_fixed :
          (gs : List NetField)
          → IsFixedRun gs m
          → ns.fields ≡ pre ++ gs
          → Completes ns cli p e x rest fuel
      all_fixed [] run eq' = absurd (omega (arith, total_sz-run run))
      all_fixed (f ∷ gs) run eq' =
          let (cli', call, got) =
            pass-fixed law ns small cli pre f gs p m e x rest at hp run eq' pos len fits arr in
          (cli', rw call, got)

  -- The message stands in the buffer that is given to the caller.
  pub handle_read-Received :
      (fuel : ℕ) (cli : ClientBase ev) (pre fs : List NetField) (p m e x : Bytes)
      (rest : List Arrival)
      → IsAt ns (length pre) p cli
      → IsFixedRun pre p
      → IsMessage fs m
      → ns.fields ≡ pre ++ fs
      → 0 < length m
      → ev.update cli.decrypt e ≡ m
      → length p + length m ≤ room ns
      → cli.socket.arrivals ≡ segment (e ++ x) ∷ rest
      → (cli' : ClientBase ev) × (got : Received ns p e x rest cli cli') × (handle_read
            (suc (suc fuel))
            cli
          ≡ message (some (p ++ (m ++ got.pad))) (release cli'))
  unfolding handle_read
  handle_read-Received fuel cli pre fs p m e x rest at hp msg eq pos plain fits arr =
      let (cli', call, got) =
        resume_read-IsMessage fuel cli pre fs p m e x rest at hp msg eq pos plain fits arr in
      (
        cli',
        got,
        ap handled call
            ∙ ap (λ b. message b (release cli'))
                (got.buf_is ∙ ap (λ t. some (p ++ (t ++ got.pad))) plain),
      )

  -- Suppose that a cipher works byte by byte, that a client is about to read the fields `fs` of
  -- a structure of less than 4 GiB, with the bytes `p` of the fixed fields before them in its
  -- buffer, and that the rest of the message, `e` as it is on the wire, is in front of one
  -- segment that has arrived. If `e` decrypts to bytes `m`, not empty, which the wire format
  -- allows for `fs` and which fit the buffer behind `p`, then `handle_read` ends within two
  -- rounds and gives the caller `p`, then `m`, then padding, and its reader is reset; exactly
  -- `e` has been read, and the cipher has moved on by it.
  pub handle_read-IsMessage :
      (fuel : ℕ) (cli : ClientBase ev) (pre fs : List NetField) (p m e x : Bytes)
      (rest : List Arrival)
      → IsAt ns (length pre) p cli
      → IsFixedRun pre p
      → IsMessage fs m
      → ns.fields ≡ pre ++ fs
      → 0 < length m
      → ev.update cli.decrypt e ≡ m
      → length p + length m ≤ room ns
      → cli.socket.arrivals ≡ segment (e ++ x) ∷ rest
      → (pad : Bytes) × (cli' : ClientBase ev) × (handle_read (suc (suc fuel)) cli
          ≡ message (some (p ++ (m ++ pad))) (release cli'))
        × Received ns p e x rest cli cli'
  handle_read-IsMessage fuel cli pre fs p m e x rest at hp msg eq pos plain fits arr =
      let (cli', got, call) =
        handle_read-Received fuel cli pre fs p m e x rest at hp msg eq pos plain fits arr in
      (got.pad, cli', call, got)
