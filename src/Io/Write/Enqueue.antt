-- ===== src/Io/Write/Enqueue.antt =====
-- `enqueue_write` of src/io/client_base.cpp and the stream of what is sent.
use theme_srv.Common.{
  drop, ◌+◌, ◌^◌, ◌<◌, ◌≡◌, refl, ap, sym, ◌∙◌, inl, inr, true, some, List, [], ◌∷◌, ◌++◌, Bytes,
  length, replicate, arith, append_assoc, append-nil, Bool-cases, >>=-eq-some,
}
use theme_srv.Protocol.NetStruct.{NetStruct, size}
use theme_srv.Protocol.Message.{IsMessage}
use theme_srv.Io.Cipher.{Cipher, IsStream}
use theme_srv.Io.Socket.{Socket, write-arrivals}
use theme_srv.Io.ClientBase.{WriteState, ClientBase, alloc_sz}
use theme_srv.Io.Write.{send_or_queue, wire_size, encrypt_fields, resume_write, enqueue_write}
use theme_srv.Io.Write.Image.{wire_size-IsMessage, encrypt_fields-IsMessage}
use theme_srv.Io.Write.Stream.{
  IsSending, AreSending, left, unsent, stream, Moves, resume_write-Moves, unsent-append,
  AreSending-append,
}

queue_behind :
    (sent : Bytes) (sts : List WriteState) (st : WriteState)
    → sent ++ unsent (sts ++ st ∷ []) ≡ (sent ++ unsent sts) ++ left st
queue_behind sent sts st =
    rw (unsent-append sts (st ∷ []), append-nil (left st)) (sym (append_assoc sent _ _))

module _ {ev : Cipher} where
  -- A new buffer goes behind the stream, sent at once or queued.
  send_or_queue-stream :
      (cli : ClientBase ev) (st : WriteState) (sts : List WriteState)
      → cli.writes ≡ sts
      → AreSending sts
      → IsSending st
      → (stream (send_or_queue cli st) ≡ stream cli ++ left st)
        × AreSending (send_or_queue cli st).writes
  unfolding send_or_queue
  send_or_queue-stream cli st [] e v w = elim (Bool-cases (resume_write st cli.socket).complete) [
    | inl done ↦ rw (e, done) (simp append-nil (m.completes done), tt)
    | inr more ↦ rw (e, more) (simp append-nil m.conserves, (m.is_sending, tt))
  ]
    where
      m : Moves st cli.socket (resume_write st cli.socket)
      m = resume_write-Moves st cli.socket w
  send_or_queue-stream cli st (x ∷ sts) e v w =
      rw e
        (queue_behind cli.socket.sent (x ∷ sts) st, AreSending-append (x ∷ sts) (st ∷ []) v (w, tt))

  send_or_queue-encrypt :
      (cli : ClientBase ev) (st : WriteState) → (send_or_queue cli st).encrypt ≡ cli.encrypt
  unfolding send_or_queue
  send_or_queue-encrypt cli st = ground arith

  -- Suppose that a cipher works byte by byte and that the buffers that wait are sound.
  -- `enqueue_write` of a message of less than 2^31 bytes that the wire format allows, whatever
  -- stands behind it in memory, succeeds: what has been sent and what waits, taken as one
  -- stream, is extended by exactly the encrypted message, the cipher has moved on by it, and the
  -- buffers are sound.
  pub enqueue_write-stream :
      IsStream ev
      → (cli : ClientBase ev) (ns : NetStruct) (m rest : Bytes) → IsMessage ns.fields m
      → length m < 2 ^ 31
      → AreSending cli.writes
      → (cli' : ClientBase ev) × (enqueue_write cli ns (m ++ rest) ≡ some cli')
        × (stream cli' ≡ stream cli ++ ev.update cli.encrypt m)
        × (cli'.encrypt ≡ ev.advance cli.encrypt m)
        × AreSending cli'.writes
  unfolding enqueue_write alloc_sz
  enqueue_write-stream law cli ns m rest msg h v =
      let size_call =
        wire_size-IsMessage ns rest [] ns.fields [] m (m ++ rest) 0 0 msg refl refl refl refl
          (omega arith)
        ∙ ap some (let z : 0 + length m ≡ length m = omega arith in z) in
      let call =
        encrypt_fields-IsMessage law ns rest [] ns.fields [] m (m ++ rest) 0 0
          (replicate (length m) 0) [] cli.encrypt msg refl refl refl refl refl refl h in
      let st : WriteState = record {
        bufoffs = 0;
        bufsz = length m;
        buf = ev.update cli.encrypt m;
      } in
      let cli_new : ClientBase ev = record cli { encrypt = ev.advance cli.encrypt m } in
      let behind = send_or_queue-stream cli_new st cli.writes refl v (record {
        size_is = sym (law.length-update cli.encrypt m);
        within = omega arith;
        small = omega arith;
      }) in
      (
        send_or_queue cli_new st,
        rw (size_call, call),
        behind.0,
        send_or_queue-encrypt cli_new st,
        behind.1,
      )

resume_write-arrivals :
    (st : WriteState) (sock : Socket) → (resume_write st sock).socket.arrivals ≡ sock.arrivals
unfolding resume_write
resume_write-arrivals st sock = ground (arith, write-arrivals sock (drop st.bufoffs st.buf))

module _ {ev : Cipher} where
  send_or_queue-reading :
      (cli : ClientBase ev) (st : WriteState) → (send_or_queue cli st).reading ≡ cli.reading
  unfolding send_or_queue
  send_or_queue-reading cli st = ground arith

  -- A write leaves the reader alone.
  pub enqueue_write-reading :
      (cli cli' : ClientBase ev) (ns : NetStruct) (buf : Bytes)
      → enqueue_write cli ns buf ≡ some cli'
      → cli'.reading ≡ cli.reading
  unfolding enqueue_write
  enqueue_write-reading cli cli' ns buf h =
      let (wiresz, e, h₁) = >>=-eq-some (wire_size ns buf (size ns) 0 0) _ h in
      let (out, e', h₂) =
        >>=-eq-some
          (encrypt_fields ev ns buf (size ns) 0 0 0 (replicate (alloc_sz wiresz true) 0)
            cli.encrypt)
          _ h₁ in
      cc (
        h₂,
        send_or_queue-reading (record cli { encrypt = out.1 })
            (record { bufoffs = 0; bufsz = alloc_sz wiresz true; buf = out.0 }),
      )

  send_or_queue-arrivals :
      (cli : ClientBase ev) (st : WriteState)
      → (send_or_queue cli st).socket.arrivals ≡ cli.socket.arrivals
  unfolding send_or_queue
  send_or_queue-arrivals cli st = ground (arith, resume_write-arrivals st cli.socket)

  send_or_queue-decrypt :
      (cli : ClientBase ev) (st : WriteState) → (send_or_queue cli st).decrypt ≡ cli.decrypt
  unfolding send_or_queue
  send_or_queue-decrypt cli st = ground arith

  -- What a write leaves alone: all that concerns reading.
  pub record Leaves (cli cli' : ClientBase ev) : Type 0 where
    pub reading_is : cli'.reading ≡ cli.reading
    pub decrypt_is : cli'.decrypt ≡ cli.decrypt
    pub arrivals_are : cli'.socket.arrivals ≡ cli.socket.arrivals

  pub enqueue_write-Leaves :
      (cli cli' : ClientBase ev) (ns : NetStruct) (buf : Bytes)
      → enqueue_write cli ns buf ≡ some cli'
      → Leaves cli cli'
  unfolding enqueue_write
  enqueue_write-Leaves cli cli' ns buf h =
      let (wiresz, e, h₁) = >>=-eq-some (wire_size ns buf (size ns) 0 0) _ h in
      let (out, e', h₂) =
        >>=-eq-some
          (encrypt_fields ev ns buf (size ns) 0 0 0 (replicate (alloc_sz wiresz true) 0)
            cli.encrypt)
          _ h₁ in
      let st : WriteState = record { bufoffs = 0; bufsz = alloc_sz wiresz true; buf = out.0 } in
      let cli₁ : ClientBase ev = record cli { encrypt = out.1 } in
      record {
        reading_is = enqueue_write-reading cli cli' ns buf h;
        decrypt_is = cc (h₂, send_or_queue-decrypt cli₁ st);
        arrivals_are = cc (h₂, send_or_queue-arrivals cli₁ st);
      }
