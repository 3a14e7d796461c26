-- ===== src/Io/Write/Stream.antt =====
-- src/io/client_base.cpp: what a client has sent and what waits, taken as one stream of bytes.
use theme_srv.Common.{
  ℕ, zero, suc, ◌+◌, ◌^◌, ◌≤◌, ◌<◌, ◌≡◌, refl, ap, sym, ◌∙◌, inl, inr, true, some, List, [], ◌∷◌,
  ◌++◌, Bytes, length, take, drop, take-append-drop, length-drop, length-take, drop-drop, add64,
  arith, append_assoc, append-nil, Bool-cases,
}
use theme_srv.Io.Cipher.{Cipher}
use theme_srv.Io.Socket.{Socket, IoResult, Wrote, write-Wrote}
use theme_srv.Io.ClientBase.{WriteState, ClientBase}
use theme_srv.Io.Write.{
  Resumed, after_write, resume_write, write_front, handle_write, pump_write_fuel, pump_write,
}

pub record IsSending (st : WriteState) : Type 0 where
  pub size_is : st.bufsz ≡ length st.buf
  pub within : st.bufoffs ≤ st.bufsz
  pub small : st.bufsz < 2 ^ 64

abbrev pub AreSending : List WriteState → Type 0
AreSending [] = Unit {0}
AreSending (st ∷ sts) = IsSending st × AreSending sts

abbrev pub left : WriteState → Bytes
left st = drop st.bufoffs st.buf

-- What waits to be sent, in order.
abbrev pub unsent : List WriteState → Bytes
unsent [] = []
unsent (st ∷ sts) = left st ++ unsent sts

drop-all {ℓ} : {A : Type ℓ} (n : ℕ) (xs : List A) → length xs ≤ n → drop n xs ≡ []
drop-all zero [] h = refl
drop-all zero (x ∷ xs) h = absurd (omega arith)
drop-all (suc n) [] h = refl
drop-all (suc n) (x ∷ xs) h = drop-all n xs (omega arith)

-- A call of `resume_write` moves bytes from the front of what is left to what is sent.
pub record Moves (st : WriteState) (sock : Socket) (r : Resumed) : Type 0 where
  pub is_sending : IsSending r.state
  pub conserves : r.socket.sent ++ left r.state ≡ sock.sent ++ left st
  pub completes : r.complete ≡ true → r.socket.sent ≡ sock.sent ++ left st

drop-take {ℓ} : {A : Type ℓ} (n : ℕ) (xs : List A) → drop (length (take n xs)) xs ≡ drop n xs
drop-take zero xs = refl
drop-take (suc n) [] = refl
drop-take (suc n) (x ∷ xs) = drop-take n xs

-- Behind `n` bytes of what is left the rest is left.
left_after :
    (st : WriteState) (n : ℕ)
    → drop (st.bufoffs + length (take n (left st))) st.buf ≡ drop n (left st)
left_after st n = sym (drop-drop st.bufoffs _ st.buf) ∙ drop-take n (left st)

module _ (st : WriteState) (sock : Socket) (v : IsSending st) where
  -- Where a write of `n` bytes at most leaves the offset.
  new_offset :
      (n amount : ℕ)
      → amount ≡ length (take n (left st))
      → (add64 st.bufoffs amount ≡ st.bufoffs + length (take n (left st)))
        × (add64 st.bufoffs amount ≤ st.bufsz)
  new_offset n amount e =
      let fits = length-take n (left st) in
      let room = length-drop st.bufoffs st.buf in
      (omega (arith, v.size_is, v.within, v.small), omega (arith, v.size_is, v.within, v.small))

  after_write-Moves :
      (r : IoResult) (sock' : Socket)
      → Wrote sock (left st) r sock'
      → Moves st sock (after_write st r sock')
  unfolding after_write
  after_write-Moves r sock' w = elim (Bool-cases r.success) [
    | inl done ↦
        let moved = new_offset w.count r.amount (w.amount_is done) in
        let rest = ap (λ k. drop k st.buf) moved.0 ∙ left_after st w.count in
        let parts = take-append-drop w.count (left st) in
        let kept : sock'.sent ++ drop (add64 st.bufoffs r.amount) st.buf ≡ sock.sent ++ left st =
          rw (rest, w.sent_is, append_assoc sock.sent, parts) refl in
        rw done (record {
          is_sending = record { size_is = v.size_is; within = moved.1; small = v.small };
          conserves = kept;
          completes = λ full.
              let all = drop-all (add64 st.bufoffs r.amount) st.buf (ground (arith, v.size_is)) in
              sym (append-nil sock'.sent) ∙ ap (◌++◌ sock'.sent) (sym all) ∙ kept;
        })
    | inr undone ↦
        let same = w.untouched undone in
        rw undone (record { is_sending = v; conserves = ground (arith, same); completes = λ h. cc })
  ]

  pub resume_write-Moves : Moves st sock (resume_write st sock)
  unfolding resume_write
  resume_write-Moves = after_write-Moves _ _ (write-Wrote sock (left st))

pub unsent-append : (xs ys : List WriteState) → unsent (xs ++ ys) ≡ unsent xs ++ unsent ys
unsent-append [] ys = refl
unsent-append (x ∷ xs) ys = rw (unsent-append xs ys) (sym (append_assoc (left x) _ _))

pub AreSending-append :
    (xs ys : List WriteState) → AreSending xs → AreSending ys → AreSending (xs ++ ys)
AreSending-append [] ys h k = k
AreSending-append (x ∷ xs) ys h k = (h.0, AreSending-append xs ys h.1 k)

module _ {ev : Cipher} where
  -- All that the client has sent and has still to send.
  abbrev pub stream : ClientBase ev → Bytes
  stream cli = cli.socket.sent ++ unsent cli.writes

  -- A writable socket moves bytes of the stream from what waits to what is sent.
  pub record Keeps (cli cli' : ClientBase ev) : Type 0 where
    pub stream_is : stream cli' ≡ stream cli
    pub are_sending : AreSending cli'.writes

  write_front-Keeps :
      (cli : ClientBase ev) (sts : List WriteState)
      → cli.writes ≡ sts
      → AreSending sts
      → Keeps cli (write_front cli sts).1
  unfolding write_front
  write_front-Keeps cli [] e v = record { stream_is = refl; are_sending = rw e tt }
  write_front-Keeps cli (st ∷ rest) e v = elim (Bool-cases (resume_write st cli.socket).complete) [
    | inl done ↦ rw done (record {
      stream_is = ap (λ k. k ++ unsent rest) (m.completes done) ∙ regroup;
      are_sending = v.1;
    })
    | inr more ↦ rw more (record {
      stream_is =
          sym (append_assoc _ _ (unsent rest)) ∙ ap (λ k. k ++ unsent rest) m.conserves ∙ regroup;
      are_sending = (m.is_sending, v.1);
    })
  ]
    where
      m : Moves st cli.socket (resume_write st cli.socket)
      m = resume_write-Moves st cli.socket v.0

      regroup : (cli.socket.sent ++ left st) ++ unsent rest ≡ stream cli
      regroup =
          append_assoc cli.socket.sent (left st) (unsent rest)
          ∙ sym (ap (λ k. cli.socket.sent ++ unsent k) e)

  -- If the buffers that wait are sound, `handle_write` keeps what has been sent and what waits,
  -- taken as one stream, whatever the kernel takes of it, and the buffers are sound.
  pub handle_write-Keeps :
      (cli : ClientBase ev) → AreSending cli.writes → Keeps cli (handle_write cli).1
  unfolding handle_write
  handle_write-Keeps cli v = write_front-Keeps cli cli.writes refl v

  write_front_shorter :
      (cli : ClientBase ev) (sts : List WriteState)
      → (write_front cli sts).0 ≡ true
      → length sts ≡ suc (length (write_front cli sts).1.writes)
  unfolding write_front
  write_front_shorter cli [] h = cc
  write_front_shorter cli (st ∷ rest) h = ground arith

  -- It reports progress only where it has taken a message off the queue.
  handle_write_shorter :
      (cli : ClientBase ev)
      → (handle_write cli).0 ≡ true
      → length cli.writes ≡ suc (length (handle_write cli).1.writes)
  unfolding handle_write
  handle_write_shorter cli h = write_front_shorter cli cli.writes h

  pump_write_fuel-Keeps :
      (fuel : ℕ) (cli : ClientBase ev)
      → length cli.writes < fuel
      → AreSending cli.writes
      → (cli' : ClientBase ev) × (pump_write_fuel fuel cli ≡ some cli') × Keeps cli cli'
  unfolding pump_write_fuel
  pump_write_fuel-Keeps zero cli h v = absurd (omega arith)
  pump_write_fuel-Keeps (suc fuel) cli h v =
      let k = handle_write-Keeps cli v in
      elim (Bool-cases (handle_write cli).0) [
        | inl more ↦
            let (cli', e, k') =
              pump_write_fuel-Keeps fuel (handle_write cli).1
                (omega (arith, handle_write_shorter cli more)) k.are_sending in
            (
              cli',
              rw more e,
              record { stream_is = k'.stream_is ∙ k.stream_is; are_sending = k'.are_sending },
            )
        | inr over ↦ ((handle_write cli).1, rw over, k)
      ]

  -- If the buffers that wait are sound, the loop of `pump_write` ends within one round more than
  -- there are buffers, whatever the kernel takes; what has been sent and what waits is, as one
  -- stream, what it was, and the buffers are sound.
  pub pump_write-Keeps :
      (cli : ClientBase ev)
      → AreSending cli.writes
      → (cli' : ClientBase ev) × (pump_write cli ≡ some cli') × Keeps cli cli'
  unfolding pump_write
  pump_write-Keeps cli v = pump_write_fuel-Keeps (suc (length cli.writes)) cli (omega arith) v
