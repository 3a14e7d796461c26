-- ===== src/Io/Read/Varying.antt =====
-- The two rounds of `resume_read` of src/io/client_base.cpp on a message that ends in a varying field.
use theme_srv.Common.{
  ℕ, suc, ◌+◌, ◌*◌, ◌^◌, ◌≤◌, ◌<◌, ◌≡◌, refl, ap, subst, sym, ◌∙◌, some, List, [], ◌∷◌, ◌++◌, Bytes,
  length, length-append, arith, append_assoc, append-nil, take, drop, take-append-drop, length-take,
  length-drop,
}
use theme_srv.Protocol.NetStruct.{NetField, NetStruct, total_sz}
use theme_srv.Protocol.Message.{Counted, IsFixedRun, IsFixedRun-append, Announces}
use theme_srv.Io.Cipher.{Cipher, IsStream}
use theme_srv.Io.Socket.{Socket, Arrival, segment}
use theme_srv.Io.ClientBase.{ClientBase}
use theme_srv.Io.Read.{finished, resume_read}
use theme_srv.Io.Read.Buffer.{room, leftover}
use theme_srv.Io.Read.Passes.{IsAt, Received}
use theme_srv.Io.Read.Counted.{pass-counted}
use theme_srv.Io.Read.Announced.{pass-Announced}

pub append_cut :
    (a b m₁ m₂ : Bytes) → a ++ b ≡ m₁ ++ m₂ → length a ≡ length m₁ → (a ≡ m₁) × (b ≡ m₂)
append_cut [] b [] m₂ e h = (refl, e)
append_cut [] b (y ∷ ys) m₂ e h = absurd (omega arith)
append_cut (x ∷ xs) b [] m₂ e h = absurd (omega arith)
append_cut (x ∷ xs) b (y ∷ ys) m₂ e h =
    let tails : xs ++ b ≡ ys ++ m₂ = ground arith in
    let heads : x ≡ y = ground arith in
    let (t, u) = append_cut xs b ys m₂ tails (omega arith) in (cc, u)

pub leftover-append :
    (e x : Bytes) (rest : List Arrival)
    → 0 < length e
    → leftover (e ++ x) rest ≡ segment (e ++ x) ∷ rest
leftover-append [] x rest h = absurd (omega arith)
leftover-append (y ∷ ys) x rest h = refl

snoc_view :
    (xs : List NetField) (x : NetField)
    → (f : NetField) × (run : List NetField) × (f ∷ run ≡ xs ++ x ∷ [])
snoc_view [] x = (x, [], refl)
snoc_view (y ∷ ys) x = (y, ys ++ x ∷ [], refl)

with_arrivals :
    (s t : Socket) (x : Bytes) (rest : List Arrival) {more : List Arrival}
    → s ≡ record t { arrivals = more }
    → record s { arrivals = leftover x rest } ≡ record t { arrivals = leftover x rest }
with_arrivals s t x rest h = rw h

-- The client behind a part of a message: its reader has moved on, the rest is as it was.
pub record Follows {ev : Cipher} (e : Bytes) (rest : List Arrival) (cli cli' : ClientBase ev)
    : Type 0 where
  pub decrypt_is : cli'.decrypt ≡ ev.advance cli.decrypt e
  pub socket_is : cli'.socket ≡ record (cli.socket) { arrivals = rest }
  pub writes_are : cli'.writes ≡ cli.writes
  pub encrypt_is : cli'.encrypt ≡ cli.encrypt

module _ {ev : Cipher} where
  -- `resume_read` ends with the message, in two rounds at most.
  abbrev pub Completes :
      NetStruct → ClientBase ev → Bytes → Bytes → Bytes → List Arrival → ℕ → Type 0
  Completes ns cli p e x rest fuel =
      (cli' : ClientBase ev) × (resume_read (suc (suc fuel)) cli ≡ finished cli')
      × Received ns p e x rest cli cli'

module _ {ev : Cipher} (law : IsStream ev) (ns : NetStruct)
    (small : total_sz ns.fields < 2 ^ 32) where
  -- The message in two parts.
  pub Received-append :
      (p e₁ e₂ x : Bytes) (rest later : List Arrival) (cli mid last : ClientBase ev)
      → Follows e₁ later cli mid
      → Received ns (p ++ ev.update cli.decrypt e₁) e₂ x rest mid last
      → Received ns p (e₁ ++ e₂) x rest cli last
  Received-append p e₁ e₂ x rest later cli mid last one two =
      let next : ev.update mid.decrypt e₂ ≡ ev.update (ev.advance cli.decrypt e₁) e₂ =
        ap (λ c. ev.update c e₂) one.decrypt_is in
      let whole : ev.update cli.decrypt (e₁ ++ e₂)
          ≡ ev.update cli.decrypt e₁ ++ ev.update mid.decrypt e₂ =
        law.update-append cli.decrypt e₁ e₂ ∙ ap (◌++◌ (ev.update cli.decrypt e₁)) (sym next) in
      record {
        pad = two.pad;
        buf_is = two.buf_is ∙ ap some (rw whole (simp append_assoc));
        room_is = two.room_is;
        bufsz_is =
            two.bufsz_is
            ∙ omega (
              arith,
              length-append p (ev.update cli.decrypt e₁),
              length-append e₁ e₂,
              law.length-update cli.decrypt e₁,
            );
        decrypt_is =
            two.decrypt_is
            ∙ ap (λ c. ev.advance c e₂) one.decrypt_is
            ∙ sym (law.advance-append cli.decrypt e₁ e₂);
        socket_is = two.socket_is ∙ with_arrivals mid.socket cli.socket x rest one.socket_is;
        writes_are = two.writes_are ∙ one.writes_are;
        encrypt_is = two.encrypt_is ∙ one.encrypt_is;
      }

  -- The rounds for a varying field, the bytes of which are `e₂`.
  complete_counted :
      (fuel : ℕ) (cli : ClientBase ev) (pre run gs : List NetField) (s v f : NetField)
      (p c b e₁ e₂ x : Bytes) (n : ℕ) (rest : List Arrival)
      → IsAt ns (length pre) p cli
      → IsFixedRun pre p
      → IsFixedRun run c
      → Announces s v b n
      → f ∷ gs ≡ run ++ s ∷ []
      → ns.fields ≡ pre ++ (run ++ s ∷ v ∷ [])
      → ev.update cli.decrypt e₁ ≡ c ++ b
      → length e₂ ≡ v.elementsz * n
      → length p + length e₁ + length e₂ ≤ room ns
      → cli.socket.arrivals ≡ segment (e₁ ++ (e₂ ++ x)) ∷ rest
      → Completes ns cli p (e₁ ++ e₂) x rest fuel
  unfolding resume_read
  complete_counted fuel cli pre run gs s v f p c b e₁ [] x n rest at hp hc a eqf eq plain len fits
        arr =
      let an =
        pass-Announced law ns small cli pre run s v f gs p c b e₁ x n rest at hp hc a eqf eq plain
          (omega arith) arr in
      let call = an.ends (sym len) in
      let got = an.received in
      let last : ClientBase ev = record (an.next) {
        reading = record (an.next.reading) { field = suc (length (pre ++ run)) + 1 };
      } in
      (
        last,
        rw call,
        rw (append-nil e₁) (record {
          pad = got.pad;
          buf_is = got.buf_is;
          bufsz_is = got.bufsz_is;
          room_is = got.room_is;
          decrypt_is = got.decrypt_is;
          socket_is = got.socket_is;
          writes_are = got.writes_are;
          encrypt_is = got.encrypt_is;
        }),
      )
  complete_counted fuel cli pre run gs s v f p c b e₁ (y ∷ ys) x n rest at hp hc a eqf eq plain len
        fits arr =
      let an =
        pass-Announced law ns small cli pre run s v f gs p c b e₁ ((y ∷ ys) ++ x) n rest at hp hc a
          eqf eq plain (omega arith) arr in
      let call = an.goes_on (omega arith) in
      let got = an.received in
      let q : p ++ ev.update cli.decrypt e₁ ≡ (p ++ c) ++ b =
        ap (◌++◌ p) plain ∙ sym (append_assoc p c b) in
      let here : an.next.socket.arrivals ≡ segment ((y ∷ ys) ++ x) ∷ rest =
        ap (λ k. k.arrivals) got.socket_is in
      let fields : ns.fields ≡ (pre ++ run) ++ s ∷ v ∷ [] = eq ∙ sym (append_assoc pre run _) in
      let at' : IsAt ns (suc (length (pre ++ run))) ((p ++ c) ++ b) an.next = rw q at an.is_at in
      let wide : length ((p ++ c) ++ b) ≡ length p + length e₁ = omega (
        arith,
        ap length q,
        length-append p (ev.update cli.decrypt e₁),
        law.length-update cli.decrypt e₁,
      ) in
      let (last, call', got') =
        pass-counted law ns small an.next (pre ++ run) s v (p ++ c) b (y ∷ ys) x n rest at'
          (IsFixedRun-append hp hc) a fields (omega arith) len (omega arith) here in
      (
        last,
        rw (call, call'),
        Received-append p e₁ (y ∷ ys) x rest (leftover (y ∷ ys ++ x) rest) cli an.next last
            (record {
              decrypt_is = got.decrypt_is;
              socket_is = got.socket_is;
              writes_are = got.writes_are;
              encrypt_is = got.encrypt_is;
            })
            (subst (λ t. Received ns t (y ∷ ys) x rest an.next last) (sym q) got'),
      )

  pub complete_varying :
      (fuel : ℕ) (cli : ClientBase ev) (pre fs : List NetField) (p m e x : Bytes)
      (rest : List Arrival)
      → IsAt ns (length pre) p cli
      → IsFixedRun pre p
      → Counted fs m
      → ns.fields ≡ pre ++ fs
      → ev.update cli.decrypt e ≡ m
      → length p + length m ≤ room ns
      → cli.socket.arrivals ≡ segment (e ++ x) ∷ rest
      → Completes ns cli p e x rest fuel
  complete_varying fuel cli pre fs p m e x rest at hp c eq plain fits arr =
      let front = c.run_bytes ++ c.size_bytes in
      let k = length front in
      let e₁ = take k e in
      let e₂ = drop k e in
      let whole : e₁ ++ e₂ ≡ e = take-append-drop k e in
      let parts : m ≡ front ++ c.var_bytes =
        c.message_is ∙ sym (append_assoc c.run_bytes c.size_bytes c.var_bytes) in
      let count : length m ≡ k + length c.var_bytes =
        ap length parts ∙ length-append front c.var_bytes in
      let same : length e ≡ length m = sym (law.length-update cli.decrypt e) ∙ ap length plain in
      let len₁ = length-take k e in
      let len₂ = length-drop k e in
      let cut : ev.update cli.decrypt e₁ ++ ev.update (ev.advance cli.decrypt e₁) e₂
          ≡ front ++ c.var_bytes =
        sym (law.update-append cli.decrypt e₁ e₂)
        ∙ ap (ev.update cli.decrypt) whole
        ∙ plain
        ∙ parts in
      let (plain₁, plain₂) =
        append_cut (ev.update cli.decrypt e₁) (ev.update (ev.advance cli.decrypt e₁) e₂) front
          c.var_bytes cut (omega (arith, law.length-update cli.decrypt e₁)) in
      let (f, gs, eqf) = snoc_view c.run c.size_field in
      let there : cli.socket.arrivals ≡ segment (e₁ ++ (e₂ ++ x)) ∷ rest =
        arr ∙ ap (λ z. segment z ∷ rest) (ap (λ z. z ++ x) (sym whole) ∙ append_assoc e₁ e₂ x) in
      rw whole at (
        complete_counted fuel cli pre c.run gs c.size_field c.var_field f p c.run_bytes c.size_bytes
          e₁ e₂ x c.number rest at hp c.is_run c.announces eqf (eq ∙ ap (◌++◌ pre) c.fields_are)
          plain₁ (omega (arith, c.length_is)) (omega arith) there)
