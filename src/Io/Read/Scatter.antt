-- ===== src/Io/Read/Scatter.antt =====
-- The third loop of `resume_read` over whole fixed fields, at the start of a field: the bytes
-- are decrypted to their places in the message.
use theme_srv.Common.{
  ℕ, suc, ◌+◌, ◌-◌, ◌^◌, ◌<◌, ◌≡◌, ap, sym, ◌∙◌, Bool, true, Option, some, List, [], ◌∷◌, ◌++◌,
  Bytes, length, length-append, take, drop, take-append-drop, length-take, length-drop, arith,
  append_assoc, append-nil, read_at-append, write_at-append, min, ◌==◌, if◌then◌else◌, ◌>>◌,
  assertd,
}
use theme_srv.Protocol.NetStruct.{NetField, NetStruct, is_fixed, field_sz, size}
use theme_srv.Protocol.Message.{IsFixedRun, nil, cons}
use theme_srv.Io.Cipher.{Cipher, IsStream}
use theme_srv.Io.Fields.Wire.{calc_field_sz_fixed}
use theme_srv.Io.Read.{Cursor, scatter}

-- The start of a field.
module _ {ev : Cipher} where
  abbrev pub at_field : ℕ → Bytes → ev.Ctx → Cursor ev
  at_field i buf ctx = record { field = i; offset = 0; buf = buf; ctx = ctx }

-- What the loop does behind whole fields, with the fields `more` to come.
abbrev pub onwards :
    (ev : Cipher)
    → NetStruct
    → List NetField
    → Bytes
    → ℕ
    → ℕ
    → ℕ
    → Cursor ev
    → Option (Bool × Cursor ev)
onwards ev ns [] chunk mempos wirepos nread cur = assertd (nread == 0) >> some (true, cur)
onwards ev ns (f ∷ fs) chunk mempos wirepos nread cur =
    scatter ev ns chunk (length (f ∷ fs)) mempos wirepos nread cur

module _ {ev : Cipher} (law : IsStream ev) (ns : NetStruct) where
  split-update :
      (k : ℕ) (e : Bytes) (ctx : ev.Ctx)
      → ev.update ctx e
        ≡ ev.update ctx (take k e) ++ ev.update (ev.advance ctx (take k e)) (drop k e)
  split-update k e ctx =
      ap (ev.update ctx) (sym (take-append-drop k e)) ∙ law.update-append ctx (take k e) (drop k e)

  split-advance :
      (k : ℕ) (e : Bytes) (ctx : ev.Ctx)
      → ev.advance ctx e ≡ ev.advance (ev.advance ctx (take k e)) (drop k e)
  split-advance k e ctx =
      ap (ev.advance ctx) (sym (take-append-drop k e))
      ∙ law.advance-append ctx (take k e) (drop k e)

  -- One round, on a field all of whose bytes `e` are at hand.
  scatter_field :
      (pre : List NetField) (f : NetField) (fs : List NetField) (d e e' p z y buf : Bytes)
      (left i nread : ℕ) (ctx : ev.Ctx)
      → ns.fields ≡ pre ++ f ∷ fs
      → is_fixed f.type ≡ true
      → field_sz f < 2 ^ 32
      → length e ≡ field_sz f
      → length z ≡ field_sz f
      → i ≡ length pre
      → nread ≡ length e + length e'
      → buf ≡ p ++ (z ++ y)
      → scatter ev ns (d ++ (e ++ e')) (suc left) (length p) (length d) nread (at_field i buf ctx)
        ≡ (if i + 1 == size ns
            then assertd (nread - length e == 0)
              >> some (true, at_field (i + 1) (p ++ (ev.update ctx e ++ y)) (ev.advance ctx e))
            else scatter ev ns
                (d ++ (e ++ e'))
                left
                (length p + length e)
                (length d + length e)
                (nread - length e)
                (at_field (i + 1) (p ++ (ev.update ctx e ++ y)) (ev.advance ctx e)))
  unfolding scatter
  scatter_field pre f fs d e e' p z y buf left i nread ctx eq fx small le lz ei en eb =
      let call = calc_field_sz_fixed ns pre f fs (some (buf, length p)) eq fx small in
      let got = read_at-append d e e' in
      let same = law.length-update ctx e in
      let put = write_at-append p z y (ev.update ctx e) (omega arith) in
      let least : min (field_sz f) nread ≡ length e = omega arith in
      ground (arith, call, got, same, put, least)

  scatter_field-onwards :
      (pre : List NetField) (f : NetField) (fs : List NetField) (d e e' p z y buf : Bytes)
      (i nread : ℕ) (ctx : ev.Ctx)
      → ns.fields ≡ pre ++ f ∷ fs
      → is_fixed f.type ≡ true
      → field_sz f < 2 ^ 32
      → length e ≡ field_sz f
      → length z ≡ field_sz f
      → i ≡ length pre
      → nread ≡ length e + length e'
      → buf ≡ p ++ (z ++ y)
      → scatter ev ns
          (d ++ (e ++ e'))
          (suc (length fs))
          (length p)
          (length d)
          nread
          (at_field i buf ctx)
        ≡ onwards ev ns fs
            (d ++ (e ++ e'))
            (length p + length e)
            (length d + length e)
            (nread - length e)
            (at_field (i + 1) (p ++ (ev.update ctx e ++ y)) (ev.advance ctx e))
  scatter_field-onwards pre f [] d e e' p z y buf i nread ctx eq fx small le lz ei en eb =
      let call = scatter_field pre f [] d e e' p z y buf 0 i nread ctx eq fx small le lz ei en eb in
      let last : i + 1 ≡ size ns = omega (arith, ap length eq, length-append pre (f ∷ [])) in
      ground (arith, call)
  scatter_field-onwards pre f (g ∷ gs) d e e' p z y buf i nread ctx eq fx small le lz ei en eb =
      let call =
        scatter_field pre f (g ∷ gs) d e e' p z y buf (suc (length gs)) i nread ctx eq fx small le
          lz ei en eb in
      let inner : i + 1 < size ns = omega (arith, ap length eq, length-append pre (f ∷ g ∷ gs)) in
      ground (arith, call)

  -- A row of whole fields, all of whose bytes `e` are at hand, over the old bytes `z`.
  pub scatter-run :
      (f : NetField) (run more pre : List NetField) (r d e e' p z y : Bytes)
      {chunk buf buf' : Bytes} {mempos mempos' wirepos wirepos' i i' nread nread' : ℕ}
      {ctx ctx' : ev.Ctx}
      → IsFixedRun (f ∷ run) r
      → ns.fields ≡ pre ++ (f ∷ run ++ more)
      → length e ≡ length r
      → length z ≡ length r
      → i ≡ length pre
      → chunk ≡ d ++ (e ++ e')
      → mempos ≡ length p
      → wirepos ≡ length d
      → nread ≡ length e + length e'
      → buf ≡ p ++ (z ++ y)
      → mempos' ≡ mempos + length e
      → wirepos' ≡ wirepos + length e
      → i' ≡ i + length (f ∷ run)
      → nread' ≡ length e'
      → buf' ≡ p ++ (ev.update ctx e ++ y)
      → ctx' ≡ ev.advance ctx e
      → scatter ev ns chunk (length (f ∷ run ++ more)) mempos wirepos nread (at_field i buf ctx)
        ≡ onwards ev ns more chunk mempos' wirepos' nread' (at_field i' buf' ctx')
  scatter-run f run more pre r d e e' p z y {chunk} {buf} {buf'} {mempos} {mempos'} {wirepos}
        {wirepos'} {i} {i'} {nread} {nread'} {ctx} {ctx'} (cons b {bs} fx small len nil) eq le lz ei
        ec em ew en eb em' ew' ei' en' eb' ex' =
      let whole : length (b ++ []) ≡ length b = ap length (append-nil b) in
      let step =
        scatter_field-onwards pre f more d e e' p z y buf i nread ctx eq fx small (omega arith)
          (omega arith) ei en eb in
      let at_mem : mempos' ≡ length p + length e = omega arith in
      let at_wire : wirepos' ≡ length d + length e = omega arith in
      let at_end : nread' ≡ nread - length e = omega arith in
      let at_i : i' ≡ i + 1 = omega arith in
      rw (ec, em, ew, at_mem, at_wire, at_end, at_i, eb', ex') step
  scatter-run f run more pre r d e e' p z y {chunk} {buf} {buf'} {mempos} {mempos'} {wirepos}
        {wirepos'} {i} {i'} {nread} {nread'} {ctx} {ctx'}
        (cons b {bs} fx small len (cons {f = g} {fs = gs} b' {bs = cs} fx' small' len' later)) eq le
        lz ei ec em ew en eb em' ew' ei' en' eb' ex' =
      let k = length b in
      let sum = length-append b bs in
      let parts = take-append-drop k e in
      let zparts = take-append-drop k z in
      let le₁ = length-take k e in
      let lz₁ = length-take k z in
      let le₂ = length-drop k e in
      let lz₂ = length-drop k z in
      let ec₂ : chunk ≡ d ++ (take k e ++ (drop k e ++ e')) =
        rw (← append_assoc (take k e) (drop k e) e', parts) ec in
      let eb₂ : buf ≡ p ++ (take k z ++ (drop k z ++ y)) =
        rw (← append_assoc (take k z) (drop k z) y, zparts) eb in
      let step =
        scatter_field-onwards pre f (g ∷ gs ++ more) d (take k e) (drop k e ++ e') p (take k z)
          (drop k z ++ y) buf i nread ctx eq fx small (omega arith) (omega arith) ei
          (omega (arith, length-append (drop k e) e')) eb₂ in
      let next =
        scatter-run g gs more (pre ++ f ∷ []) (b' ++ cs) (d ++ take k e) (drop k e) e'
          (p ++ ev.update ctx (take k e)) (drop k z) y {chunk = d ++ (take k e ++ (drop k e ++ e'))}
          {buf = p ++ (ev.update ctx (take k e) ++ (drop k z ++ y))} {buf' = buf'}
          {mempos = length p + length (take k e)} {mempos' = mempos'}
          {wirepos = length d + length (take k e)} {wirepos' = wirepos'} {i = i + 1} {i' = i'}
          {nread = nread - length (take k e)} {nread' = nread'} {ctx = ev.advance ctx (take k e)}
          {ctx' = ctx'} (cons b' fx' small' len' later) (eq ∙ sym (append_assoc pre (f ∷ []) _))
          (omega arith) (omega arith) (omega (arith, length-append pre (f ∷ [])))
          (sym (append_assoc d (take k e) _))
          (omega
            (arith, length-append p (ev.update ctx (take k e)), law.length-update ctx (take k e)))
          (omega (arith, length-append d (take k e))) (omega arith) (sym (append_assoc p _ _))
          (omega arith) (omega arith) (omega arith) en'
          (eb' ∙ ap (λ u. p ++ (u ++ y)) (split-update k e ctx) ∙ simp append_assoc)
          (ex' ∙ split-advance k e ctx) in
      rw (ec₂, em, ew, step) next
