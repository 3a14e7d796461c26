-- ===== src/Io/Write/Image.antt =====
-- `enqueue_write` on a whole message: its two loops, and the buffer that they make.
use theme_srv.Common.{
  lt→ltb, ◌%◌, refl, ℕ, zero, suc, ◌+◌, ◌^◌, ◌<◌, ◌≡◌, ap, sym, ◌∙◌, some, List, [], ◌∷◌, ◌++◌,
  Bytes, length, length-append, replicate, length-replicate, read_at-append, write_at,
  write_at-append, add64, arith, append_assoc, append-nil, length_zero,
}
use theme_srv.Protocol.NetStruct.{NetField, NetStruct, field_sz}
use theme_srv.Protocol.Message.{IsMessage, nil, fixed, counted}
use theme_srv.Io.Cipher.{Cipher, IsStream}
use theme_srv.Io.Fields.Wire.{calc_field_sz_fixed, calc_field_sz_size, calc_field_sz_counted}
use theme_srv.Io.Write.{as_int, wire_size, encrypt_fields}

module _ (ns : NetStruct) (rest : Bytes) where
  -- `p` is the part of the message before field `i`.
  pub wire_size-IsMessage :
      (pre fs : List NetField) (p m buf : Bytes) (i w : ℕ)
      → IsMessage fs m
      → ns.fields ≡ pre ++ fs
      → buf ≡ p ++ (m ++ rest)
      → i ≡ length pre
      → w ≡ length p
      → w + length m < 2 ^ 64
      → wire_size ns buf (length fs) i w ≡ some (w + length m)
  unfolding wire_size
  wire_size-IsMessage pre fs p m buf i w nil e eb ei ew h = ground arith
  wire_size-IsMessage pre fs p m buf i w (fixed {f} {fs = gs} b {bs} fx small len later) e eb ei ew
        h =
      let sum : length (b ++ bs) ≡ length b + length bs = length-append b bs in
      let call = calc_field_sz_fixed ns pre f gs (some (buf, w)) e fx small in
      let next =
        wire_size-IsMessage (pre ++ f ∷ []) gs (p ++ b) bs buf (i + 1) (add64 w (field_sz f)) later
          (e ∙ sym (append_assoc pre (f ∷ []) gs)) (eb ∙ simp append_assoc)
          (omega (arith, length-append pre (f ∷ []))) (omega (arith, length-append p b))
          (omega arith) in
      ground (arith, call, next)
  wire_size-IsMessage pre fs p m buf i w (counted {s} {v} b bs {n} a len) e eb ei ew h =
      let sum : length (b ++ bs) ≡ length b + length bs = length-append b bs in
      let first = calc_field_sz_size ns pre s v b n (some (buf, w)) e a in
      let second = calc_field_sz_counted ns pre s v p b (bs ++ rest) n e a in
      let eb' : buf ≡ p ++ (b ++ (bs ++ rest)) = eb ∙ simp append_assoc in
      ground (arith, first, second)

replicate-add : (m n : ℕ) → replicate {A = ℕ} (m + n) 0 ≡ replicate m 0 ++ replicate n 0
replicate-add zero n = let e : zero + n ≡ n = omega arith in rw e
replicate-add (suc m) n =
    let e : suc m + n ≡ suc (m + n) = omega arith in rw e (ap (◌∷◌ 0) (replicate-add m n))

as_int_small : (n : ℕ) → n < 2 ^ 31 → as_int n ≡ some n
unfolding as_int
as_int_small n h = let e : n % 2 ^ 32 ≡ n = omega arith in rw (e, lt→ltb n (2 ^ 31) h) refl

module _ {ev : Cipher} (law : IsStream ev) (ns : NetStruct) (rest : Bytes) where
  -- What one round of the second loop writes: `b` encrypted, over zeros.
  write_field :
      (out done b bs : Bytes) (w : ℕ) (ctx : ev.Ctx)
      → out ≡ done ++ replicate (length (b ++ bs)) 0
      → w ≡ length done
      → write_at out w (ev.update ctx b)
        ≡ some (done ++ (ev.update ctx b ++ replicate (length bs) 0))
  write_field out done b bs w ctx eo ew =
      let zeros =
        ap (λ k. replicate k 0) (length-append b bs) ∙ replicate-add (length b) (length bs) in
      let same = law.length-update ctx b ∙ sym (length-replicate (length b) 0) in
      let call = write_at-append done (replicate (length b) 0) (replicate (length bs) 0) _ same in
      rw (eo, ew, zeros) call

  -- The last round, behind one that wrote `b`, leaves no zeros.
  write_last :
      (done b bs : Bytes) (ctx : ev.Ctx)
      → write_at
          (done ++ (ev.update ctx b ++ replicate (length bs) 0))
          (length done + length b)
          (ev.update (ev.advance ctx b) bs)
        ≡ some ((done ++ ev.update ctx b) ++ ev.update (ev.advance ctx b) bs)
  write_last done b bs ctx =
      let front = done ++ ev.update ctx b in
      let place : length done + length b ≡ length front =
        omega (arith, length-append done (ev.update ctx b), law.length-update ctx b) in
      let last = ev.update (ev.advance ctx b) bs in
      let same = law.length-update (ev.advance ctx b) bs ∙ sym (length-replicate (length bs) 0) in
      let call = write_at-append front (replicate (length bs) 0) [] last same in
      rw (place, ← append_assoc done (ev.update ctx b) (replicate (length bs) 0))
        (simp append-nil at call)

  pub encrypt_fields-IsMessage :
      (pre fs : List NetField) (p m buf : Bytes) (i w : ℕ) (out done : Bytes) (ctx : ev.Ctx)
      → IsMessage fs m
      → ns.fields ≡ pre ++ fs
      → buf ≡ p ++ (m ++ rest)
      → i ≡ length pre
      → w ≡ length p
      → w ≡ length done
      → out ≡ done ++ replicate (length m) 0
      → length m < 2 ^ 31
      → encrypt_fields ev ns buf (length fs) i w w out ctx
        ≡ some (done ++ ev.update ctx m, ev.advance ctx m)
  unfolding encrypt_fields
  encrypt_fields-IsMessage pre fs p m buf i w out done ctx nil e eb ei ew ed eo short =
      let none_out = length_zero (ev.update ctx []) (law.length-update ctx []) in
      rw (none_out, law.advance-nil ctx, eo)
  encrypt_fields-IsMessage pre fs p m buf i w out done ctx
        (fixed {f} {fs = gs} b {bs} fx small len later) e eb ei ew ed eo short =
      let call = calc_field_sz_fixed ns pre f gs (some (buf, w)) e fx small in
      let eb' : buf ≡ p ++ (b ++ (bs ++ rest)) = eb ∙ simp append_assoc in
      let got = read_at-append p b (bs ++ rest) in
      let int = as_int_small (field_sz f) (omega (arith, length-append b bs)) in
      let put = write_field out done b bs w ctx eo ed in
      let same = law.length-update ctx b in
      let next =
        encrypt_fields-IsMessage (pre ++ f ∷ []) gs (p ++ b) bs buf (i + 1) (w + field_sz f)
          (done ++ (ev.update ctx b ++ replicate (length bs) 0)) (done ++ ev.update ctx b)
          (ev.advance ctx b) later (e ∙ sym (append_assoc pre (f ∷ []) gs)) (eb ∙ simp append_assoc)
          (omega (arith, length-append pre (f ∷ []))) (omega (arith, length-append p b))
          (omega (arith, length-append done (ev.update ctx b))) (sym (append_assoc done _ _))
          (omega (arith, length-append b bs)) in
      rw
        (
          law.update-append ctx b bs,
          law.advance-append ctx b bs,
          ← append_assoc done (ev.update ctx b) (ev.update (ev.advance ctx b) bs),
        )
        (ground (arith, call, int, next))
  encrypt_fields-IsMessage pre fs p m buf i w out done ctx (counted {s} {v} b bs {n} a len) e eb ei
        ew ed eo short =
      let first = calc_field_sz_size ns pre s v b n (some (buf, w)) e a in
      let second = calc_field_sz_counted ns pre s v p b (bs ++ rest) n e a in
      let eb' : buf ≡ p ++ (b ++ (bs ++ rest)) = eb ∙ simp append_assoc in
      let got = read_at-append p b (bs ++ rest) in
      let got' = read_at-append (p ++ b) bs rest in
      let eb'' : buf ≡ (p ++ b) ++ (bs ++ rest) = eb ∙ simp append_assoc in
      let put = write_field out done b bs w ctx eo ed in
      let int = as_int_small (length b) (omega (arith, length-append b bs)) in
      let int' = as_int_small (length bs) (omega (arith, length-append b bs)) in
      let put' = write_last done b bs ctx in
      let same = law.length-update ctx b in
      let same' = law.length-update (ev.advance ctx b) bs in
      rw
        (
          law.update-append ctx b bs,
          law.advance-append ctx b bs,
          ← append_assoc done (ev.update ctx b) (ev.update (ev.advance ctx b) bs),
        )
        (ground (arith, first, second, int, int', got, got', put, put', length-append p b))
