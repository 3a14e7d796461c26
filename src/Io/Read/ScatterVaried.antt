-- ===== src/Io/Read/ScatterVaried.antt =====
-- The third loop of `resume_read` of src/io/client_base.cpp at a varying field.
use theme_srv.Common.{
  ℕ, suc, ◌+◌, ◌*◌, ◌<◌, ◌≡◌, refl, ap, sym, ◌∙◌, true, false, some, List, [], ◌∷◌, ◌++◌, Bytes,
  length, length-append, arith, append_assoc, append-nil, length_zero, read_at, write_at,
  read_at-append, write_at-append,
}
use theme_srv.Protocol.NetStruct.{NetField, NetStruct, size}
use theme_srv.Protocol.Message.{Announces}
use theme_srv.Io.Cipher.{Cipher, IsStream}
use theme_srv.Io.Fields.Wire.{calc_field_sz_counted}
use theme_srv.Io.Read.{scatter}
use theme_srv.Io.Read.Scatter.{at_field}

module _ {ev : Cipher} (law : IsStream ev) (ns : NetStruct) where
  -- The varying field, behind its size field `b`, all of whose bytes `e` are at hand.
  pub scatter_counted :
      (pre : List NetField) (s v : NetField) (d e q b z y : Bytes) (n i : ℕ) (ctx : ev.Ctx)
      → ns.fields ≡ pre ++ s ∷ v ∷ []
      → Announces s v b n
      → length e ≡ v.elementsz * n
      → length z ≡ length e
      → i ≡ suc (length pre)
      → scatter ev ns
          (d ++ e)
          1
          (length q + length b)
          (length d)
          (length e)
          (at_field i (q ++ (b ++ (z ++ y))) ctx)
        ≡ some (true, at_field (i + 1) (q ++ (b ++ (ev.update ctx e ++ y))) (ev.advance ctx e))
  unfolding scatter
  scatter_counted pre s v d e q b z y n i ctx eq a le lz ei =
      let call = calc_field_sz_counted ns pre s v q b (z ++ y) n eq a in
      let got = ap (λ k. read_at (d ++ k) (length d) (length e)) (append-nil e) in
      let got' = read_at-append d e [] in
      let same = law.length-update ctx e in
      let put : write_at (q ++ (b ++ (z ++ y))) (length q + length b) (ev.update ctx e)
          ≡ some (q ++ (b ++ (ev.update ctx e ++ y))) =
        rw
          (
            ← append_assoc q b (z ++ y),
            ← append_assoc q b (ev.update ctx e ++ y),
            ← length-append q b,
          )
          (write_at-append (q ++ b) z y (ev.update ctx e) (omega arith)) in
      let last : i + 1 ≡ size ns = omega (arith, ap length eq, length-append pre (s ∷ v ∷ [])) in
      ground (arith, call, got, got', same, put, last)

  -- The same field with none of its bytes at hand: the loop stops before it.
  pub scatter_pending :
      (pre : List NetField) (s v : NetField) (d q b y : Bytes) (n i wirepos : ℕ) (ctx : ev.Ctx)
      → ns.fields ≡ pre ++ s ∷ v ∷ []
      → Announces s v b n
      → 0 < v.elementsz * n
      → i ≡ suc (length pre)
      → wirepos ≡ length d
      → scatter ev ns d 1 (length q + length b) wirepos 0 (at_field i (q ++ (b ++ y)) ctx)
        ≡ some (false, at_field i (q ++ (b ++ y)) ctx)
  unfolding scatter
  scatter_pending pre s v d q b y n i wirepos ctx eq a pos ei ew =
      let call = calc_field_sz_counted ns pre s v q b y n eq a in
      let got : read_at d (length d) 0 ≡ some [] =
        ap (λ k. read_at k (length d) 0) (sym (append-nil d)) ∙ read_at-append d [] [] in
      let empty = length_zero (ev.update ctx []) (law.length-update ctx []) in
      let put : write_at (q ++ (b ++ y)) (length q + length b) [] ≡ some (q ++ (b ++ y)) =
        rw (← append_assoc q b y, ← length-append q b) (write_at-append (q ++ b) [] y [] refl) in
      ground (arith, call, got, empty, put, law.advance-nil ctx)
