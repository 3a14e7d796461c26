-- ===== src/Io/Read/Wanting.antt =====
-- What `resume_read` of src/io/client_base.cpp asks for at the start of a field, whatever the rest
-- of the message will be.
use theme_srv.Common.{
  ℕ, suc, ◌+◌, ◌-◌, ◌^◌, ◌≤◌, ◌<◌, ◌≡◌, refl, ap, sym, ◌∙◌, inl, inr, true, some, List, [], ◌∷◌,
  ◌++◌, Bytes, length, length-append, arith, append_assoc, append-nil,
}
use theme_srv.Protocol.NetStruct.{NetField, NetStruct, total_sz, size}
use theme_srv.Protocol.Message.{
  IsMessage, IsMessage-cases, IsFixedRun, IsFixedRun-append, Announces, Announces-IsFixedRun,
}
use theme_srv.Io.Cipher.{Cipher, IsStream}
use theme_srv.Io.ClientBase.{ClientBase}
use theme_srv.Io.Fields.Wire.{calc_field_sz_unknown}
use theme_srv.Io.Read.{read_so_far, to_read, need}
use theme_srv.Io.Read.Passes.{loops-run}
use theme_srv.Io.Read.Counted.{alloc_var, length_size}

-- The first two loops find the sizes, and ask for at least one byte.
pub record Wants {ev : Cipher} (ns : NetStruct) (i : ℕ) (p : Bytes) (cli : ClientBase ev)
    : Type 0 where
  pub number : ℕ
  pub so_far : read_so_far ns cli.reading.buf i 0 0 ≡ some (length p)
  pub wanted :
      to_read ns cli.reading.buf (length p) i (size ns - i) i true (length p) 0
      ≡ some (need (total_sz ns.fields) number)
  pub positive : 0 < number

module _ {ev : Cipher} (law : IsStream ev) (ns : NetStruct)
    (small : total_sz ns.fields < 2 ^ 32) where
  fixed-Wants :
      (cli : ClientBase ev) (pre run : List NetField) (p m : Bytes)
      → IsFixedRun pre p
      → IsFixedRun run m
      → ns.fields ≡ pre ++ run
      → 0 < length m
      → (w : Wants ns (length pre) p cli) × (w.number ≡ length m)
  unfolding to_read
  fixed-Wants cli pre run p m hp hr eq pos =
      let eq' : ns.fields ≡ pre ++ (run ++ []) = eq ∙ ap (◌++◌ pre) (sym (append-nil run)) in
      let (sizes, total, first, second) =
        loops-run law ns small cli.reading.buf pre run [] p m hp hr eq' in
      let enough : length p + length m ≡ total_sz ns.fields = omega arith in
      (
        record {
          number = length m;
          so_far = first;
          wanted = second ∙ ap (λ k. some (need k (length m))) enough;
          positive = pos;
        },
        refl,
      )

  announced-Wants :
      (cli : ClientBase ev) (pre gs : List NetField) (s v : NetField) (p c b : Bytes) (n : ℕ)
      → IsFixedRun pre p
      → IsFixedRun gs c
      → Announces s v b n
      → ns.fields ≡ pre ++ (gs ++ s ∷ v ∷ [])
      → (w : Wants ns (length pre) p cli) × (w.number ≡ length (c ++ b))
  unfolding to_read
  announced-Wants cli pre gs s v p c b n hp hg a eq =
      let hr : IsFixedRun (gs ++ s ∷ []) (c ++ b) =
        IsFixedRun-append hg (Announces-IsFixedRun s v b n a) in
      let eq' : ns.fields ≡ pre ++ ((gs ++ s ∷ []) ++ v ∷ []) =
        eq ∙ ap (◌++◌ pre) (sym (append_assoc gs (s ∷ []) (v ∷ []))) in
      let eq'' : ns.fields ≡ (pre ++ gs) ++ s ∷ v ∷ [] = eq ∙ sym (append_assoc pre gs _) in
      let (sizes, total, first, second) =
        loops-run law ns small cli.reading.buf pre (gs ++ s ∷ []) (v ∷ []) p (c ++ b) hp hr eq' in
      let (whole, place, count) =
        alloc_var law ns small (pre ++ gs) s v (p ++ c) b
          (IsFixedRun-append (IsFixedRun-append hp hg) (Announces-IsFixedRun s v b n a)) eq'' in
      let unknown = calc_field_sz_unknown ns (pre ++ gs) s v eq'' a.varies in
      let sum : length ((p ++ c) ++ b) ≡ length p + length (c ++ b) =
        omega (arith, length-append (p ++ c) b, length-append p c, length-append c b) in
      let at_var : length pre + length (gs ++ s ∷ []) ≡ suc (length (pre ++ gs)) =
        omega (arith, length-append gs (s ∷ []), length-append pre gs) in
      let not_first : length pre < suc (length (pre ++ gs)) = omega (arith, length-append pre gs) in
      let filled : 0 < length (c ++ b) =
        omega (arith, length_size law ns small s v b n a, length-append c b) in
      (
        record {
          number = length (c ++ b);
          so_far = first;
          wanted = second ∙ ground (arith, unknown, at_var, whole, sum, not_first);
          positive = filled;
        },
        refl,
      )

  -- At the start of a field there is something to ask for, if the wire format has a message.
  pub IsMessage-Wants :
      (cli : ClientBase ev) (pre fs : List NetField) (p m : Bytes)
      → IsFixedRun pre p
      → IsMessage fs m
      → ns.fields ≡ pre ++ fs
      → 0 < length m
      → Wants ns (length pre) p cli
  IsMessage-Wants cli pre fs p m hp msg eq pos = elim (IsMessage-cases msg) [
    | inl run ↦ (fixed-Wants cli pre fs p m hp run eq pos).0
    | inr c ↦
        (announced-Wants cli pre c.run c.size_field c.var_field p c.run_bytes c.size_bytes c.number
          hp c.is_run c.announces (eq ∙ ap (◌++◌ pre) c.fields_are)).0
  ]

  -- It is no less than the fixed fields in front.
  pub run-Wants :
      (cli : ClientBase ev) (pre run fs : List NetField) (p r m : Bytes)
      → IsFixedRun pre p
      → IsFixedRun run r
      → IsMessage fs m
      → ns.fields ≡ pre ++ (run ++ fs)
      → 0 < length m
      → (w : Wants ns (length pre) p cli) × (length r ≤ w.number)
  run-Wants cli pre run fs p r m hp hr msg eq pos = elim (IsMessage-cases msg) [
    | inl more ↦
        let (w, number) =
          fixed-Wants cli pre (run ++ fs) p (r ++ m) hp (IsFixedRun-append hr more) eq
            (omega (arith, length-append r m)) in
        (w, omega (arith, length-append r m))
    | inr c ↦
        let (w, number) =
          announced-Wants cli pre (run ++ c.run) c.size_field c.var_field p (r ++ c.run_bytes)
            c.size_bytes c.number hp (IsFixedRun-append hr c.is_run) c.announces
            (eq
              ∙ ap (λ t. pre ++ (run ++ t)) c.fields_are
              ∙ ap (◌++◌ pre) (sym (append_assoc run c.run _))) in
        (
          w,
          omega (arith, length-append (r ++ c.run_bytes) c.size_bytes, length-append r c.run_bytes),
        )
  ]
