-- ===== src/Io/Read/Loops.antt =====
-- The three loops of `resume_read`, each over a row of whole fixed fields.
use theme_srv.Common.{
  ℕ, ◌+◌, ◌^◌, ◌≤◌, ◌<◌, ◌≡◌, sym, ◌∙◌, true, Option, some, List, [], ◌∷◌, ◌++◌, Bytes, length,
  length-append, add64, ◌==◌, if◌then◌else◌, none, arith, append_assoc,
}
use theme_srv.Protocol.NetStruct.{NetField, NetStruct, field_sz}
use theme_srv.Protocol.Message.{IsFixedRun, nil, cons}
use theme_srv.Io.Fields.Wire.{calc_field_sz_fixed}
use theme_srv.Io.Read.{pointer, read_so_far, to_read}

module _ (ns : NetStruct) (buf : Option Bytes) (more : List NetField) where
  pub read_so_far-run :
      (pre run : List NetField) (r : Bytes) (i memsz : ℕ)
      → IsFixedRun run r
      → ns.fields ≡ pre ++ (run ++ more)
      → i ≡ length pre
      → memsz + length r < 2 ^ 64
      → read_so_far ns buf (length run) i memsz ≡ some (memsz + length r)
  unfolding read_so_far
  read_so_far-run pre run r i memsz nil e ei h = ground arith
  read_so_far-run pre run r i memsz (cons {f} {fs} b {bs} fx small len later) e ei h =
      let sum : length (b ++ bs) ≡ length b + length bs = length-append b bs in
      let call = calc_field_sz_fixed ns pre f (fs ++ more) (pointer buf memsz) e fx small in
      let next =
        read_so_far-run (pre ++ f ∷ []) fs bs (i + 1) (add64 memsz (field_sz f)) later
          (e ∙ sym (append_assoc pre (f ∷ []) (fs ++ more)))
          (omega (arith, length-append pre (f ∷ []))) (omega arith) in
      ground (arith, call, next)

  pub to_read-run :
      (pre run : List NetField) (r : Bytes) (memsz first i allocsz readsz : ℕ)
      → IsFixedRun run r
      → ns.fields ≡ pre ++ (run ++ more)
      → i ≡ length pre
      → allocsz + length r < 2 ^ 64
      → readsz ≤ allocsz
      → to_read ns buf memsz first (length (run ++ more)) i true allocsz readsz
        ≡ to_read ns buf memsz first
            (length more)
            (i + length run)
            true
            (allocsz + length r)
            (readsz + length r)
  unfolding to_read
  to_read-run pre run r memsz first i allocsz readsz nil e ei h k = ground arith
  to_read-run pre run r memsz first i allocsz readsz (cons {f} {fs} b {bs} fx small len later) e ei
        h k =
      let sum : length (b ++ bs) ≡ length b + length bs = length-append b bs in
      let here = if i == first then pointer buf memsz else none in
      let call = calc_field_sz_fixed ns pre f (fs ++ more) here e fx small in
      let next =
        to_read-run (pre ++ f ∷ []) fs bs memsz first (i + 1) (add64 allocsz (field_sz f))
          (add64 readsz (field_sz f)) later (e ∙ sym (append_assoc pre (f ∷ []) (fs ++ more)))
          (omega (arith, length-append pre (f ∷ []))) (omega arith) (omega arith) in
      ground (arith, call, next)
