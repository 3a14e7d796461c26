-- ===== src/Io/Read/TooLarge.antt =====
-- What `resume_read` of src/io/client_base.cpp does with a size field that announces more elements than
-- are allowed.
use theme_srv.Common.{
  ℕ, zero, suc, ◌+◌, ◌-◌, ◌%◌, ◌^◌, ◌<◌, ◌≡◌, refl, sym, ◌∙◌, ◌⊎◌, false, true, some, List, [], ◌∷◌,
  ◌++◌, Bytes, length, length-append, arith, append_assoc, mul64, size_max, from_le, ◌==◌,
  if◌then◌else◌,
}
use theme_srv.Protocol.NetStruct.{buffer_size, NetField, NetStruct, is_fixed, total_sz, size}
use theme_srv.Protocol.Message.{IsFixedRun, nil, IsFixedRun-append, size-IsFixedRun, excess}
use theme_srv.Io.Cipher.{Cipher, IsStream}
use theme_srv.Io.Socket.{shutdown}
use theme_srv.Io.ClientBase.{ClientBase}
use theme_srv.Io.Fields.{extract_elementcount, calc_field_sz}
use theme_srv.Io.Fields.Wire.{extract_integer_lem, get_elem?-append, get_elem?-append_next}
use theme_srv.Io.Read.{
  read_so_far, to_read, need, too_large, pointer, pass, returns, nothing, resume_read, handle_read,
}
use theme_srv.Io.Read.Passes.{IsAt, loops-run}
use theme_srv.Io.Read.Counted.{has_buffer, alloc_var}

-- The bytes `b` of the size field `s` announce `n` elements of the field `v`, more than 1024.
pub record Exceeds (s v : NetField) (b : Bytes) (n : ℕ) : Type 0 where
  pub size_type : s.type ≡ buffer_size
  pub size_count : s.count ≡ 1
  pub width : (s.elementsz ≡ 1) ⊎ (s.elementsz ≡ 2) ⊎ (s.elementsz ≡ 4) ⊎ (s.elementsz ≡ 8)
  pub varies : is_fixed v.type ≡ false
  pub divides : s.elementsz % v.elementsz ≡ 0
  pub length_is : length b ≡ s.elementsz
  pub value_is : from_le b ≡ n + excess s v
  pub fits : n < 2 ^ 64
  pub over : 1024 < n

Exceeds-IsFixedRun : (s v : NetField) (b : Bytes) (n : ℕ) → Exceeds s v b n → IsFixedRun (s ∷ []) b
Exceeds-IsFixedRun s v b n a = size-IsFixedRun s b a.size_type a.size_count a.width a.length_is

extract_elementcount_over :
    (s v : NetField) (p b rest : Bytes) (n : ℕ)
    → Exceeds s v b n
    → extract_elementcount s v (p ++ (b ++ rest)) (length p + length b) ≡ some size_max
unfolding extract_elementcount
extract_elementcount_over s v p b rest n a =
    let e : length p + length b - s.elementsz ≡ length p = omega (arith, a.length_is) in
    ground (arith, extract_integer_lem s p b rest a.width a.length_is, a.over, a.fits)

calc_field_sz_over :
    (ns : NetStruct) (pre : List NetField) (s v : NetField) (p b rest : Bytes) (n : ℕ)
    → ns.fields ≡ pre ++ s ∷ v ∷ []
    → Exceeds s v b n
    → calc_field_sz ns (suc (length pre)) (some (p ++ (b ++ rest), length p + length b))
      ≡ some (record {
        known = true;
        alloc = mul64 v.elementsz v.count;
        wire = mul64 v.elementsz size_max;
      })
unfolding calc_field_sz
calc_field_sz_over ns pre s v p b rest n e a =
    let whole : length (pre ++ s ∷ v ∷ []) ≡ length pre + 2 = length-append pre (s ∷ v ∷ []) in
    let count = extract_elementcount_over s v p b rest n a in
    rw (e, get_elem?-append_next pre s v [])
      (ground (arith, whole, count, get_elem?-append pre s (v ∷ [])))

mul64_max : (n : ℕ) → 1 < n → n < 2 ^ 32 → mul64 n size_max ≡ 2 ^ 64 - n
mul64_max n more fits = omega arith

module _ {ev : Cipher} (law : IsStream ev) (ns : NetStruct)
    (small : total_sz ns.fields < 2 ^ 32) where
  -- The first two loops at the field itself
  loops_over :
      (cli : ClientBase ev) (pre : List NetField) (s v : NetField) (q b : Bytes) (n : ℕ)
      → IsAt ns (suc (length pre)) (q ++ b) cli
      → IsFixedRun pre q
      → Exceeds s v b n
      → ns.fields ≡ pre ++ s ∷ v ∷ []
      → (read_so_far ns cli.reading.buf (suc (length pre)) 0 0 ≡ some (length (q ++ b)))
        × (to_read ns cli.reading.buf
              (length (q ++ b))
              (suc (length pre))
              (size ns - suc (length pre))
              (suc (length pre))
              true
              (length (q ++ b))
              0
            ≡ some (
                if mul64 v.elementsz size_max == size_max
                then too_large
                else need (total_sz ns.fields) (mul64 v.elementsz size_max)))
  unfolding to_read
  loops_over cli pre s v q b n at hp a eq =
      let hr = IsFixedRun-append hp (Exceeds-IsFixedRun s v b n a) in
      let filled : 0 < length b = ground (arith, a.width, a.length_is) in
      let (y, buf_is) = has_buffer law ns small q b cli.reading filled at.holds in
      let (total, place, count) = alloc_var law ns small pre s v q b hr eq in
      let eq' : ns.fields ≡ (pre ++ s ∷ []) ++ ([] ++ v ∷ []) =
        eq ∙ sym (append_assoc pre (s ∷ []) (v ∷ [])) in
      let (sizes, sum, first, second) =
        loops-run law ns small cli.reading.buf (pre ++ s ∷ []) [] (v ∷ []) (q ++ b) [] hr nil eq' in
      let one : size ns - suc (length pre) ≡ suc zero = omega arith in
      let call = calc_field_sz_over ns pre s v q b y n eq a in
      let at_buf : pointer cli.reading.buf (length (q ++ b))
          ≡ some (q ++ (b ++ y), length q + length b) =
        rw (buf_is, length-append q b) refl in
      (rw (← place) first, rw one (ground (arith, call, total, at_buf)))

  pass_over :
      (cli : ClientBase ev) (pre : List NetField) (s v : NetField) (q b : Bytes) (n : ℕ)
      → IsAt ns (suc (length pre)) (q ++ b) cli
      → IsFixedRun pre q
      → Exceeds s v b n
      → ns.fields ≡ pre ++ s ∷ v ∷ []
      → v.elementsz ≡ 1
      → pass cli ≡ some (returns false (record cli { socket = shutdown (cli.socket) }))
  unfolding pass
  pass_over cli pre s v q b n at hp a eq one =
      let (first, second) = loops_over cli pre s v q b n at hp a eq in
      simp (at.struct_is, at.field_is) (simp (first, second, one))

  -- Suppose that a cipher works byte by byte and that a client is about to read the last field
  -- of a structure of less than 4 GiB, whose elements are single bytes and whose size field
  -- announces more than 1024 of them (less than 2^64). `handle_read` ends in its first round,
  -- gives no message and shuts the connection down; the rest of the client is as it was.
  pub handle_read-Exceeds :
      (fuel : ℕ) (cli : ClientBase ev) (pre : List NetField) (s v : NetField) (q b : Bytes) (n : ℕ)
      → IsAt ns (suc (length pre)) (q ++ b) cli
      → IsFixedRun pre q
      → Exceeds s v b n
      → ns.fields ≡ pre ++ s ∷ v ∷ []
      → v.elementsz ≡ 1
      → handle_read (suc fuel) cli ≡ nothing (record cli { socket = shutdown (cli.socket) })
  unfolding handle_read resume_read
  handle_read-Exceeds fuel cli pre s v q b n at hp a eq one =
      rw (pass_over cli pre s v q b n at hp a eq one) refl

  -- Suppose that a cipher works byte by byte and that a client is about to read the last field
  -- of a structure of less than 4 GiB, whose elements are of more than one byte, and of less
  -- than 4 GiB, and whose size field announces more than 1024 of them (less than 2^64). The
  -- second loop of `resume_read` does not find the request too large: it asks for 2^64 bytes
  -- less one element.
  pub to_read-Exceeds :
      (cli : ClientBase ev) (pre : List NetField) (s v : NetField) (q b : Bytes) (n : ℕ)
      → IsAt ns (suc (length pre)) (q ++ b) cli
      → IsFixedRun pre q
      → Exceeds s v b n
      → ns.fields ≡ pre ++ s ∷ v ∷ []
      → 1 < v.elementsz
      → v.elementsz < 2 ^ 32
      → to_read ns cli.reading.buf
          (length (q ++ b))
          (suc (length pre))
          (size ns - suc (length pre))
          (suc (length pre))
          true
          (length (q ++ b))
          0
        ≡ some (need (total_sz ns.fields) (2 ^ 64 - v.elementsz))
  to_read-Exceeds cli pre s v q b n at hp a eq more fits =
      let (first, second) = loops_over cli pre s v q b n at hp a eq in
      let wraps = mul64_max v.elementsz more fits in
      second ∙ (rw wraps (ground (arith, more, fits)))
