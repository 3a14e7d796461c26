-- ===== src/Protocol/Packed/Strings.antt =====
-- The string setter of src/protocol/protocol_structs_begin.inl on a buffer of arbitrary contents.
use theme_srv.Common.{
  ℕ, zero, suc, ◌+◌, ◌-◌, ◌*◌, ◌<◌, ◌^◌, ◌≡◌, refl, ap, ◌∙◌, List, [], ◌∷◌, ◌++◌, some, Bytes,
  length, take, min, to_le, length-append, write_at, write_at-append, append_assoc, arith,
}
use theme_srv.Common.Words.{length-to_le}
use theme_srv.Protocol.Packed.{
  units, set_uint, set_string_utf16, get_redundant_sz, set_redundant_sz,
}

pub length-units : (cs : List ℕ) → length (units cs) ≡ 2 * length cs
unfolding units
length-units [] = refl
length-units (c ∷ cs) =
    omega (arith, length-append (to_le 2 c) (units cs), length-to_le 2 c, length-units cs)

take-all : (n : ℕ) (cs : List ℕ) → n ≡ length cs → take n cs ≡ cs
take-all zero [] h = refl
take-all zero (c ∷ cs) h = absurd (omega arith)
take-all (suc n) [] h = absurd (omega arith)
take-all (suc n) (c ∷ cs) h = ap (◌∷◌ c) (take-all n cs (omega arith))

-- A string that is shorter than its array, set over memory of any contents, stands there whole
-- behind its length, with a NUL behind it; the memory around it is as it was.
pub set_string_utf16_short :
    (pre s a z post : Bytes) (szval : ℕ) (value : List ℕ)
    → length s ≡ 2
    → length a ≡ 2 * length value
    → length z ≡ 2
    → length value < szval
    → set_string_utf16 (pre ++ (s ++ (a ++ (z ++ post)))) (length pre) szval value
      ≡ some (pre ++ (to_le 2 (length value) ++ (units value ++ (to_le 2 0 ++ post))))
unfolding set_string_utf16 set_uint
set_string_utf16_short pre s a z post szval value hs ha hz short =
    let size : min szval (length value) ≡ length value = omega arith in
    let last : min (szval - 1) (length value) ≡ length value = omega arith in
    let place : length pre + 2 ≡ length (pre ++ s) = omega (arith, length-append pre s) in
    let u = length-units value in
    let place' : length pre + 2 + 2 * length value ≡ length ((pre ++ s) ++ units value) =
      omega (arith, length-append pre s, length-append (pre ++ s) (units value)) in
    let one : write_at (pre ++ (s ++ (a ++ (z ++ post)))) (length pre + 2) (units value)
        ≡ some (pre ++ (s ++ (units value ++ (z ++ post)))) =
      rw
        (
          place,
          ← append_assoc pre s (a ++ (z ++ post)),
          write_at-append (pre ++ s) a (z ++ post) (units value) (omega arith),
        )
        (ap some (append_assoc pre s _)) in
    let two : write_at (pre ++ (s ++ (units value ++ (z ++ post))))
          (length pre + 2 + 2 * length value) (to_le 2 0)
        ≡ some (pre ++ (s ++ (units value ++ (to_le 2 0 ++ post)))) =
      rw
        (
          place',
          ← append_assoc pre s (units value ++ (z ++ post)),
          ← append_assoc (pre ++ s) (units value) (z ++ post),
          write_at-append ((pre ++ s) ++ units value) z post (to_le 2 0)
              (omega (arith, length-to_le 2 0)),
        )
        (ap some (append_assoc (pre ++ s) (units value) _ ∙ append_assoc pre s _)) in
    let three =
      write_at-append pre s (units value ++ (to_le 2 0 ++ post)) (to_le 2 (length value))
        (omega (arith, length-to_le 2 (length value))) in
    simp (size, last, take-all (length value) value refl, one, two, three)

-- The size of a redundant buffer is read back as it was set, if it is below 2^32 with its own
-- four bytes.
pub get_redundant_sz-set_redundant_sz :
    (value : ℕ) → value + 4 < 2 ^ 32 → get_redundant_sz (set_redundant_sz value) ≡ value
unfolding get_redundant_sz set_redundant_sz
get_redundant_sz-set_redundant_sz value h = omega arith
