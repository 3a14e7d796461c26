-- ===== src/Core/Uuid/Order.antt =====
-- The two conversions of src/core/uuid.h and uuid.cpp, one behind the other.
use theme_srv.Common.{
  ◌≡◌, refl, sym, ◌∙◌, [], ◌∷◌, ◌++◌, some, Bytes, IsBytes, length, length-append, read_at,
  write_at, read_at-append, write_at-append, from_le, to_le, append-nil, append_assoc, arith, ◌>>=◌,
}
use theme_srv.Common.Words.{to_le-from_le}
use theme_srv.Core.Uuid.{backwards, swap_endian, put_swapped, to_le_bytes, from_le_bytes}

length-backwards : (bs : Bytes) → length (backwards bs) ≡ length bs
length-backwards [] = refl
length-backwards (b ∷ bs) =
    omega (arith, length-append (backwards bs) (b ∷ []), length-backwards bs)

IsBytes-append : (xs ys : Bytes) → IsBytes xs → IsBytes ys → IsBytes (xs ++ ys)
IsBytes-append [] ys h k = k
IsBytes-append (x ∷ xs) ys h k = (h.0, IsBytes-append xs ys (h.1) k)

backwards-IsBytes : (bs : Bytes) → IsBytes bs → IsBytes (backwards bs)
backwards-IsBytes [] h = tt
backwards-IsBytes (b ∷ bs) h =
    IsBytes-append (backwards bs) (b ∷ []) (backwards-IsBytes bs h.1) (h.0, tt)

backwards-append : (xs ys : Bytes) → backwards (xs ++ ys) ≡ backwards ys ++ backwards xs
backwards-append [] ys = sym (append-nil (backwards ys))
backwards-append (x ∷ xs) ys =
    rw (backwards-append xs ys) (append_assoc (backwards ys) (backwards xs) (x ∷ []))

backwards-backwards : (bs : Bytes) → backwards (backwards bs) ≡ bs
backwards-backwards [] = refl
backwards-backwards (b ∷ bs) =
    rw (backwards-append (backwards bs) (b ∷ []), backwards-backwards bs) refl

-- A swapped integer has its bytes backwards.
to_le-swap_endian :
    (bs : Bytes)
    → IsBytes bs
    → to_le (length bs) (swap_endian (length bs) (from_le bs)) ≡ backwards bs
unfolding swap_endian
to_le-swap_endian bs h =
    rw (to_le-from_le bs h, ← length-backwards bs)
      (to_le-from_le (backwards bs) (backwards-IsBytes bs h))

put_swapped-append :
    (pre mid post pre' old post' : Bytes)
    → IsBytes mid
    → length pre ≡ length pre'
    → length old ≡ length mid
    → put_swapped (pre ++ (mid ++ post)) (pre' ++ (old ++ post')) (length pre) (length mid)
      ≡ some (pre' ++ (backwards mid ++ post'))
unfolding put_swapped
put_swapped-append pre mid post pre' old post' h k l =
    rw (read_at-append pre mid post, to_le-swap_endian mid h, k)
      (write_at-append pre' old post' (backwards mid) (length-backwards mid ∙ sym l))

to_le_bytes-append :
    (a b c d a' b' c' d' : Bytes)
    → IsBytes a
    → IsBytes b
    → IsBytes c
    → (length a ≡ 4) × (length b ≡ 2) × (length c ≡ 2) × (length d ≡ 8)
    → (length a' ≡ 4) × (length b' ≡ 2) × (length c' ≡ 2) × (length d' ≡ 8)
    → to_le_bytes (a ++ (b ++ (c ++ d))) (a' ++ (b' ++ (c' ++ d')))
      ≡ some (backwards a ++ (backwards b ++ (backwards c ++ d)))
unfolding to_le_bytes
to_le_bytes-append a b c d a' b' c' d' ha hb hc (la, lb, lc, ld) (la', lb', lc', ld') =
    let ka = length-backwards a in
    let kb = length-backwards b in
    let kc = length-backwards c in
    let one : put_swapped (a ++ (b ++ (c ++ d))) (a' ++ (b' ++ (c' ++ d'))) 0 4
        ≡ some (backwards a ++ (b' ++ (c' ++ d'))) =
      rw la at
        (put_swapped-append [] a (b ++ (c ++ d)) [] a' (b' ++ (c' ++ d')) ha refl (omega arith)) in
    let two : put_swapped (a ++ (b ++ (c ++ d))) (backwards a ++ (b' ++ (c' ++ d'))) 4 2
        ≡ some (backwards a ++ (backwards b ++ (c' ++ d'))) =
      rw (la, lb) at
        (put_swapped-append a b (c ++ d) (backwards a) b' (c' ++ d') hb (omega arith)
          (omega arith)) in
    let six : length (a ++ b) ≡ 6 = omega (arith, length-append a b) in
    let six' : length (a ++ b) ≡ length (backwards a ++ backwards b) =
      omega (arith, length-append a b, length-append (backwards a) (backwards b)) in
    let three : put_swapped (a ++ (b ++ (c ++ d))) (backwards a ++ (backwards b ++ (c' ++ d'))) 6 2
        ≡ some (backwards a ++ (backwards b ++ (backwards c ++ d'))) =
      rw
        (
          six,
          lc,
          append_assoc a b (c ++ d),
          append_assoc (backwards a) (backwards b) (c' ++ d'),
          append_assoc (backwards a) (backwards b) (backwards c ++ d'),
        )
        at
        (put_swapped-append (a ++ b) c d (backwards a ++ backwards b) c' d' hc six'
          (omega arith)) in
    let eight : length ((a ++ b) ++ c) ≡ 8 = omega (arith, length-append (a ++ b) c) in
    let eight' : length ((backwards a ++ backwards b) ++ backwards c) ≡ 8 = omega (
      arith,
      length-append (backwards a) (backwards b),
      length-append (backwards a ++ backwards b) (backwards c),
    ) in
    let left : read_at (a ++ (b ++ (c ++ d))) 8 8 ≡ some d =
      rw (eight, ld, append-nil d, append_assoc (a ++ b) c d, append_assoc a b (c ++ d)) at
        (read_at-append ((a ++ b) ++ c) d []) in
    let last : write_at (backwards a ++ (backwards b ++ (backwards c ++ d'))) 8 d
        ≡ some (backwards a ++ (backwards b ++ (backwards c ++ d))) =
      rw
        (
          eight',
          append-nil d',
          append-nil d,
          append_assoc (backwards a ++ backwards b) (backwards c) d',
          append_assoc (backwards a) (backwards b) (backwards c ++ d'),
          append_assoc (backwards a ++ backwards b) (backwards c) d,
          append_assoc (backwards a) (backwards b) (backwards c ++ d),
        )
        at (write_at-append ((backwards a ++ backwards b) ++ backwards c) d' [] d (omega arith)) in
    simp (one, two, three, left, last)

from_le_bytes-append :
    (a b c d : Bytes)
    → IsBytes a
    → IsBytes b
    → IsBytes c
    → (length a ≡ 4) × (length b ≡ 2) × (length c ≡ 2) × (length d ≡ 8)
    → from_le_bytes (a ++ (b ++ (c ++ d)))
      ≡ some (backwards a ++ (backwards b ++ (backwards c ++ d)))
unfolding from_le_bytes
from_le_bytes-append a b c d ha hb hc (la, lb, lc, ld) =
    let ka = length-backwards a in
    let kb = length-backwards b in
    let size : length (a ++ (b ++ (c ++ d))) ≡ 16 =
      omega (arith, length-append a (b ++ (c ++ d)), length-append b (c ++ d), length-append c d) in
    let all : read_at (a ++ (b ++ (c ++ d))) 0 16 ≡ some (a ++ (b ++ (c ++ d))) =
      rw (size, append-nil (a ++ (b ++ (c ++ d)))) at
        (read_at-append [] (a ++ (b ++ (c ++ d))) []) in
    let one : put_swapped (a ++ (b ++ (c ++ d))) (a ++ (b ++ (c ++ d))) 0 4
        ≡ some (backwards a ++ (b ++ (c ++ d))) =
      rw la at (put_swapped-append [] a (b ++ (c ++ d)) [] a (b ++ (c ++ d)) ha refl refl) in
    let two : put_swapped (backwards a ++ (b ++ (c ++ d))) (backwards a ++ (b ++ (c ++ d))) 4 2
        ≡ some (backwards a ++ (backwards b ++ (c ++ d))) =
      rw (ka, la, lb) at
        (put_swapped-append (backwards a) b (c ++ d) (backwards a) b (c ++ d) hb refl refl) in
    let six : length (backwards a ++ backwards b) ≡ 6 =
      omega (arith, length-append (backwards a) (backwards b)) in
    let three : put_swapped (backwards a ++ (backwards b ++ (c ++ d)))
          (backwards a ++ (backwards b ++ (c ++ d))) 6 2
        ≡ some (backwards a ++ (backwards b ++ (backwards c ++ d))) =
      rw
        (
          six,
          lc,
          append_assoc (backwards a) (backwards b) (c ++ d),
          append_assoc (backwards a) (backwards b) (backwards c ++ d),
        )
        at
        (put_swapped-append (backwards a ++ backwards b) c d (backwards a ++ backwards b) c d hc
          refl refl) in
    simp (all, one, two, three)

-- An identifier of the members `a`, `b`, `c` and `d` (4, 2, 2 and 8 bytes), written in the
-- wire's byte order over any 16 bytes, is read back as it was.
pub from_le_bytes-to_le_bytes :
    (a b c d a' b' c' d' : Bytes)
    → IsBytes a
    → IsBytes b
    → IsBytes c
    → (length a ≡ 4) × (length b ≡ 2) × (length c ≡ 2) × (length d ≡ 8)
    → (length a' ≡ 4) × (length b' ≡ 2) × (length c' ≡ 2) × (length d' ≡ 8)
    → (to_le_bytes (a ++ (b ++ (c ++ d))) (a' ++ (b' ++ (c' ++ d'))) >>= from_le_bytes)
      ≡ some (a ++ (b ++ (c ++ d)))
from_le_bytes-to_le_bytes a b c d a' b' c' d' ha hb hc l l' =
    let there = to_le_bytes-append a b c d a' b' c' d' ha hb hc l l' in
    let back =
      from_le_bytes-append (backwards a) (backwards b) (backwards c) d (backwards-IsBytes a ha)
        (backwards-IsBytes b hb) (backwards-IsBytes c hc)
        (length-backwards a ∙ l.0, length-backwards b ∙ l.1, length-backwards c ∙ l.2, l.3) in
    simp (there, back, backwards-backwards a, backwards-backwards b, backwards-backwards c)
