-- ===== src/Common/Lists.antt =====
-- Lists measured and indexed by native numbers, and buffers of bytes.
use Prim.Native.Nat.{ℕ, zero, suc, ◌+◌, ◌-◌, ◌<◌, ◌≤◌, min}
use mathlib.Core.Path.{◌≡◌, refl, ap}
use mathlib.Core.List.{List, [], ◌∷◌, ◌++◌}
use mathlib.Core.Option.{Option, none, some}
use native.Mathlib.Omega.{arith}
use theme_srv.Common.Checks.{leb, if◌then◌else◌, le→leb, lt→leb}

module _ {ℓ} {A : Type ℓ} where
  abbrev pub length : List A → ℕ
  length [] = 0
  length (x ∷ xs) = suc (length xs)

  abbrev pub get_elem? : List A → ℕ → Option A
  get_elem? [] i = none
  get_elem? (x ∷ xs) zero = some x
  get_elem? (x ∷ xs) (suc i) = get_elem? xs i

  abbrev pub take : ℕ → List A → List A
  take zero xs = []
  take (suc n) [] = []
  take (suc n) (x ∷ xs) = x ∷ take n xs

  abbrev pub drop : ℕ → List A → List A
  drop zero xs = xs
  drop (suc n) [] = []
  drop (suc n) (x ∷ xs) = drop n xs

  abbrev pub replicate : ℕ → A → List A
  replicate zero a = []
  replicate (suc n) a = a ∷ replicate n a

  pub length-append : (xs ys : List A) → length (xs ++ ys) ≡ length xs + length ys
  length-append [] ys = omega arith
  length-append (x ∷ xs) ys = omega (arith, length-append xs ys)

  pub take-append-drop : (n : ℕ) (xs : List A) → take n xs ++ drop n xs ≡ xs
  take-append-drop zero xs = refl
  take-append-drop (suc n) [] = refl
  take-append-drop (suc n) (x ∷ xs) = rw (take-append-drop n xs)

  pub length-take : (n : ℕ) (xs : List A) → length (take n xs) ≡ min n (length xs)
  length-take zero xs = omega arith
  length-take (suc n) [] = omega arith
  length-take (suc n) (x ∷ xs) = omega (arith, length-take n xs)

  pub length-drop : (n : ℕ) (xs : List A) → length (drop n xs) ≡ length xs - n
  length-drop zero xs = omega arith
  length-drop (suc n) [] = omega arith
  length-drop (suc n) (x ∷ xs) = omega (arith, length-drop n xs)

  pub length-replicate : (n : ℕ) (a : A) → length (replicate n a) ≡ n
  length-replicate zero a = refl
  length-replicate (suc n) a = ap suc (length-replicate n a)

  pub take-length : (xs ys : List A) → take (length xs) (xs ++ ys) ≡ xs
  take-length [] ys = refl
  take-length (x ∷ xs) ys = ap (◌∷◌ x) (take-length xs ys)

  pub drop-length : (xs ys : List A) → drop (length xs) (xs ++ ys) ≡ ys
  drop-length [] ys = refl
  drop-length (x ∷ xs) ys = drop-length xs ys

  pub drop-drop : (m n : ℕ) (xs : List A) → drop n (drop m xs) ≡ drop (m + n) xs
  drop-drop zero n xs = let e : zero + n ≡ n = omega arith in rw e
  drop-drop (suc m) zero [] = let e : suc m + zero ≡ suc m = omega arith in rw e
  drop-drop (suc m) (suc n) [] = let e : suc m + suc n ≡ suc (m + suc n) = omega arith in rw e
  drop-drop (suc m) n (x ∷ xs) =
      let e : suc m + n ≡ suc (m + n) = omega arith in rw e (drop-drop m n xs)

pub length_zero {ℓ} : {A : Type ℓ} (xs : List A) → length xs ≡ 0 → xs ≡ []
length_zero [] h = refl
length_zero (x ∷ xs) h = absurd (omega arith)

abbrev pub Bytes : Type 0
Bytes = List ℕ

abbrev pub IsBytes : Bytes → Type 0
IsBytes [] = Unit
IsBytes (b ∷ bs) = (b < 256) × IsBytes bs

-- `memcpy` out of a buffer, a fault past its end.
unfoldable pub read_at : Bytes → ℕ → ℕ → Option Bytes
read_at buf pos n = if leb (pos + n) (length buf) then some (take n (drop pos buf)) else none

-- `memcpy` into a buffer, a fault past its end.
unfoldable pub write_at : Bytes → ℕ → Bytes → Option Bytes
write_at buf pos bs =
    if leb (pos + length bs) (length buf)
    then some (take pos buf ++ (bs ++ drop (pos + length bs) buf))
    else none

pub read_at-append :
    (pre mid post : Bytes) → read_at (pre ++ (mid ++ post)) (length pre) (length mid) ≡ some mid
unfolding read_at
read_at-append pre mid post = rw (
  le→leb (length pre + length mid) (length (pre ++ (mid ++ post)))
      (omega (arith, length-append pre (mid ++ post), length-append mid post)),
  drop-length pre (mid ++ post),
  take-length mid post,
)

pub read_at_front : (buf : Bytes) (n : ℕ) → n ≤ length buf → read_at buf 0 n ≡ some (take n buf)
unfolding read_at
read_at_front buf n h = rw (le→leb (0 + n) (length buf) (omega arith))

pub write_at-append :
    (pre old post bs : Bytes)
    → length bs ≡ length old
    → write_at (pre ++ (old ++ post)) (length pre) bs ≡ some (pre ++ (bs ++ post))
unfolding write_at
write_at-append pre old post bs e = rw (
  e,
  le→leb (length pre + length old) (length (pre ++ (old ++ post)))
      (omega (arith, length-append pre (old ++ post), length-append old post)),
  take-length pre (old ++ post),
  ← drop-drop (length pre) (length old) (pre ++ (old ++ post)),
  drop-length pre (old ++ post),
  drop-length old post,
)

-- A write past the end is a fault.
pub write_at_past :
    (buf : Bytes) (pos : ℕ) (bs : Bytes) → length buf < pos + length bs → write_at buf pos bs ≡ none
unfolding write_at
write_at_past buf pos bs h = rw (lt→leb (pos + length bs) (length buf) h)
