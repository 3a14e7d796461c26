-- ===== src/Common/Words.antt =====
-- `size_t` arithmetic modulo 2^64 on the server's 64-bit build, and little-endian integers.
use Prim.Native.Nat.{ℕ, zero, suc, ◌+◌, ◌-◌, ◌*◌, ◌/◌, ◌%◌, ◌^◌, ◌<◌}
use mathlib.Core.Path.{◌≡◌, refl, ap, ap₂, ◌∙◌}
use mathlib.Core.List.{[], ◌∷◌}
use native.Mathlib.Omega.{arith}
use native.Mathlib.Nat.{pow-succ'}
use theme_srv.Common.Lists.{Bytes, IsBytes, length}

abbrev pub u64_mod : ℕ
u64_mod = 2 ^ 64

-- (size_t)-1
abbrev pub size_max : ℕ
size_max = 2 ^ 64 - 1

abbrev pub add64 : ℕ → ℕ → ℕ
add64 a b = (a + b) % u64_mod

-- `b` is below 2^64.
abbrev pub sub64 : ℕ → ℕ → ℕ
sub64 a b = (a + u64_mod - b) % u64_mod

abbrev pub mul64 : ℕ → ℕ → ℕ
mul64 a b = a * b % u64_mod

-- The integer that a run of bytes stands for, least significant byte first.
unfoldable pub from_le : Bytes → ℕ
from_le [] = 0
from_le (b ∷ bs) = b + 256 * from_le bs

-- The `w` bytes of an integer, least significant byte first.
unfoldable pub to_le : ℕ → ℕ → Bytes
to_le zero v = []
to_le (suc w) v = v % 256 ∷ to_le w (v / 256)

pub length-to_le : (w v : ℕ) → length (to_le w v) ≡ w
unfolding to_le
length-to_le zero v = refl
length-to_le (suc w) v = ap suc (length-to_le w (v / 256))

pub to_le-IsBytes : (w v : ℕ) → IsBytes (to_le w v)
unfolding to_le
to_le-IsBytes zero v = tt
to_le-IsBytes (suc w) v = (omega arith, to_le-IsBytes w (v / 256))

pub to_le-from_le : (bs : Bytes) → IsBytes bs → to_le (length bs) (from_le bs) ≡ bs
unfolding to_le from_le
to_le-from_le [] h = refl
to_le-from_le (b ∷ bs) h =
    ap₂ ◌∷◌ (omega arith) (ap (to_le (length bs)) (omega arith) ∙ to_le-from_le bs h.1)

pub from_le-to_le : (w v : ℕ) → v < 256 ^ w → from_le (to_le w v) ≡ v
unfolding to_le from_le
from_le-to_le zero v h = omega arith
from_le-to_le (suc w) v h =
    let e : 256 ^ suc w ≡ 256 * 256 ^ w = pow-succ' 256 w in
    omega (arith, from_le-to_le w (v / 256) (omega arith))

pub from_le-lt : (bs : Bytes) → IsBytes bs → from_le bs < 256 ^ length bs
unfolding from_le
from_le-lt [] h = omega arith
from_le-lt (b ∷ bs) h =
    let e : 256 ^ suc (length bs) ≡ 256 * 256 ^ length bs = pow-succ' 256 (length bs) in
    omega (arith, from_le-lt bs h.1)
