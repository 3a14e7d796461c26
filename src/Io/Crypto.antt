-- ===== src/Io/Crypto.antt =====
-- src/io/uru_crypt.cpp: `make_server_key`. The big numbers of OpenSSL are a parameter.
use Prim.Native.Nat.{bit_xor}
use theme_srv.Common.{
  ℕ, ◌+◌, ◌^◌, ◌<◌, ◌≡◌, refl, Bool, true, false, List, [], ◌∷◌, Option, none, some, Bytes, length,
  read_at, ltb, if◌then◌else◌, ◌>>=◌,
}
pub mod Agreement
pub mod Keys

-- `BN_lebin2bn`, `BN_mod_exp` (base, exponent, modulus) and `BN_bn2lebinpad`.
pub record Bignums : Type 1 where
  pub Bn : Type 0
  pub lebin2bn : Bytes → Bn
  pub mod_exp : Bn → Bn → Bn → Bn
  pub bn2lebinpad : Bn → ℕ → Bytes

-- kKeySize
abbrev pub key_size : ℕ
key_size = 64

-- `key[i] = cli_seed[i] ^ srv_seed[i]` for each place of two buffers of one length
unfoldable pub xor_bytes : Bytes → Bytes → Bytes
xor_bytes [] ys = []
xor_bytes (x ∷ xs) [] = []
xor_bytes (x ∷ xs) (y ∷ ys) = bit_xor x y ∷ xor_bytes xs ys

-- What `make_server_key` gives where it does not trap: false, or the session key; `srv_seed` is
-- what `RAND_bytes` puts out, `keysz` bytes.
unfoldable pub make_server_key :
    (bn : Bignums) → bn.Bn → bn.Bn → ℕ → Bytes → Bytes → Option (Option Bytes)
unfolding xor_bytes
make_server_key bn k n cli_seedsz y_data srv_seed = do
  let made = do
    y ← read_at y_data 0 cli_seedsz
    front ← read_at (bn.bn2lebinpad (bn.mod_exp (bn.lebin2bn y) k n) key_size) 0 (length srv_seed)
    some (some (xor_bytes front srv_seed))
  if ltb cli_seedsz (length srv_seed) then some none else made
