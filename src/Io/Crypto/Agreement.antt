-- ===== src/Io/Crypto/Agreement.antt =====
-- The two ends of the key agreement of src/io/uru_crypt.cpp, the client's by the protocol.
use theme_srv.Common.{Bytes, length, take}
use theme_srv.Io.Crypto.{Bignums, key_size, xor_bytes}

-- The key that a client derives which knows the server's public number `x`, the modulus and its own
-- exponent `b`: the front of x^b mod n, combined with the server's seed.
abbrev pub client_key : (bn : Bignums) → bn.Bn → bn.Bn → bn.Bn → Bytes → Bytes
client_key bn x b n srv_seed =
    xor_bytes (take (length srv_seed) (bn.bn2lebinpad (bn.mod_exp x b n) key_size)) srv_seed
