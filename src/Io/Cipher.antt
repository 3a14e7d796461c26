-- ===== src/Io/Cipher.antt =====
-- The stream ciphers of OpenSSL that src/io/client_base.cpp uses: `EVP_enc_null` and `EVP_rc4`.
-- Both are parameters; what the code relies on is that a cipher works byte by byte.
use theme_srv.Common.{[], Bytes, length, ◌≡◌, ◌++◌}

-- The context of a cipher, the contexts that the two initialisers leave, and
-- `EVP_EncryptUpdate` (or `EVP_DecryptUpdate`): the bytes put out and the context left.
pub record Cipher : Type 1 where
  pub Ctx : Type 0
  pub enc_null : Ctx
  pub rc4 : Bytes → Ctx
  pub update : Ctx → Bytes → Bytes
  pub advance : Ctx → Bytes → Ctx

-- A stream cipher: it puts out as many bytes as it takes in, and how the data is cut into calls
-- makes no difference.
pub record IsStream (ev : Cipher) : Type 0 where
  pub length-update : (c : ev.Ctx) (xs : Bytes) → length (ev.update c xs) ≡ length xs
  pub update-append :
      (c : ev.Ctx) (xs ys : Bytes)
      → ev.update c (xs ++ ys) ≡ ev.update c xs ++ ev.update (ev.advance c xs) ys
  pub advance-nil : (c : ev.Ctx) → ev.advance c [] ≡ c
  pub advance-append :
      (c : ev.Ctx) (xs ys : Bytes) → ev.advance c (xs ++ ys) ≡ ev.advance (ev.advance c xs) ys
