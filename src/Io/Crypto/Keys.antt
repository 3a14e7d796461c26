-- ===== src/Io/Crypto/Keys.antt =====
-- The keys of src/io/uru_crypt.cpp: `generate_keys`, `load_key` and `load_keys`. The prime numbers
-- that OpenSSL finds, its conversions, and base64 are a parameter.
use theme_srv.Common.{
  ℕ, ◌≤◌, ◌≡◌, refl, Bool, true, false, ◌||◌, Option, none, some, [], ◌∷◌, ◌++◌, Bytes, length,
  drop, write_at, ◌==◌, if◌then◌else◌, ◌>>=◌, ◌>>◌, assertd, append-nil, write_at-append, take,
  take-append-drop, length-append, length-take, length-drop, arith, sym, ap, ◌∙◌, ==_iff,
}
use theme_srv.Core.Text.{Text, StringTheory, codes}
use theme_srv.Core.Config.{ConfigMap, get_string, get_uint}
use theme_srv.Io.Crypto.{Bignums, key_size}

-- `prime_k` and `prime_n` are what `BN_generate_prime_ex` finds, none if it fails; the rest are
-- `BN_set_word`, `BN_bn2bin`, `BN_bin2bn` and `ST::base64_encode`, and `ST::base64_decode`, none
-- for what is no base64.
pub record KeyTools (bn : Bignums) : Type 0 where
  pub prime_k : Option bn.Bn
  pub prime_n : Option bn.Bn
  pub set_word : ℕ → bn.Bn
  pub bn2bin : bn.Bn → Bytes
  pub bin2bn : Bytes → bn.Bn
  pub base64_encode : Bytes → Text
  pub base64_decode : Text → Option Bytes

pub record IsKeyTools {bn : Bignums} (tools : KeyTools bn) : Type 0 where
  pub bin2bn-bn2bin : (b : bn.Bn) → tools.bin2bn (tools.bn2bin b) ≡ b
  pub base64_decode-base64_encode :
      (bs : Bytes) → tools.base64_decode (tools.base64_encode bs) ≡ some bs
  pub base64_decode-nil : tools.base64_decode [] ≡ some []

pub record KeyTexts : Type 0 where
  pub k : Text
  pub n : Text
  pub x : Text

-- The three arrays as they are on the stack before.
pub record KeyStack : Type 0 where
  pub k_key : Bytes
  pub n_key : Bytes
  pub x_key : Bytes

-- OpenSSL finds the primes `k` and `n`, of 512 bits each, and a power modulo `n` is no longer; the
-- arrays are as long as they are declared.
pub record Finds {bn : Bignums} (tools : KeyTools bn) (stack : KeyStack) (k n : bn.Bn)
    : Type 0 where
  pub prime_k_is : tools.prime_k ≡ some k
  pub prime_n_is : tools.prime_n ≡ some n
  pub k_key_is : length stack.k_key ≡ key_size
  pub n_key_is : length stack.n_key ≡ key_size
  pub x_key_is : length stack.x_key ≡ key_size
  pub k_is_long : length (tools.bn2bin k) ≡ key_size
  pub n_is_long : length (tools.bn2bin n) ≡ key_size
  pub x_fits : (g : ℕ) → length (tools.bn2bin (bn.mod_exp (tools.set_word g) k n)) ≤ key_size

is_empty : Text → Bool
is_empty [] = true
is_empty (c ∷ cs) = false

module _ {bn : Bignums} (tools : KeyTools bn) where
  -- `none` is a failed assertion, or a write past an array.
  unfoldable pub generate_keys : KeyStack → ℕ → Option KeyTexts
  generate_keys stack g_value = do
    k ← tools.prime_k
    n ← tools.prime_n
    let x = bn.mod_exp (tools.set_word g_value) k n
    k_key ← write_at stack.k_key 0 (tools.bn2bin k)
    n_key ← write_at stack.n_key 0 (tools.bn2bin n)
    x_key ← write_at stack.x_key 0 (tools.bn2bin x)
    some (record {
      k = tools.base64_encode k_key;
      n = tools.base64_encode n_key;
      x = tools.base64_encode x_key;
    })

  unfoldable pub load_key : Text → Option bn.Bn
  load_key key = do
    key_bytes ← tools.base64_decode key
    assertd (length key_bytes == key_size)
    some (tools.bin2bn key_bytes)

  unfoldable pub load_keys :
      (st : StringTheory) → KeyStack → ConfigMap → Text → Option (Bool × bn.Bn × bn.Bn)
  unfolding is_empty
  load_keys st stack config section = do
    kstr ← get_string st config section (codes "crypt_k")
    nstr ← get_string st config section (codes "crypt_n")
    let missing = is_empty kstr || is_empty nstr
    let generated = do
      g ← get_uint st config section (codes "crypt_g")
      made ← generate_keys stack g
      k ← load_key made.k
      n ← load_key made.n
      some (false, k, n)
    let configured = do k ← load_key kstr; n ← load_key nstr; some (true, k, n)
    if missing then generated else configured

  module _ (law : IsKeyTools tools) where
    write_at_start :
        (old bs : Bytes)
        → length bs ≤ length old
        → write_at old 0 bs ≡ some (bs ++ drop (length bs) old)
    write_at_start old bs h =
        let halves = take-append-drop (length bs) old in
        let fits : length bs ≡ length (take (length bs) old) =
          omega (arith, length-take (length bs) old) in
        ap (λ z. write_at z 0 bs) (sym halves)
        ∙ write_at-append [] (take (length bs) old) (drop (length bs) old) bs fits

    load_key-base64_encode :
        (bs : Bytes)
        → length bs ≡ key_size
        → load_key (tools.base64_encode bs) ≡ some (tools.bin2bn bs)
    unfolding load_key
    load_key-base64_encode bs h =
        let e : (length bs == key_size) ≡ true = (==_iff (length bs) key_size).1 h in
        rw (law.base64_decode-base64_encode bs, e) refl

    drop_all : (bs : Bytes) → drop (length bs) bs ≡ []
    drop_all [] = refl
    drop_all (b ∷ bs) = drop_all bs

    drop_same : (old bs : Bytes) → length bs ≡ length old → bs ++ drop (length bs) old ≡ bs
    drop_same old bs h = rw (h, drop_all old) (append-nil bs)

    -- Suppose that OpenSSL finds primes `k` and `n` of 64 bytes, that a power modulo `n` has at
    -- most 64, and that numbers and base64 are read back as they are written. The keys are
    -- generated; `k` and `n` are loaded as they were found, and the shared key is loaded as its
    -- bytes followed by what stood behind them in the array.
    pub load_key-generate_keys :
        (stack : KeyStack) (g : ℕ) (k n : bn.Bn)
        → Finds tools stack k n
        → (made : KeyTexts) × (generate_keys stack g ≡ some made)
          × (load_key made.k ≡ some k)
          × (load_key made.n ≡ some n)
          × (load_key made.x
              ≡ some (
                  tools.bin2bn (
                    tools.bn2bin (bn.mod_exp (tools.set_word g) k n)
                    ++ drop
                        (length (tools.bn2bin (bn.mod_exp (tools.set_word g) k n)))
                        stack.x_key)))
    unfolding generate_keys
    load_key-generate_keys stack g k n f =
        let x_bytes = tools.bn2bin (bn.mod_exp (tools.set_word g) k n) in
        let x_key = x_bytes ++ drop (length x_bytes) stack.x_key in
        let full : length x_key ≡ key_size = omega (
          arith,
          f.x_key_is,
          f.x_fits g,
          length-append x_bytes (drop (length x_bytes) stack.x_key),
          length-drop (length x_bytes) stack.x_key,
        ) in
        (
          record {
            k = tools.base64_encode (tools.bn2bin k);
            n = tools.base64_encode (tools.bn2bin n);
            x = tools.base64_encode x_key;
          },
          rw
              (
                f.prime_k_is,
                f.prime_n_is,
                write_at_start stack.k_key (tools.bn2bin k)
                    (omega (arith, f.k_key_is, f.k_is_long)),
                write_at_start stack.n_key (tools.bn2bin n)
                    (omega (arith, f.n_key_is, f.n_is_long)),
                write_at_start stack.x_key x_bytes (omega (arith, f.x_key_is, f.x_fits g)),
                drop_same stack.k_key (tools.bn2bin k) (omega (arith, f.k_key_is, f.k_is_long)),
                drop_same stack.n_key (tools.bn2bin n) (omega (arith, f.n_key_is, f.n_is_long)),
              )
              refl,
          rw (load_key-base64_encode (tools.bn2bin k) f.k_is_long) (ap some (law.bin2bn-bn2bin k)),
          rw (load_key-base64_encode (tools.bn2bin n) f.n_is_long) (ap some (law.bin2bn-bn2bin n)),
          load_key-base64_encode x_key full,
        )

    -- A key that loads is not the empty text.
    pub load_key-nil : load_key [] ≡ none
    unfolding load_key
    load_key-nil = rw law.base64_decode-nil refl

    is_empty-load_key : (t : Text) (b : bn.Bn) → load_key t ≡ some b → is_empty t ≡ false
    unfolding is_empty
    is_empty-load_key [] b h = absurd (let z : none ≡ some b = sym load_key-nil ∙ h in cc)
    is_empty-load_key (c ∷ cs) b h = refl

    pub load_keys-load_key :
        (st : StringTheory) (stack : KeyStack) (config : ConfigMap) (section kstr nstr : Text)
        (k n : bn.Bn)
        → get_string st config section (codes "crypt_k") ≡ some kstr
        → get_string st config section (codes "crypt_n") ≡ some nstr
        → load_key kstr ≡ some k
        → load_key nstr ≡ some n
        → load_keys st stack config section ≡ some (true, k, n)
    unfolding load_keys
    load_keys-load_key st stack config section kstr nstr k n k_is n_is hk hn =
        rw (k_is, n_is, is_empty-load_key kstr k hk, is_empty-load_key nstr n hn, hk, hn) refl
