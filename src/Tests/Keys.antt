-- ===== src/Tests/Keys.antt =====
-- Keys of which the numbers are small and base64 raises each byte.
use theme_srv.Common.{
  ℕ, ◌+◌, ◌-◌, map, Bytes, ap, ◌∙◌, ◌≡◌, refl, some, [], ◌∷◌, ◌++◌, replicate, length, drop, arith,
}
use theme_srv.Core.Text.{codes}
use theme_srv.Core.Config.Lines.{lines}
use theme_srv.Io.Crypto.Keys.{
  KeyTools, IsKeyTools, KeyTexts, KeyStack, Finds, generate_keys, load_key, load_key-generate_keys,
}
use theme_srv.Daemon.Server.{open_server}
use theme_srv.Daemon.Server.Keys.{Agrees, generate_daemon_keys-Agrees}
use theme_srv.Tests.{small_numbers}
use theme_srv.Tests.Settings.{plain, first}

-- Bytes that have no meaning in a text
abbrev pub raised : Bytes → Bytes
raised bs = map (λ b. b + 128) bs

abbrev lowered_back : Bytes → Bytes
lowered_back bs = map (λ b. b - 128) bs

lowered_back-raised : (bs : Bytes) → lowered_back (raised bs) ≡ bs
lowered_back-raised [] = refl
lowered_back-raised (b ∷ bs) =
    let e : b + 128 - 128 ≡ b = omega arith in
    ap (λ t. (b + 128 - 128) ∷ t) (lowered_back-raised bs) ∙ ap (λ c. c ∷ bs) e

abbrev pub tools : KeyTools small_numbers
tools = record {
  prime_k = some 3;
  prime_n = some 5;
  set_word = λ g. g;
  bn2bin = λ v. v ∷ replicate 63 0;
  bin2bn = first;
  base64_encode = raised;
  base64_decode = λ t. some (lowered_back t);
}

pub tools-IsKeyTools : IsKeyTools tools
tools-IsKeyTools = record {
  bin2bn-bn2bin = λ b. refl;
  base64_decode-base64_encode = λ bs. ap some (lowered_back-raised bs);
  base64_decode-nil = refl;
}

abbrev pub arrays : KeyStack
arrays = record { k_key = replicate 64 1; n_key = replicate 64 2; x_key = replicate 64 3 }

pub three-Finds : Finds tools arrays 3 5
three-Finds = record {
  prime_k_is = refl;
  prime_n_is = refl;
  k_key_is = refl;
  n_key_is = refl;
  x_key_is = refl;
  k_is_long = refl;
  n_is_long = refl;
  x_fits = λ g. omega arith;
}

load_key-generate_keys_example :
    (made : KeyTexts) × (generate_keys tools arrays 4 ≡ some made)
    × (load_key tools made.k ≡ some 3)
    × (load_key tools made.n ≡ some 5)
    × (load_key tools made.x
        ≡ some (
            first (
              (12 ∷ replicate 63 0)
              ++ drop (length {A = ℕ} (12 ∷ replicate 63 0)) (replicate 64 3))))
load_key-generate_keys_example =
    load_key-generate_keys tools tools-IsKeyTools arrays 4 3 5 three-Finds

generate_daemon_keys-Agrees_example :
    Agrees plain
      (λ t. refl)
      tools
      arrays
      arrays
      3
      5
      (open_server plain (lines (codes "[gate]" ∷ []))).conf
generate_daemon_keys-Agrees_example =
    generate_daemon_keys-Agrees plain (λ t. refl) tools arrays arrays 3 5 tools-IsKeyTools
      three-Finds (lines (codes "[gate]" ∷ []))
