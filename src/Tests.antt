-- ===== src/Tests.antt =====
-- Runs at concrete inputs. The cipher of the tests passes its input on and counts the bytes.
pub mod Sending
pub mod Receiving
pub mod Serving
pub mod Tables
pub mod Waiting
pub mod Announcing
pub mod Requests
pub mod Settings
pub mod Printing
pub mod Saying
pub mod Keys
pub mod Accepting
pub mod Segmented
pub mod Restarting
use theme_srv.Common.{
  ℕ, ◌+◌, ◌*◌, ◌≡◌, refl, sym, ap, ◌∙◌, false, List, [], ◌∷◌, Bytes, length, length-append, arith,
  replicate, none, some, append_assoc,
}
use theme_srv.Io.Cipher.{Cipher, IsStream}
use theme_srv.Io.Socket.{Socket, Arrival, Accept, segment, takes}
use theme_srv.Io.ClientBase.{ClientBase, blank_read}
use theme_srv.Io.Crypto.{Bignums}
use theme_srv.Daemon.Client.{Client, Site, incoming}

abbrev pub counting : Cipher
counting = record {
  Ctx = ℕ;
  enc_null = 0;
  rc4 = λ key. 1000;
  update = λ c xs. xs;
  advance = λ c xs. c + length {A = ℕ} xs;
}

pub counting-IsStream : IsStream counting
counting-IsStream = record {
  length-update = λ c xs. refl;
  update-append = λ c xs ys. refl;
  advance-nil = λ c. omega arith;
  advance-append = λ c xs ys. omega (arith, length-append xs ys);
}

-- A server's connection on which `arrivals` come in and every write takes three bytes.
abbrev pub connected : List Arrival → ClientBase counting
connected arrivals = record {
  socket = record {
    arrivals = arrivals;
    accepts = takes 3 ∷ takes 3 ∷ takes 3 ∷ [];
    sent = [];
    is_shutdown = false;
  };
  reading = blank_read;
  writes = [];
  encrypt = 0;
  decrypt = 0;
}

abbrev pub newcomer : List Arrival → Client counting
newcomer arrivals = record {
  base = connected arrivals;
  is_polling = false;
  is_encrypted = false;
  want_client_seed = false;
  want_msg_header = false;
  handler = incoming;
}

-- Numbers in place of big ones, and a power as small as it gets.
abbrev pub small_numbers : Bignums
small_numbers = record {
  Bn = ℕ;
  lebin2bn = λ bs. length {A = ℕ} bs;
  mod_exp = λ b e n. b * e;
  bn2lebinpad = λ v w. replicate w v;
}

abbrev pub gate : Site small_numbers
gate = record {
  authsrv = 49 ∷ 50 ∷ [];
  filesrv = 51 ∷ [];
  key_k = 3;
  key_n = 5;
  allow_decrypted = false;
  random = 1 ∷ 2 ∷ 3 ∷ 4 ∷ 5 ∷ 6 ∷ 7 ∷ [];
  stack = replicate 56 170;
}
