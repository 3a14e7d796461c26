-- ===== src/Daemon/Gatekeeper/Image.antt =====
-- The reply with an address of src/daemon/gatekeeper.cpp as its handler builds it in memory, and its
-- bytes on the wire.
use theme_srv.Common.{
  ℕ, ◌+◌, ◌*◌, ◌^◌, ◌<◌, ◌≤◌, ◌≡◌, refl, sym, ap, ◌∙◌, inl, inr, List, [], ◌∷◌, ◌++◌, some, Bytes,
  IsBytes, length, take, drop, take-append-drop, length-take, length-drop, length-append, from_le,
  to_le, write_at, read_at, write_at-append, read_at-append, append_assoc, arith,
}
use theme_srv.Common.Words.{length-to_le, to_le-from_le, from_le-to_le}
use theme_srv.Protocol.Message.{IsMessage, fixed, counted}
use theme_srv.Protocol.Messages
use theme_srv.Protocol.GatekeeperId
use theme_srv.Protocol.Packed.{units, get_uint, set_uint, set_string_utf16}
use theme_srv.Protocol.Packed.Strings.{length-units, set_string_utf16_short}
use theme_srv.Daemon.Gatekeeper.{file_srv_reply}

-- A buffer cut into pieces of the given lengths and a rest.
abbrev Cut : List ℕ → Bytes → Type 0
Cut [] xs = Unit {0}
Cut (l ∷ ls) xs = (ys : Bytes) × (zs : Bytes) × (xs ≡ ys ++ zs) × (length ys ≡ l) × Cut ls zs

abbrev sum : List ℕ → ℕ
sum [] = 0
sum (l ∷ ls) = l + sum ls

cut : (ls : List ℕ) (xs : Bytes) → sum ls ≤ length xs → Cut ls xs
cut [] xs h = tt
cut (l ∷ ls) xs h =
    let t = length-take l xs in
    let d = length-drop l xs in
    (
      take l xs,
      drop l xs,
      sym (take-append-drop l xs),
      omega arith,
      cut ls (drop l xs) (omega arith),
    )

-- A reply with an address, as it is on the wire before encryption.
abbrev pub address_reply : ℕ → Bytes → List ℕ → Bytes
address_reply type trans address =
    to_le 2 type ++ (trans ++ (to_le 2 (length address) ++ units address))

flat : (h t n u r : Bytes) → (h ++ t) ++ (n ++ (u ++ r)) ≡ (h ++ (t ++ (n ++ u))) ++ r
flat h t n u r = simp append_assoc

file_srv_reply_pieces :
    (a b c d z post t trans r : Bytes) (address : List ℕ)
    → length a ≡ 2
    → length b ≡ 4
    → length c ≡ 2
    → length d ≡ 2 * length address
    → length z ≡ 2
    → length t ≡ 2
    → length trans ≡ 4
    → IsBytes trans
    → length address < 24
    → file_srv_reply (a ++ (b ++ (c ++ (d ++ (z ++ post))))) (t ++ (trans ++ r)) address
      ≡ some (address_reply GatekeeperId.file_srv_reply trans address ++ (to_le 2 0 ++ post))
unfolding file_srv_reply get_uint set_uint
file_srv_reply_pieces a b c d z post t trans r address la lb lc ld lz ht htr bytes short =
    let h = to_le 2 GatekeeperId.file_srv_reply in
    let hl : length h ≡ 2 = length-to_le 2 1 in
    let joined : length (h ++ trans) ≡ 6 = omega (arith, length-append h trans) in
    let one = write_at-append [] a (b ++ (c ++ (d ++ (z ++ post)))) h (omega arith) in
    let got : read_at (t ++ (trans ++ r)) 2 4 ≡ some trans =
      rw (ht, htr) at (read_at-append t trans r) in
    let back : to_le 4 (from_le trans) ≡ trans = rw htr at (to_le-from_le trans bytes) in
    let two : write_at (h ++ (b ++ (c ++ (d ++ (z ++ post))))) 2 trans
        ≡ some (h ++ (trans ++ (c ++ (d ++ (z ++ post))))) =
      rw hl at (write_at-append h b (c ++ (d ++ (z ++ post))) trans (omega arith)) in
    let three : set_string_utf16 (h ++ (trans ++ (c ++ (d ++ (z ++ post))))) 6 24 address
        ≡ some (address_reply GatekeeperId.file_srv_reply trans address ++ (to_le 2 0 ++ post)) =
      rw (← append_assoc h trans (c ++ (d ++ (z ++ post)))) (
        (rw joined at (set_string_utf16_short (h ++ trans) c d z post 24 address lc ld lz short))
        ∙ ap some (flat h trans (to_le 2 (length address)) (units address) (to_le 2 0 ++ post))) in
    simp (one, got, back, two, three)

reply_in-Cut :
    (stack t trans r : Bytes) (address : List ℕ)
    → Cut (2 ∷ 4 ∷ 2 ∷ 2 * length address ∷ 2 ∷ []) stack
    → length t ≡ 2
    → length trans ≡ 4
    → IsBytes trans
    → length address < 24
    → (rest : Bytes) × (file_srv_reply stack (t ++ (trans ++ r)) address
        ≡ some (address_reply GatekeeperId.file_srv_reply trans address ++ rest))
reply_in-Cut stack t trans r address
      (a, s₁, e₁, la, (b, s₂, e₂, lb, (c, s₃, e₃, lc, (d, s₄, e₄, ld, (z, s₅, e₅, lz, u))))) ht htr
      bytes short =
    (
      to_le 2 0 ++ s₅,
      rw (e₁, e₂, e₃, e₄, e₅)
          (file_srv_reply_pieces a b c d z s₅ t trans r address la lb lc ld lz ht htr bytes short),
    )

-- The reply that is built does not depend on what was on the stack.
pub file_srv_reply_image :
    (stack t trans r : Bytes) (address : List ℕ)
    → length stack ≡ 56
    → length t ≡ 2
    → length trans ≡ 4
    → IsBytes trans
    → length address < 24
    → (rest : Bytes) × (file_srv_reply stack (t ++ (trans ++ r)) address
        ≡ some (address_reply GatekeeperId.file_srv_reply trans address ++ rest))
file_srv_reply_image stack t trans r address whole ht htr bytes short =
    reply_in-Cut stack t trans r address
      (cut (2 ∷ 4 ∷ 2 ∷ 2 * length address ∷ 2 ∷ []) stack (omega arith)) ht htr bytes short

-- The wire format allows the reply.
pub address_reply-IsMessage :
    (type : ℕ) (trans : Bytes) (address : List ℕ)
    → length trans ≡ 4
    → length address < 24
    → IsMessage (Messages.file_srv_reply.fields) (address_reply type trans address)
address_reply-IsMessage type trans address htr short =
    fixed (to_le 2 type) refl (omega arith) (length-to_le 2 type) (
      fixed trans refl (omega arith) htr (
        counted (to_le 2 (length address)) (units address)
          (record {
            size_type = refl;
            size_count = refl;
            width = inr (inl refl);
            varies = refl;
            divides = refl;
            small = omega arith;
            length_is = length-to_le 2 (length address);
            value_is = from_le-to_le 2 (length address) (omega arith) ∙ omega arith;
            within = omega arith;
          })
          (length-units address)))

pub length-address_reply :
    (type : ℕ) (trans : Bytes) (address : List ℕ)
    → length trans ≡ 4
    → length address < 24
    → length (address_reply type trans address) < 2 ^ 31
length-address_reply type trans address htr short = omega (
  arith,
  length-append (to_le 2 type) (trans ++ (to_le 2 (length address) ++ units address)),
  length-append trans (to_le 2 (length address) ++ units address),
  length-append (to_le 2 (length address)) (units address),
  length-to_le 2 type,
  length-to_le 2 (length address),
  length-units address,
)
