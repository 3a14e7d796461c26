-- ===== src/Protocol/Print.antt =====
-- src/protocol/net_struct.cpp: `net_struct_print` and `net_msg_print`, what they put on the stream. The
-- text of a pointer and the text form of an identifier are a parameter.
use theme_srv.Common.{
  ℕ, zero, ◌+◌, ◌^◌, ◌<◌, ◌≡◌, refl, ap, sym, ◌∙◌, append_assoc, ◌||◌, Option, none, some, List, [],
  ◌∷◌, ◌++◌, Bytes, ◌==◌, if◌then◌else◌, read_at, from_le, add64, mul64, ◌>>=◌, arith,
}
use theme_srv.Core.Text.{Text, codes, digits}
use theme_srv.Protocol.NetStruct.{
  DataType, integer, uuid, blob, buffer_size, string_utf16, buffer, buffer_redundant, NetField,
  NetStruct, size, get_data_type_str, field_sz, total_sz,
}

-- `<<` of a `char16_t*`, which prints the address (here the place in the message), and
-- `uuid::as_string`.
pub record Shows : Type 0 where
  pub pointer : ℕ → Text
  pub unparse : Bytes → Text

-- The lines of `net_struct_print` for a field
abbrev pub struct_field : NetField → Text
struct_field f =
    codes "    -> "
    ++ (codes f.name
        ++ (codes " " ++ (codes "[TYPE: '" ++ (codes (get_data_type_str f.type) ++ codes "'] \n"))))

abbrev pub struct_fields : List NetField → Text
struct_fields [] = []
struct_fields (f ∷ fs) = struct_field f ++ struct_fields fs

-- The name and the number of fields, in both functions
abbrev pub print_head : NetStruct → Text
print_head ns =
    codes "    Name: '"
    ++ (codes ns.name ++ (codes "'\n    Field(s): " ++ (digits 20 (size ns) ++ codes "\n")))

unfoldable pub net_struct_print : NetStruct → Text
net_struct_print ns =
    codes "--- BEGIN NETSTRUCT ---\n"
    ++ (print_head ns ++ (struct_fields ns.fields ++ codes "--- END   NETSTRUCT ---\n"))

module _ (shows : Shows) where
  -- The inner `switch`: an element size that is none of these is a failed assertion.
  unfoldable pub print_integer : ℕ → Bytes → ℕ → Option Text
  print_integer elementsz buf offset =
      if elementsz == 1 || (elementsz == 2 || (elementsz == 4 || elementsz == 8))
      then (do
        bs ← read_at buf offset elementsz
        some (codes "        - DATA: " ++ (digits 20 (from_le bs) ++ codes "\n")))
      else none

  abbrev pub print_string : ℕ → Text
  print_string offset = codes "        - DATA: '" ++ (shows.pointer offset ++ codes "'\n")

  unfoldable pub print_uuid : Bytes → ℕ → Option Text
  print_uuid buf offset = do
    bs ← read_at buf offset 16
    some (codes "        - DATA: '" ++ (shows.unparse bs ++ codes "'\n"))

  -- The outer `switch`, in which three types have no case.
  unfoldable pub print_value : DataType → ℕ → Bytes → ℕ → Option Text
  unfolding print_integer print_uuid
  print_value integer elementsz buf offset = print_integer elementsz buf offset
  print_value buffer_size elementsz buf offset = print_integer elementsz buf offset
  print_value string_utf16 elementsz buf offset = some (print_string offset)
  print_value uuid elementsz buf offset = print_uuid buf offset
  print_value blob elementsz buf offset = some []
  print_value buffer elementsz buf offset = some []
  print_value buffer_redundant elementsz buf offset = some []

  abbrev pub field_head : NetField → Text
  field_head f =
      codes "    -> "
      ++ (codes f.name
          ++ (codes "\n        - TYPE: '" ++ (codes (get_data_type_str f.type) ++ codes "'\n")))

  -- The loop, from a field at an offset on
  unfoldable pub print_fields : List NetField → Bytes → ℕ → Option Text
  print_fields [] buf offset = some []
  print_fields (f ∷ fs) buf offset = do
    value ← print_value f.type f.elementsz buf offset
    rest ← print_fields fs buf (add64 offset (mul64 f.elementsz f.count))
    some (field_head f ++ (value ++ rest))

  -- `none` is a failed assertion, or a read outside the message.
  unfoldable pub net_msg_print : NetStruct → Bytes → Option Text
  net_msg_print ns buf = do
    fields ← print_fields ns.fields buf 0
    some (
        codes "--- BEGIN NETMSG ---\n"
        ++ (print_head ns ++ (fields ++ codes "--- END   NETMSG ---\n")))

  regroup :
      (head : Text) (value front back : Option Text)
      → (value >>= λ v.
          ((front >>= λ a. (back >>= λ b. some (a ++ b))) >>= λ rest. some (head ++ (v ++ rest))))
        ≡ ((value >>= λ v. (front >>= λ rest. some (head ++ (v ++ rest)))) >>= λ a.
            (back >>= λ b. some (a ++ b)))
  regroup head none front back = refl
  regroup head (some v) none back = refl
  regroup head (some v) (some a) none = refl
  regroup head (some v) (some a) (some b) =
      ap some (sym (append_assoc head (v ++ a) b ∙ ap (◌++◌ head) (append_assoc v a b)))

  -- Behind some fields, the loop stands where the next one is in memory.
  pub print_fields-append :
      (fs more : List NetField) (buf : Bytes) (offset : ℕ)
      → offset + total_sz fs < 2 ^ 64
      → print_fields (fs ++ more) buf offset ≡ (
          print_fields fs buf offset >>= λ front.
          (print_fields more buf (offset + total_sz fs) >>= λ back. some (front ++ back)))
  unfolding print_fields
  print_fields-append [] more buf offset h =
      let e : offset + zero ≡ offset = omega arith in rw e (go (print_fields more buf offset))
    where
      go : (o : Option Text) → o ≡ (o >>= λ back. some back)
      go none = refl
      go (some t) = refl
  print_fields-append (f ∷ fs) more buf offset h =
      let at = add64 offset (mul64 f.elementsz f.count) in
      let place : at ≡ offset + field_sz f = omega arith in
      let there : at + total_sz fs ≡ offset + total_sz (f ∷ fs) = omega arith in
      let value = print_value f.type f.elementsz buf offset in
      ap (λ o. value >>= λ v. (o >>= λ rest. some (field_head f ++ (v ++ rest))))
        (print_fields-append fs more buf at (omega arith))
      ∙ (regroup (field_head f) value (print_fields fs buf at)
            (print_fields more buf (at + total_sz fs))
          ∙ ap
              (λ k.
                (value >>= λ v.
                (print_fields fs buf at >>= λ rest. some (field_head f ++ (v ++ rest))))
                >>= λ front. (print_fields more buf k >>= λ back. some (front ++ back)))
              there)
