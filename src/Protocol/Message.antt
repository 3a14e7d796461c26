-- ===== src/Protocol/Message.antt =====
-- The wire format as a grammar, apart from the code: which runs of bytes are one whole message of
-- a structure. A structure is a row of fixed fields; the last may instead vary, behind its size.
use native.Mathlib.Nat.{mul-le-mul_left}
use theme_srv.Common.{
  ℕ, ◌+◌, ◌*◌, ◌/◌, ◌%◌, ◌^◌, ◌≤◌, ◌<◌, ◌≡◌, refl, sym, ap, ◌∙◌, ◌⊎◌, inl, inr, true, false, List,
  [], ◌∷◌, ◌++◌, Bytes, length, from_le, if◌then◌else◌, arith, append-nil, append_assoc,
  length-append, length-take, length-drop, take, drop, take-append-drop, length_zero, subst,
}
use theme_srv.Protocol.NetStruct.{buffer_size, NetField, is_fixed, is_redundant, field_sz}

-- By how many elements the size of a redundant buffer exceeds its contents.
abbrev pub excess : NetField → NetField → ℕ
excess s v = if is_redundant v.type then s.elementsz / v.elementsz else 0

-- The bytes `b` of the size field `s` announce `n` elements of the field `v`.
pub record Announces (s v : NetField) (b : Bytes) (n : ℕ) : Type 0 where
  pub size_type : s.type ≡ buffer_size
  pub size_count : s.count ≡ 1
  pub width : (s.elementsz ≡ 1) ⊎ (s.elementsz ≡ 2) ⊎ (s.elementsz ≡ 4) ⊎ (s.elementsz ≡ 8)
  pub varies : is_fixed v.type ≡ false
  pub divides : s.elementsz % v.elementsz ≡ 0
  pub small : v.elementsz < 2 ^ 32
  pub length_is : length b ≡ s.elementsz
  pub value_is : from_le b ≡ n + excess s v
  pub within : n ≤ 1024

pub data IsMessage : List NetField → Bytes → Type 0 where
  nil : IsMessage [] []
  fixed :
      {f : NetField} {fs : List NetField} (b : Bytes) {bs : Bytes}
      → is_fixed f.type ≡ true
      → field_sz f < 2 ^ 32
      → length b ≡ field_sz f
      → IsMessage fs bs
      → IsMessage (f ∷ fs) (b ++ bs)
  counted :
      {s v : NetField} (b bs : Bytes) {n : ℕ}
      → Announces s v b n
      → length bs ≡ v.elementsz * n
      → IsMessage (s ∷ v ∷ []) (b ++ bs)

-- The most bytes that fields can have.
abbrev pub most : List NetField → ℕ
most [] = 0
most (f ∷ fs) = (if is_fixed f.type then field_sz f else f.elementsz * 1024) + most fs

pub IsMessage-length : {fs : List NetField} {m : Bytes} → IsMessage fs m → length m ≤ most fs
IsMessage-length nil = omega arith
IsMessage-length (fixed {f} {fs} b {bs} fx small len later) =
    let rest = IsMessage-length later in rw fx (omega (arith, length-append b bs))
IsMessage-length (counted {s} {v} b bs {n} a len) =
    let fx : is_fixed s.type ≡ true = ap is_fixed a.size_type in
    let one : field_sz s ≡ s.elementsz = ap (λ k. s.elementsz * k) a.size_count ∙ omega arith in
    let less : v.elementsz * n ≤ v.elementsz * 1024 = mul-le-mul_left v.elementsz a.within in
    rw (fx, a.varies) (omega (arith, length-append b bs, a.length_is))

-- A row of whole fixed fields, and its bytes.
pub data IsFixedRun : List NetField → Bytes → Type 0 where
  nil : IsFixedRun [] []
  cons :
      {f : NetField} {fs : List NetField} (b : Bytes) {bs : Bytes}
      → is_fixed f.type ≡ true
      → field_sz f < 2 ^ 32
      → length b ≡ field_sz f
      → IsFixedRun fs bs
      → IsFixedRun (f ∷ fs) (b ++ bs)

pub IsFixedRun-append :
    {xs ys : List NetField} {a b : Bytes}
    → IsFixedRun xs a
    → IsFixedRun ys b
    → IsFixedRun (xs ++ ys) (a ++ b)
IsFixedRun-append nil k = k
IsFixedRun-append {ys = ys} {b = b} (cons {f} {fs} c {bs} fx small len later) k =
    rw (append_assoc c bs b) (cons c fx small len (IsFixedRun-append later k))

-- Only the sizes matter.
pub IsFixedRun-length :
    {fs : List NetField} {a : Bytes} (b : Bytes)
    → IsFixedRun fs a
    → length b ≡ length a
    → IsFixedRun fs b
IsFixedRun-length b nil h = rw (length_zero b h) nil
IsFixedRun-length b (cons {f} {fs} c {bs} fx small len later) h =
    let n = length c in
    let sum = length-append c bs in
    let front : length (take n b) ≡ field_sz f = omega (arith, length-take n b) in
    let back : length (drop n b) ≡ length bs = omega (arith, length-drop n b) in
    subst (IsFixedRun (f ∷ fs)) (take-append-drop n b)
      (cons (take n b) fx small front (IsFixedRun-length (drop n b) later back))

-- Fixed fields in front of a message make a message.
pub IsMessage-append :
    {xs ys : List NetField} {a b : Bytes}
    → IsFixedRun xs a
    → IsMessage ys b
    → IsMessage (xs ++ ys) (a ++ b)
IsMessage-append nil k = k
IsMessage-append {ys = ys} {b = b} (cons {f} {fs} c {bs} fx small len later) k =
    rw (append_assoc c bs b) (fixed c fx small len (IsMessage-append later k))

-- A size field is fixed.
pub size-IsFixedRun :
    (s : NetField) (b : Bytes)
    → s.type ≡ buffer_size
    → s.count ≡ 1
    → (s.elementsz ≡ 1) ⊎ (s.elementsz ≡ 2) ⊎ (s.elementsz ≡ 4) ⊎ (s.elementsz ≡ 8)
    → length b ≡ s.elementsz
    → IsFixedRun (s ∷ []) b
size-IsFixedRun s b typed counted_once width len =
    let one : field_sz s ≡ length b = ap (λ k. s.elementsz * k) counted_once ∙ omega (arith, len) in
    let fx : is_fixed s.type ≡ true = ap is_fixed typed in
    let all : IsFixedRun (s ∷ []) (b ++ []) = cons b fx (ground (arith, width)) (sym one) nil in
    rw append-nil at all

-- The size field that announces a varying one is fixed.
pub Announces-IsFixedRun :
    (s v : NetField) (b : Bytes) (n : ℕ) → Announces s v b n → IsFixedRun (s ∷ []) b
Announces-IsFixedRun s v b n a = size-IsFixedRun s b a.size_type a.size_count a.width a.length_is

-- A message that ends in a varying field: the fixed fields with the size field, and the rest.
pub record Counted (fs : List NetField) (m : Bytes) : Type 0 where
  pub run : List NetField
  pub size_field : NetField
  pub var_field : NetField
  pub run_bytes : Bytes
  pub size_bytes : Bytes
  pub var_bytes : Bytes
  pub number : ℕ
  pub fields_are : fs ≡ run ++ size_field ∷ var_field ∷ []
  pub message_is : m ≡ run_bytes ++ (size_bytes ++ var_bytes)
  pub is_run : IsFixedRun run run_bytes
  pub announces : Announces size_field var_field size_bytes number
  pub length_is : length var_bytes ≡ var_field.elementsz * number

-- Either all fields are fixed, or the last one varies.
pub IsMessage-cases :
    {fs : List NetField} {m : Bytes} → IsMessage fs m → IsFixedRun fs m ⊎ Counted fs m
IsMessage-cases nil = inl nil
IsMessage-cases (fixed {f} {fs} b {bs} fx small len later) = elim (IsMessage-cases later) [
  | inl run ↦ inl (cons b fx small len run)
  | inr c ↦ inr (record {
    run = f ∷ (c.run);
    size_field = c.size_field;
    var_field = c.var_field;
    run_bytes = b ++ c.run_bytes;
    size_bytes = c.size_bytes;
    var_bytes = c.var_bytes;
    number = c.number;
    fields_are = ap (◌∷◌ f) c.fields_are;
    message_is = ap (◌++◌ b) c.message_is ∙ sym (append_assoc b _ _);
    is_run = cons b fx small len c.is_run;
    announces = c.announces;
    length_is = c.length_is;
  })
]
IsMessage-cases (counted {s} {v} b bs {n} a len) = inr (record {
  run = [];
  size_field = s;
  var_field = v;
  run_bytes = [];
  size_bytes = b;
  var_bytes = bs;
  number = n;
  fields_are = refl;
  message_is = refl;
  is_run = nil;
  announces = a;
  length_is = len;
})
