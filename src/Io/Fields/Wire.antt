-- ===== src/Io/Fields/Wire.antt =====
-- What `calc_field_sz` gives for the fields of a structure, by their place in its list.
use theme_srv.Common.{
  ℕ, suc, ◌+◌, ◌-◌, ◌*◌, ◌^◌, ◌≤◌, ◌<◌, ◌≡◌, refl, ap, ◌∙◌, ◌⊎◌, true, false, none, some, List, [],
  ◌∷◌, ◌++◌, Bytes, length, length-append, get_elem?, read_at-append, from_le, mul64, arith,
}
use theme_srv.Protocol.NetStruct.{NetField, NetStruct, is_fixed, field_sz}
use theme_srv.Protocol.Message.{Announces}
use theme_srv.Io.Fields.{Pointer, extract_integer, extract_elementcount, calc_field_sz}

pub get_elem?-append {ℓ} :
    {A : Type ℓ} (xs : List A) (y : A) (ys : List A) → get_elem? (xs ++ y ∷ ys) (length xs) ≡ some y
get_elem?-append [] y ys = refl
get_elem?-append (x ∷ xs) y ys = get_elem?-append xs y ys

pub get_elem?-append_next {ℓ} :
    {A : Type ℓ} (xs : List A) (y z : A) (ys : List A)
    → get_elem? (xs ++ y ∷ z ∷ ys) (suc (length xs)) ≡ some z
get_elem?-append_next [] y z ys = refl
get_elem?-append_next (x ∷ xs) y z ys = get_elem?-append_next xs y z ys

pub mul_le_mul : (a b c : ℕ) → b ≤ c → a * b ≤ a * c
mul_le_mul a b c h = grind arith

-- A fixed field takes the same room in memory and on the wire, wherever the pointer goes.
pub calc_field_sz_fixed :
    (ns : NetStruct) (pre : List NetField) (f : NetField) (fs : List NetField) (ptr : Pointer)
    → ns.fields ≡ pre ++ f ∷ fs
    → is_fixed f.type ≡ true
    → field_sz f < 2 ^ 32
    → calc_field_sz ns (length pre) ptr
      ≡ some (record { known = true; alloc = field_sz f; wire = field_sz f })
unfolding calc_field_sz
calc_field_sz_fixed ns pre f fs ptr e fx h = rw (e, get_elem?-append pre f fs) (ground arith)

pub extract_integer_lem :
    (s : NetField) (p b rest : Bytes)
    → (s.elementsz ≡ 1) ⊎ (s.elementsz ≡ 2) ⊎ (s.elementsz ≡ 4) ⊎ (s.elementsz ≡ 8)
    → length b ≡ s.elementsz
    → extract_integer s (p ++ (b ++ rest)) (length p) ≡ some (from_le b)
unfolding extract_integer
extract_integer_lem s p b rest w e = rw (← e, read_at-append p b rest) (ground arith)

extract_elementcount_lem :
    (s v : NetField) (p b rest : Bytes) (n : ℕ)
    → Announces s v b n
    → extract_elementcount s v (p ++ (b ++ rest)) (length p + length b) ≡ some n
unfolding extract_elementcount
extract_elementcount_lem s v p b rest n a =
    let e : length p + length b - s.elementsz ≡ length p = omega (arith, a.length_is) in
    ground (arith, extract_integer_lem s p b rest a.width a.length_is)

pub calc_field_sz_counted :
    (ns : NetStruct) (pre : List NetField) (s v : NetField) (p b rest : Bytes) (n : ℕ)
    → ns.fields ≡ pre ++ s ∷ v ∷ []
    → Announces s v b n
    → calc_field_sz ns (suc (length pre)) (some (p ++ (b ++ rest), length p + length b))
      ≡ some (record { known = true; alloc = mul64 v.elementsz v.count; wire = v.elementsz * n })
unfolding calc_field_sz
calc_field_sz_counted ns pre s v p b rest n e a =
    let whole : length (pre ++ s ∷ v ∷ []) ≡ length pre + 2 = length-append pre (s ∷ v ∷ []) in
    let count = extract_elementcount_lem s v p b rest n a in
    let bound = mul_le_mul v.elementsz n 1024 a.within in
    rw (e, get_elem?-append_next pre s v [])
      (ground (arith, whole, count, bound, get_elem?-append pre s (v ∷ [])))

-- The size field in front of it is a fixed one.
pub calc_field_sz_size :
    (ns : NetStruct) (pre : List NetField) (s v : NetField) (b : Bytes) (n : ℕ) (ptr : Pointer)
    → ns.fields ≡ pre ++ s ∷ v ∷ []
    → Announces s v b n
    → calc_field_sz ns (length pre) ptr
      ≡ some (record { known = true; alloc = length b; wire = length b })
calc_field_sz_size ns pre s v b n ptr e a =
    let one : field_sz s ≡ length b =
      ap (λ k. s.elementsz * k) a.size_count ∙ omega (arith, a.length_is) in
    let fx : is_fixed s.type ≡ true = ap is_fixed a.size_type in
    let call = calc_field_sz_fixed ns pre s (v ∷ []) ptr e fx (ground arith) in
    ground (arith, call, one)

-- With no buffer the size on the wire of a varying field is unknown.
pub calc_field_sz_unknown :
    (ns : NetStruct) (pre : List NetField) (s v : NetField)
    → ns.fields ≡ pre ++ s ∷ v ∷ []
    → is_fixed v.type ≡ false
    → calc_field_sz ns (suc (length pre)) none
      ≡ some (record { known = false; alloc = mul64 v.elementsz v.count; wire = 0 })
unfolding calc_field_sz
calc_field_sz_unknown ns pre s v e vary =
    let whole : length (pre ++ s ∷ v ∷ []) ≡ length pre + 2 = length-append pre (s ∷ v ∷ []) in
    rw (e, get_elem?-append_next pre s v []) (ground (arith, whole))
