-- ===== src/Core/Text.antt =====
-- Texts, and what src/core/config_parser.cpp uses of the library string_theory, which is a
-- parameter.
use Prim.Native.Char.{code}
use Prim.Native.String.{String}
use theme_srv.Common.{
  ℕ, zero, suc, ◌+◌, ◌/◌, ◌%◌, Bool, true, false, ◌&&◌, List, [], ◌∷◌, ◌++◌, ◌≡◌, refl, ◌==◌, ltb,
  if◌then◌else◌, ◌^◌, ◌<◌, arith,
}

-- The bytes of a text.
abbrev pub Text : Type 0
Text = List ℕ

-- A literal of ASCII characters
abbrev pub codes : String → Text
codes String.[] = []
codes (String.◌∷◌ c s) = code c ∷ codes s

-- `fold` is the case folding by which `ST::equal_i` compares; `Int` and `Float` are the values of
-- `int` and `float`.
pub record StringTheory : Type 1 where
  pub Int : Type 0
  pub Float : Type 0
  pub fold : Text → Text
  pub trim : Text → Text
  pub starts_with : Text → Text → Bool
  pub tokenize : Text → Text → List Text
  pub to_bool : Text → Bool
  pub from_bool : Bool → Text
  pub to_float : Text → Float
  pub from_float : Float → Text
  pub to_int : Text → Int
  pub from_int : Int → Text
  pub to_uint : Text → ℕ
  pub from_uint : ℕ → Text
  pub to_utf16 : Text → List ℕ

-- What is printed is read back; a float is not, since few digits of it are printed.
pub record IsExact (st : StringTheory) : Type 0 where
  pub to_bool-from_bool : (b : Bool) → st.to_bool (st.from_bool b) ≡ b
  pub to_int-from_int : (n : st.Int) → st.to_int (st.from_int n) ≡ n
  pub to_uint-from_uint : (n : ℕ) → n < 2 ^ 32 → st.to_uint (st.from_uint n) ≡ n

-- Whether two texts have the same bytes.
unfoldable pub same : Text → Text → Bool
same [] [] = true
same [] (b ∷ bs) = false
same (a ∷ xs) [] = false
same (a ∷ xs) (b ∷ bs) = (a == b) && same xs bs

pub same_refl : (a : Text) → same a a ≡ true
unfolding same
same_refl [] = refl
same_refl (a ∷ xs) = ground (arith, same_refl xs)

pub same-eq : (a b : Text) → same a b ≡ true → a ≡ b
unfolding same
same-eq [] [] h = refl
same-eq [] (b ∷ bs) h = cc
same-eq (a ∷ xs) [] h = cc
same-eq (a ∷ xs) (b ∷ bs) h = ground (arith, same-eq xs bs)

-- `<<` of an unsigned number, of at most `fuel` digits: 10 are
-- enough for 32 bits and 20 for 64.
unfoldable pub digits : ℕ → ℕ → Text
digits zero n = []
digits (suc fuel) n =
    let front = digits fuel (n / 10) in
    if ltb n 10 then (48 + n) ∷ [] else front ++ (48 + n % 10) ∷ []
