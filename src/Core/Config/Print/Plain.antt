-- ===== src/Core/Config/Print/Plain.antt =====
-- Assignments that keep a configuration of src/core/config_parser.cpp as `write` and `read` need it.
use theme_srv.Common.{
  ℕ, Bool, true, false, ◌||◌, some, [], ◌∷◌, ◌≡◌, inl, inr, Bool-cases, >>=-eq-some, assertd, arith,
  subst,
}
use mathlib.Core.Option.{some-injective}
use theme_srv.Core.Text.{Text, StringTheory}
use theme_srv.Core.Config.{
  ValueType, SectionMap, ConfigMap, equal_i, is_type, adjust, put, find_item, set_value,
}
use theme_srv.Core.Config.Lines.{is_space}
use theme_srv.Core.Config.Matched.{HasNone, HasOnly, opens}
use theme_srv.Core.Config.Print.Classified.{EndsWell, ends_text, IsWritable, writable, empty}
use theme_srv.Core.Config.Print.Reread.{AreWritable, IsPrintable}
use theme_srv.Core.Config.Print.Kept.{AllKeep, IsKept}

-- A character that neither ends a text or a line nor has a meaning in a configuration.
unfoldable pub is_plain : ℕ → Bool
is_plain c = elim (is_space c || (opens c || ends_text c)) [ true ↦ false | false ↦ true ]

-- A value of plain characters
abbrev pub IsPlain : Text → Type 0
IsPlain [] = ⊥
IsPlain (c ∷ cs) = HasOnly is_plain (c ∷ cs)

plain_char :
    (c : ℕ) → is_plain c ≡ true → (is_space c ≡ false) × (opens c ≡ false) × (ends_text c ≡ false)
unfolding is_plain
plain_char c h = (ground (arith, h), ground (arith, h), ground (arith, h))

plain_opens : (v : Text) → HasOnly is_plain v → HasNone opens v
plain_opens [] h = tt
plain_opens (c ∷ cs) h = ((plain_char c h.0).1, plain_opens cs h.1)

plain_text : (v : Text) → HasOnly is_plain v → HasNone ends_text v
plain_text [] h = tt
plain_text (c ∷ cs) h = ((plain_char c h.0).2, plain_text cs h.1)

plain_end : (c : ℕ) (cs : Text) → HasOnly is_plain (c ∷ cs) → EndsWell (c ∷ cs)
plain_end c [] h = (plain_char c h.0).0
plain_end c (d ∷ ds) h = plain_end d ds h.1

pub IsWritable-plain : (key old v : Text) → IsWritable key old → IsPlain v → IsWritable key v
IsWritable-plain key old [] w h = absurd h
IsWritable-plain key old (c ∷ cs) (writable w word v value a _ _ _ _) h =
    writable w word c cs a (plain_char c h.0).0 (plain_opens (c ∷ cs) h) (plain_text (c ∷ cs) h)
      (plain_end c cs h)
IsWritable-plain key old (c ∷ cs) (empty w word a) h =
    writable w word c cs a (plain_char c h.0).0 (plain_opens (c ∷ cs) h) (plain_text (c ∷ cs) h)
      (plain_end c cs h)

module _ (st : StringTheory) where
  AreWritable-adjust :
      (key v : Text) (items : SectionMap)
      → IsPlain v
      → AreWritable items
      → AreWritable (adjust st key (put v) items)
  unfolding adjust
  AreWritable-adjust key v [] h w = tt
  AreWritable-adjust key v ((j, e) ∷ items) h (w, ws) = elim (Bool-cases (equal_i st j key)) [
    | inl at ↦ rw at (IsWritable-plain j e.value v w h, ws)
    | inr at ↦ rw at (w, AreWritable-adjust key v items h ws)
  ]

  AllKeep-adjust :
      (key v : Text) (items : SectionMap)
      → IsPlain v
      → AllKeep items
      → AllKeep (adjust st key (put v) items)
  unfolding adjust
  AllKeep-adjust key v [] h w = tt
  AllKeep-adjust key v ((j, e) ∷ items) h (w, ws) = elim (Bool-cases (equal_i st j key)) [
    | inl at ↦ rw at (λ none_is. absurd (subst IsPlain none_is h), ws)
    | inr at ↦ rw at (w, AllKeep-adjust key v items h ws)
  ]

  IsPrintable-adjust :
      (section key v : Text) (conf : ConfigMap)
      → IsPlain v
      → IsPrintable conf
      → IsPrintable (adjust st section (adjust st key (put v)) conf)
  unfolding adjust
  IsPrintable-adjust section key v [] h p = tt
  IsPrintable-adjust section key v ((name, items) ∷ conf) h (a, b, w, p) =
      elim (Bool-cases (equal_i st name section)) [
        | inl at ↦ rw at (a, b, AreWritable-adjust key v items h w, p)
        | inr at ↦ rw at (a, b, w, IsPrintable-adjust section key v conf h p)
      ]

  IsKept-adjust :
      (section key v : Text) (conf : ConfigMap)
      → IsPlain v
      → IsKept conf
      → IsKept (adjust st section (adjust st key (put v)) conf)
  unfolding adjust
  IsKept-adjust section key v [] h p = tt
  IsKept-adjust section key v ((name, items) ∷ conf) h (w, p) =
      elim (Bool-cases (equal_i st name section)) [
        | inl at ↦ rw at (AllKeep-adjust key v items h w, p)
        | inr at ↦ rw at (w, IsKept-adjust section key v conf h p)
      ]

  -- An assignment of a plain value
  pub set_value_plain :
      (type : ValueType) (conf conf' : ConfigMap) (section key v : Text)
      → set_value st type conf section key v ≡ some conf'
      → IsPlain v
      → IsPrintable conf
      → IsKept conf
      → IsPrintable conf' × IsKept conf'
  unfolding set_value
  set_value_plain type conf conf' section key v h plain p kept =
      let (entry, e, h₁) = >>=-eq-some (find_item st conf section key) _ h in
      let (u, e', h₂) = >>=-eq-some (assertd (is_type entry.item.type type)) _ h₁ in
      let made = some-injective (adjust st section (adjust st key (put v)) conf) conf' h₂ in
      (
        subst IsPrintable made (IsPrintable-adjust section key v conf plain p),
        subst IsKept made (IsKept-adjust section key v conf plain kept),
      )
