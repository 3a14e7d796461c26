-- ===== src/Core/Config/Print/Kept.antt =====
-- An entry of src/core/config_parser.cpp that is written and read again.
use theme_srv.Common.{
  Option, none, some, [], ◌∷◌, ◌≡◌, refl, ap, sym, ◌∙◌, inl, inr, Bool-cases, Option-cases, ◌>>=◌,
  subst,
}
use mathlib.Core.Option.{some-injective}
use theme_srv.Core.Text.{Text, StringTheory}
use theme_srv.Core.Config.{ValueType, Entry, SectionMap, ConfigMap, equal_i, find, find_item}
use theme_srv.Core.Config.Access.{map_option}
use theme_srv.Core.Config.Shape.{shape}
use theme_srv.Core.Config.Items.{find_item-item_at}
use theme_srv.Core.Config.Assignments.{assign_value, value_meant}

-- An empty value is a text.
abbrev pub Keeps : Entry → Type 0
Keeps e = e.value ≡ [] → e.item.type ≡ ValueType.string

abbrev pub AllKeep : SectionMap → Type 0
AllKeep [] = Unit
AllKeep ((key, e) ∷ items) = Keeps e × AllKeep items

abbrev pub IsKept : ConfigMap → Type 0
IsKept [] = Unit
IsKept ((name, items) ∷ conf) = AllKeep items × IsKept conf

value_meant_kept :
    (t : ValueType) (v : Text) → (v ≡ [] → t ≡ ValueType.string) → value_meant t v ≡ v
value_meant_kept ValueType.boolean [] h = absurd (let z = h refl in cc)
value_meant_kept ValueType.float [] h = absurd (let z = h refl in cc)
value_meant_kept ValueType.integer [] h = absurd (let z = h refl in cc)
value_meant_kept ValueType.boolean (c ∷ cs) h = refl
value_meant_kept ValueType.float (c ∷ cs) h = refl
value_meant_kept ValueType.integer (c ∷ cs) h = refl
value_meant_kept ValueType.string v h = refl

assign_value_kept : (e : Entry) → Keeps e → assign_value e.value e ≡ e
assign_value_kept e h = ap (λ v. record e { value = v }) (value_meant_kept e.item.type e.value h)

-- The value that was there does not matter.
assign_value_same :
    (e : Entry) (v : Text) → assign_value e.value (record e { value = v }) ≡ assign_value e.value e
assign_value_same e v = refl

module _ (st : StringTheory) where
  -- What an entry that is read again makes of the one that is there.
  abbrev pub given : Option Entry → Option Entry → Option Entry
  given none old = old
  given (some e) old = map_option (assign_value e.value) old

  -- An entry of a configuration all of whose empty values are texts
  find-AllKeep :
      (k : Text) (items : SectionMap) {e : Entry}
      → AllKeep items
      → find st k items ≡ some e
      → Keeps e
  unfolding find
  find-AllKeep k [] keeps h = cc
  find-AllKeep k ((key, e') ∷ items) {e} (keep, keeps) h = elim (Bool-cases (equal_i st key k)) [
    | inl h' ↦ subst Keeps (some-injective e' e (rw h' at h)) keep
    | inr h' ↦ find-AllKeep k items keeps (rw h' at h)
  ]

  find-IsKept :
      (s : Text) (conf : ConfigMap) {items : SectionMap}
      → IsKept conf
      → find st s conf ≡ some items
      → AllKeep items
  unfolding find
  find-IsKept s [] kept h = cc
  find-IsKept s ((name, items') ∷ conf) {items} (keeps, kept) h =
      elim (Bool-cases (equal_i st name s)) [
        | inl h' ↦ subst AllKeep (some-injective items' items (rw h' at h)) keeps
        | inr h' ↦ find-IsKept s conf kept (rw h' at h)
      ]

  find_item-IsKept :
      (conf : ConfigMap) (s k : Text) {e : Entry}
      → IsKept conf
      → find_item st conf s k ≡ some e
      → Keeps e
  unfolding find_item
  find_item-IsKept conf s k kept h = elim (Option-cases (find st s conf)) [
    | inl absent ↦ absurd (let z = rw absent at h in cc)
    | inr (items, there) ↦ find-AllKeep k items (find-IsKept s conf kept there) (rw there at h)
  ]

  -- The entry that is read again is the one that was written.
  pub given-same :
      (conf old : ConfigMap) (s k : Text)
      → shape conf ≡ shape old
      → IsKept conf
      → given (find_item st conf s k) (find_item st old s k) ≡ find_item st conf s k
  given-same conf old s k same_shape kept =
      let items : map_option (λ e. e.item) (find_item st conf s k)
          ≡ map_option (λ e. e.item) (find_item st old s k) =
        find_item-item_at st conf s k
        ∙ ap (λ m. find st s m >>= find st k) same_shape
        ∙ sym (find_item-item_at st old s k) in
      go (find_item st conf s k) (find_item st old s k) items
        (λ e h. find_item-IsKept conf s k kept h)
    where
      go :
          (new old : Option Entry)
          → map_option (λ e. e.item) new ≡ map_option (λ e. e.item) old
          → ((e : Entry) → new ≡ some e → Keeps e)
          → given new old ≡ new
      go none none h h' = refl
      go none (some e) h h' = absurd (cc)
      go (some e) none h h' = absurd (cc)
      go (some e) (some e') h h' =
          let same : e.item ≡ e'.item = some-injective e.item e'.item h in
          ap some (
            ap (λ i. assign_value e.value (record { item = i; value = e'.value })) (sym same)
            ∙ (assign_value_same e e'.value ∙ assign_value_kept e (h' e refl)))
