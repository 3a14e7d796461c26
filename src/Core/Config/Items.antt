-- ===== src/Core/Config/Items.antt =====
-- Reading an item by its definition, which the shape of a configuration tells.
use theme_srv.Common.{
  ℕ, ◌+◌, ◌&&◌, Option, none, some, map, ◌≡◌, refl, ap, sym, ◌∙◌, inl, inr, if◌then◌else◌,
  Option-cases, ◌>>=◌, leb,
}
use mathlib.Core.Option.{some-injective}
use theme_srv.Core.Text.{Text, StringTheory}
use theme_srv.Core.Config.{ConfigItem, Entry, ConfigMap, SectionMap, find, find_item, get_value}
use theme_srv.Core.Config.Access.{map_option}
use theme_srv.Core.Config.Shape.{shape, items_of, find-shape, find-items_of}
use theme_srv.Core.Config.Stored.{is_type_refl}

abbrev pub lower : ℕ → ℕ
lower c = if leb b'A' c && leb c b'Z' then c + 32 else c

abbrev pub lowered : StringTheory → StringTheory
lowered st = record st { fold = map lower }

module _ (st : StringTheory) where
  -- The definition of an item.
  abbrev pub item_at : ConfigMap → Text → Text → Option ConfigItem
  item_at conf section key = find st section (shape conf) >>= find st key

  pub find_item-item_at :
      (conf : ConfigMap) (section key : Text)
      → map_option (λ e. e.item) (find_item st conf section key) ≡ item_at conf section key
  unfolding find_item
  find_item-item_at conf section key = rw (find-shape st section conf) (go (find st section conf))
    where
      go :
          (o : Option SectionMap)
          → map_option (λ e. e.item) (o >>= find st key) ≡ (map_option items_of o >>= find st key)
      go none = refl
      go (some m) = sym (find-items_of st key m)

  -- Where an item is defined there is an entry, whose value is given for its type.
  pub get_value-item_at :
      (conf : ConfigMap) (section key : Text) (item : ConfigItem)
      → item_at conf section key ≡ some item
      → (e : Entry) × (find_item st conf section key ≡ some e)
        × (e.item ≡ item)
        × (get_value st item.type conf section key ≡ some e.value)
  unfolding get_value
  get_value-item_at conf section key item h = elim (Option-cases (find_item st conf section key)) [
    | inl e ↦ absurd (
        let z : none ≡ some item =
          ap (map_option (λ x. x.item)) (sym e) ∙ (find_item-item_at conf section key ∙ h) in
        cc)
    | inr (entry, e) ↦
        let same_item : entry.item ≡ item =
          some-injective entry.item item
            (ap (map_option (λ x. x.item)) (sym e) ∙ (find_item-item_at conf section key ∙ h)) in
        (entry, e, same_item, rw (e, same_item, is_type_refl item.type) refl)
  ]
