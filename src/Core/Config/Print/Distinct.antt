-- ===== src/Core/Config/Print/Distinct.antt =====
-- Configurations in which no two keys are equal up to case.
use theme_srv.Common.{Option, none, some, List, [], ◌∷◌, ◌≡◌, refl, sym, ◌∙◌}
use theme_srv.Core.Text.{Text, StringTheory}
use theme_srv.Core.Config.{SectionMap, ConfigMap, find}
use theme_srv.Core.Config.Access.{map_option}
use theme_srv.Core.Config.Shape.{shape, items_of, find-shape, find-items_of}

map_option-none : {A B : Type 0} (f : A → B) (o : Option A) → map_option f o ≡ none → o ≡ none
map_option-none f none h = refl
map_option-none f (some a) h = absurd (cc)

module _ (st : StringTheory) where
  -- No two keys are equal up to case.
  abbrev pub DistinctKeys : {A : Type 0} → List (Text × A) → Type 0
  DistinctKeys [] = Unit
  DistinctKeys ((key, a) ∷ m) = (find st key m ≡ none) × DistinctKeys m

  abbrev pub AllDistinct : {A : Type 0} → List (Text × List (Text × A)) → Type 0
  AllDistinct [] = Unit
  AllDistinct ((name, items) ∷ conf) = DistinctKeys items × AllDistinct conf

  -- The shape tells whether keys are distinct.
  DistinctKeys-items_of : (items : SectionMap) → DistinctKeys (items_of items) → DistinctKeys items
  DistinctKeys-items_of [] d = tt
  DistinctKeys-items_of ((key, e) ∷ items) (absent, d) = (
    map_option-none _ (find st key items) (sym (find-items_of st key items) ∙ absent),
    DistinctKeys-items_of items d,
  )

  pub DistinctKeys-shape : (conf : ConfigMap) → DistinctKeys (shape conf) → DistinctKeys conf
  DistinctKeys-shape [] d = tt
  DistinctKeys-shape ((name, items) ∷ conf) (absent, d) = (
    map_option-none _ (find st name conf) (sym (find-shape st name conf) ∙ absent),
    DistinctKeys-shape conf d,
  )

  pub AllDistinct-shape : (conf : ConfigMap) → AllDistinct (shape conf) → AllDistinct conf
  AllDistinct-shape [] d = tt
  AllDistinct-shape ((name, items) ∷ conf) (d, ds) =
      (DistinctKeys-items_of items d, AllDistinct-shape conf ds)
