-- ===== src/Core/Config/Print/Restored.antt =====
-- A configuration that src/core/config_parser.cpp wrote, read into one of the same shape.
use theme_srv.Common.{
  Bool, true, false, ◌&&◌, Option, none, some, List, [], ◌∷◌, ◌++◌, ◌≡◌, refl, ap, sym, ◌∙◌, inl,
  inr, Bool-cases, if◌then◌else◌,
}
use theme_srv.Core.Text.{Text, StringTheory}
use theme_srv.Core.Config.{Entry, SectionMap, ConfigMap, equal_i, find, find_item}
use theme_srv.Core.Config.Access.{map_option, find-equal_i, equal_i_refl}
use theme_srv.Core.Config.Shape.{shape, items_of, find-shape}
use theme_srv.Core.Config.Lines.{lines, read_file}
use theme_srv.Core.Config.Assignments.{Assignment, assign_value, is_some, assigned, all_assigned}
use theme_srv.Core.Config.Print.{write_conf}
use theme_srv.Core.Config.Print.Classified.{IsTrimming}
use theme_srv.Core.Config.Print.Reread.{
  IsPrintable, AreKnown, items_in, all_items, read_file-write_conf,
}
use theme_srv.Core.Config.Print.Distinct.{DistinctKeys, AllDistinct}
use theme_srv.Core.Config.Print.Kept.{IsKept, given, given-same}

module _ (st : StringTheory) where
  all_assigned-append :
      (xs ys : List Assignment) (s k : Text) (o : Option Entry)
      → all_assigned st (xs ++ ys) s k o ≡ all_assigned st ys s k (all_assigned st xs s k o)
  all_assigned-append [] ys s k o = refl
  all_assigned-append (x ∷ xs) ys s k o = all_assigned-append xs ys s k _

  one_item :
      (name key : Text) (e : Entry) (s k : Text) (o : Option Entry) (b : Bool)
      → (equal_i st name s && equal_i st key k) ≡ b
      → assigned st (record { section = name; key = key; value = e.value }) s k o
        ≡ (if b then map_option (assign_value e.value) o else o)
  one_item name key e s k o b h = rw h refl

  all_assigned-items_in :
      (name : Text) (items : SectionMap) (s k : Text) (o : Option Entry)
      → DistinctKeys st items
      → all_assigned st (items_in name items) s k o
        ≡ (if equal_i st name s then given st (find st k items) o else o)
  unfolding find
  all_assigned-items_in name [] s k o d = elim (Bool-cases (equal_i st name s)) [
    | inl h ↦ rw h refl
    | inr h ↦ rw h refl
  ]
  all_assigned-items_in name ((key, e) ∷ items) s k o (absent, d) =
      let later = all_assigned st (items_in name items) s k in
      elim (Bool-cases (equal_i st name s)) [
        | inl h ↦ elim (Bool-cases (equal_i st key k)) [
          | inl h' ↦
              ap later (one_item name key e s k o true (rw (h, h') refl))
              ∙ (all_assigned-items_in name items s k (map_option (assign_value e.value) o) d
                  ∙ rw (h, h', sym (find-equal_i st key k items h') ∙ absent) refl)
          | inr h' ↦
              ap later (one_item name key e s k o false (rw (h, h') refl))
              ∙ (all_assigned-items_in name items s k o d ∙ rw (h, h') refl)
        ]
        | inr h ↦
            ap later (one_item name key e s k o false (rw h refl))
            ∙ (all_assigned-items_in name items s k o d ∙ rw h refl)
      ]

  all_assigned-all_items :
      (conf : ConfigMap) (s k : Text) (o : Option Entry)
      → DistinctKeys st conf
      → AllDistinct st conf
      → all_assigned st (all_items conf) s k o ≡ given st (find_item st conf s k) o
  unfolding find_item find
  all_assigned-all_items [] s k o d ds = refl
  all_assigned-all_items ((name, items) ∷ conf) s k o (absent, d) (each, ds) =
      all_assigned-append (items_in name items) (all_items conf) s k o
      ∙ (ap (all_assigned st (all_items conf) s k) (all_assigned-items_in name items s k o each)
          ∙ (all_assigned-all_items conf s k _ d ds ∙ elim (Bool-cases (equal_i st name s)) [
            | inl h ↦ rw (h, sym (find-equal_i st name s conf h) ∙ absent) refl
            | inr h ↦ rw h refl
          ]))

  is_some-shape :
      (name : Text) (conf : ConfigMap)
      → is_some (find st name (shape conf)) ≡ is_some (find st name conf)
  is_some-shape name conf = ap is_some (find-shape st name conf) ∙ go (find st name conf)
    where
      go : (o : Option SectionMap) → is_some (map_option items_of o) ≡ is_some o
      go none = refl
      go (some m) = refl

  find-AreKnown :
      (known : Text → Bool) (conf : ConfigMap)
      → ((name : Text) → is_some (find st name conf) ≡ true → known name ≡ true)
      → AreKnown known conf
  unfolding find
  find-AreKnown known [] h = tt
  find-AreKnown known ((name, items) ∷ conf) h = (
    h name (rw (equal_i_refl st name) refl),
    find-AreKnown known conf (λ n there.
        h n (elim (Bool-cases (equal_i st name n)) [ inl e ↦ rw e refl | inr e ↦ rw e there ])),
  )

  -- Suppose that `trim` takes spaces from both ends and nothing else, and that `starts_with`
  -- compares a prefix. A configuration that is written and read into one with the same sections,
  -- keys and definitions is read back as it is: under any names the same item is found, with the
  -- same value. This holds if no two sections, and no two keys of a section, are equal up to
  -- case, if the names of the sections have no closing bracket and no line break, the keys are
  -- words, and the values have no opening bracket, no NUL, no line break and no space at their
  -- ends, and if an empty value is a string's.
  pub read_file-write_conf_same :
      IsTrimming st
      → (conf old : ConfigMap) (section key : Text) → shape conf ≡ shape old
      → DistinctKeys st conf
      → AllDistinct st conf
      → IsPrintable conf
      → IsKept conf
      → find_item st (read_file st (lines (write_conf st conf)) old).1.conf section key
        ≡ find_item st conf section key
  read_file-write_conf_same law conf old section key same_shape d ds printable kept =
      let known =
        find-AreKnown (λ name. is_some (find st name old)) conf
          (λ name h.
            sym (is_some-shape name old)
            ∙ ap (λ m. is_some (find st name m)) (sym same_shape)
            ∙ is_some-shape name conf
            ∙ h) in
      read_file-write_conf st law conf old section key known printable
      ∙ (all_assigned-all_items conf section key (find_item st old section key) d ds
          ∙ given-same st conf old section key same_shape kept)
