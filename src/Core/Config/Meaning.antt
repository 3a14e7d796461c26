-- ===== src/Core/Config/Meaning.antt =====
-- `read` of src/core/config_parser.cpp makes the assignments that the lines of the file mean.
use mathlib.Core.Path.{fun_ext}
use theme_srv.Common.{
  ℕ, suc, Bool, true, false, ◌&&◌, Option, none, some, List, [], ◌∷◌, ◌≡◌, refl, ap, sym, ◌∙◌, inl,
  inr, if◌then◌else◌, Bool-cases, Option-cases, ◌⊎◌, subst, ◌>>=◌, map,
}
use theme_srv.Core.Text.{Text, StringTheory}
use theme_srv.Core.Config.{
  ValueType, Entry, is_type, ConfigMap, equal_i, find, found_key, find_item,
}
use theme_srv.Core.Config.Access.{
  map_option, equal_i-left, find_item-adjust, find_item-equal_i, found_key-equal_i, found_key-find,
  found_key-found,
}
use theme_srv.Core.Config.Shape.{shape, find-shape, read_line-shape}
use theme_srv.Core.Config.Lines.{
  accept_value, Line, ignored, garbage, header, setting, Reading, classify, set_item, read_line,
  read_lines, lines, read_file,
}
use theme_srv.Core.Config.Assignments.{assign_value, is_some, assignments, assigned, all_assigned}

module _ (st : StringTheory) where
  -- The section that the loop is in has the name that a header gave it.
  abbrev Names : Option Text → Option Text → Type 0
  Names none none = Unit
  Names none (some stored) = ⊥
  Names (some name) none = ⊥
  Names (some name) (some stored) = equal_i st stored name ≡ true

  abbrev Knows : (Text → Bool) → ConfigMap → Type 0
  Knows known conf = (name : Text) → known name ≡ is_some (find st name (shape conf))

  -- An item that is not found is not assigned to.
  set_item_accepts :
      (n : ℕ) (name stored key value : Text) (r : Reading) (s k : Text)
      → equal_i st stored name ≡ true
      → find_item st (set_item st n (some stored) key value r).conf s k ≡ (
          if equal_i st name s && equal_i st key k
          then map_option (accept_value value) (find_item st r.conf s k)
          else find_item st r.conf s k)
  unfolding set_item find_item
  set_item_accepts n name stored key value r s k e =
      rw (sym (equal_i-left st stored name s e))
        (elim (Option-cases (find st stored r.conf >>= find st key)) [
          | inl gone ↦
              rw gone
                (unchanged (Bool-cases (equal_i st stored s)) (Bool-cases (equal_i st key k)) gone)
          | inr (entry, there) ↦
              rw there (find_item-adjust st r.conf stored key (accept_value value) s k)
        ])
    where
      unchanged :
          (equal_i st stored s ≡ true) ⊎ (equal_i st stored s ≡ false)
          → (equal_i st key k ≡ true) ⊎ (equal_i st key k ≡ false)
          → (find st stored r.conf >>= find st key) ≡ none
          → find_item st r.conf s k ≡ (
              if equal_i st stored s && equal_i st key k
              then map_option (accept_value value) (find_item st r.conf s k)
              else find_item st r.conf s k)
      unchanged (inl h) (inl h') gone =
          let none_there : find_item st r.conf s k ≡ none =
            sym (find_item-equal_i st r.conf s k stored key h h') ∙ gone in
          rw (h, h', none_there) refl
      unchanged (inl h) (inr h') gone = rw (h, h') refl
      unchanged (inr h) h' gone = rw h refl

  -- What `set` stores is what the assignment means.
  accept_value_meant : (value : Text) (e : Entry) → accept_value value e ≡ assign_value value e
  unfolding accept_value is_type
  accept_value_meant [] e = at_type e.item.type refl
    where
      at_type : (t : ValueType) → e.item.type ≡ t → accept_value [] e ≡ assign_value [] e
      at_type ValueType.boolean h = rw h refl
      at_type ValueType.float h = rw h refl
      at_type ValueType.integer h = rw h refl
      at_type ValueType.string h = rw h refl
  accept_value_meant (c ∷ cs) e = at_type e.item.type refl
    where
      at_type :
          (t : ValueType) → e.item.type ≡ t → accept_value (c ∷ cs) e ≡ assign_value (c ∷ cs) e
      at_type ValueType.boolean h = rw h refl
      at_type ValueType.float h = rw h refl
      at_type ValueType.integer h = rw h refl
      at_type ValueType.string h = rw h refl

  set_item-some :
      (n : ℕ) (name stored key value : Text) (r : Reading) (s k : Text)
      → equal_i st stored name ≡ true
      → find_item st (set_item st n (some stored) key value r).conf s k
        ≡ assigned st
            (record { section = name; key = key; value = value })
            s
            k
            (find_item st r.conf s k)
  set_item-some n name stored key value r s k e =
      let found = find_item st r.conf s k in
      set_item_accepts n name stored key value r s k e
      ∙ ap (λ f. if equal_i st name s && equal_i st key k then map_option f found else found)
          (fun_ext (accept_value_meant value))

  set_item_inside :
      (n : ℕ) (name : Text) (section : Option Text) (key value : Text) (r : Reading) (s k : Text)
      → Names (some name) section
      → find_item st (set_item st n section key value r).conf s k
        ≡ assigned st
            (record { section = name; key = key; value = value })
            s
            k
            (find_item st r.conf s k)
  set_item_inside n name none key value r s k names = absurd names
  set_item_inside n name (some stored) key value r s k names =
      set_item-some n name stored key value r s k names

  set_item_outside :
      (n : ℕ) (section : Option Text) (key value : Text) (r : Reading) (s k : Text)
      → Names none section
      → find_item st (set_item st n section key value r).conf s k ≡ find_item st r.conf s k
  unfolding set_item
  set_item_outside n none key value r s k names = refl
  set_item_outside n (some stored) key value r s k names = absurd names

  set_item-section :
      (n : ℕ) (section : Option Text) (key value : Text) (r : Reading)
      → (set_item st n section key value r).section ≡ r.section
  unfolding set_item
  set_item-section n none key value r = refl
  set_item-section n (some stored) key value r =
      elim (Option-cases (find st stored r.conf >>= find st key)) [
        | inl e ↦ rw e refl
        | inr (entry, e) ↦ rw e refl
      ]

  section_is_known :
      (known : Text → Bool) (conf : ConfigMap) (name stored : Text)
      → Knows known conf
      → found_key st name conf ≡ some stored
      → known name ≡ true
  section_is_known known conf name stored k h =
      let (m, e) = found_key-found st name conf h in k name ∙ rw (find-shape st name conf, e) refl

  section_is_unknown :
      (known : Text → Bool) (conf : ConfigMap) (name : Text)
      → Knows known conf
      → found_key st name conf ≡ none
      → known name ≡ false
  section_is_unknown known conf name k h =
      k name ∙ rw (find-shape st name conf, found_key-find st name conf h) refl

  abbrev next_section : (Text → Bool) → Line → Option Text → Option Text
  next_section known (header name) section = if known name then some name else none
  next_section known line section = section

  -- One line: its assignment is made, and the loop is in the section that it names.
  read_line-assigned :
      (known : Text → Bool) (n : ℕ) (line : Line) (section : Option Text) (r : Reading) (s k : Text)
      (ls : List Line)
      → Knows known r.conf
      → Names section r.section
      → Names (next_section known line section) (read_line st n line r).section
        × (all_assigned st (assignments known section (line ∷ ls)) s k (find_item st r.conf s k)
            ≡ all_assigned st
                (assignments known (next_section known line section) ls)
                s
                k
                (find_item st (read_line st n line r).conf s k))
  unfolding read_line
  read_line-assigned known n ignored section r s k ls knows names = (names, refl)
  read_line-assigned known n garbage section r s k ls knows names = (names, refl)
  read_line-assigned known n (header name) section r s k ls knows names =
      elim (Option-cases (found_key st name r.conf)) [
        | inl e ↦ rw (e, section_is_unknown known r.conf name knows e) (tt, refl)
        | inr (stored, e) ↦
            rw (e, section_is_known known r.conf name stored knows e)
              (found_key-equal_i st name r.conf e, refl)
      ]
  read_line-assigned known n (setting key value) none r s k ls knows names = (
    subst (Names none) (sym (set_item-section n r.section key value r)) names,
    rw (set_item_outside n r.section key value r s k names) refl,
  )
  read_line-assigned known n (setting key value) (some name) r s k ls knows names = (
    subst (Names (some name)) (sym (set_item-section n r.section key value r)) names,
    ap (all_assigned st (assignments known (some name) ls) s k)
        (sym (set_item_inside n name r.section key value r s k names)),
  )

  -- The loop over the lines assigns what the lines mean.
  read_lines-assigned :
      (known : Text → Bool) (bufs : List Text) (n : ℕ) (section : Option Text) (r : Reading)
      (s k : Text)
      → Knows known r.conf
      → Names section r.section
      → find_item st (read_lines st n bufs r).conf s k
        ≡ all_assigned st
            (assignments known section (map (classify st) bufs))
            s
            k
            (find_item st r.conf s k)
  unfolding read_lines
  read_lines-assigned known [] n section r s k knows names = refl
  read_lines-assigned known (buf ∷ bufs) n section r s k knows names =
      let line = classify st buf in
      let (names', e) =
        read_line-assigned known n line section r s k (map (classify st) bufs) knows names in
      read_lines-assigned known bufs (suc n) (next_section known line section)
        (read_line st n line r) s k (λ name. rw (read_line-shape st n line r) (knows name)) names'
      ∙ sym e

  -- Reading a file refines the list of assignments that its lines mean: what is found under any
  -- section and key afterwards is what was found there before, with each assignment applied in
  -- turn that names the section and the key, up to case. An assignment counts in the section of
  -- the last header before it if there is such a section; an empty value is zero for an item
  -- that is no string; unknown items, unknown sections and other lines change nothing.
  pub read_file-assigned :
      (bufs : List Text) (conf : ConfigMap) (s k : Text)
      → find_item st (read_file st (lines bufs) conf).1.conf s k
        ≡ all_assigned st
            (assignments (λ name. is_some (find st name conf)) none (map (classify st) bufs))
            s
            k
            (find_item st conf s k)
  unfolding read_file
  read_file-assigned bufs conf s k =
      read_lines-assigned (λ name. is_some (find st name conf)) bufs 0 none
        (record { conf = conf; section = none; messages = [] }) s k
        (λ name. rw (find-shape st name conf) (is_some-map _ (find st name conf))) tt
    where
      is_some-map : {A B : Type 0} (f : A → B) (o : Option A) → is_some o ≡ is_some (map_option f o)
      is_some-map f none = refl
      is_some-map f (some a) = refl
