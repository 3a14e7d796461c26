-- ===== src/Core/Config/Access.antt =====
-- `find` and its assignments: what a changed item does to the others.
use theme_srv.Common.{
  true, false, ◌&&◌, Option, none, some, List, [], ◌∷◌, ◌≡◌, refl, ap, sym, ◌∙◌, inl, inr,
  if◌then◌else◌, Bool-cases, ◌>>=◌, arith,
}
use theme_srv.Core.Text.{Text, StringTheory, same, same_refl, same-eq}
use theme_srv.Core.Config.{Entry, ConfigMap, equal_i, find, found_key, adjust, find_item}

abbrev pub map_option {ℓ κ} : {A : Type ℓ} {B : Type κ} → (A → B) → Option A → Option B
map_option f none = none
map_option f (some a) = some (f a)

module _ (st : StringTheory) where
  pub equal_i_refl : (a : Text) → equal_i st a a ≡ true
  equal_i_refl a = same_refl (st.fold a)

  -- Equal texts are compared alike, from either side.
  pub equal_i-left : (a b c : Text) → equal_i st a b ≡ true → equal_i st a c ≡ equal_i st b c
  equal_i-left a b c h = ap (λ t. same t (st.fold c)) (same-eq (st.fold a) (st.fold b) h)

  pub equal_i_sym : (a b : Text) → equal_i st a b ≡ true → equal_i st b a ≡ true
  equal_i_sym a b h = cc (equal_i-left a b a h, equal_i_refl a)

  pub equal_i-right : (a b c : Text) → equal_i st a b ≡ true → equal_i st c a ≡ equal_i st c b
  equal_i-right a b c h = ap (same (st.fold c)) (same-eq (st.fold a) (st.fold b) h)

  module _ {A : Type 0} where
    -- Only what is found under an equal key changes.
    pub find-adjust :
        (k j : Text) (f : A → A) (m : List (Text × A))
        → find st j (adjust st k f m)
          ≡ (if equal_i st k j then map_option f (find st j m) else find st j m)
    unfolding find adjust
    find-adjust k j f [] = elim (Bool-cases (equal_i st k j)) [ inl e ↦ rw e | inr e ↦ rw e ]
    find-adjust k j f ((i, a) ∷ m) = elim (Bool-cases (equal_i st i k)) [
      | inl e ↦
          let e' = equal_i-left i k j e in
          elim (Bool-cases (equal_i st k j)) [
            | inl h ↦ rw (e, e', h) refl
            | inr h ↦ rw (e, e', h) refl
          ]
      | inr e ↦ elim (Bool-cases (equal_i st i j)) [
        | inl h ↦ rw (e, h, sym (equal_i-right i j k h) ∙ neither i k e) refl
        | inr h ↦ rw (e, h) (find-adjust k j f m)
      ]
    ]
      where
        neither : (i k : Text) → equal_i st i k ≡ false → equal_i st k i ≡ false
        neither i k e = elim (Bool-cases (equal_i st k i)) [
          | inl h ↦ absurd (cc (equal_i_sym k i h))
          | inr h ↦ h
        ]

    -- Equal keys find the same.
    pub find-equal_i :
        (j k : Text) (m : List (Text × A)) → equal_i st j k ≡ true → find st j m ≡ find st k m
    unfolding find
    find-equal_i j k [] h = refl
    find-equal_i j k ((i, a) ∷ m) h = rw (equal_i-right j k i h, find-equal_i j k m h) refl

    -- The key that stands in the map is equal to the one looked for.
    pub found_key-equal_i :
        (k : Text) (m : List (Text × A)) {j : Text}
        → found_key st k m ≡ some j
        → equal_i st j k ≡ true
    unfolding found_key
    found_key-equal_i k [] h = cc
    found_key-equal_i k ((i, a) ∷ m) {j} h = elim (Bool-cases (equal_i st i k)) [
      | inl e ↦ ground arith
      | inr e ↦ found_key-equal_i k m (rw e at h)
    ]

    pub found_key-found :
        (k : Text) (m : List (Text × A)) {j : Text}
        → found_key st k m ≡ some j
        → (a : A) × (find st k m ≡ some a)
    unfolding found_key find
    found_key-found k [] h = cc
    found_key-found k ((i, a) ∷ m) h = elim (Bool-cases (equal_i st i k)) [
      | inl e ↦ (a, rw e refl)
      | inr e ↦ let (b, there) = found_key-found k m (rw e at h) in (b, rw e there)
    ]

    pub found_key-find :
        (k : Text) (m : List (Text × A)) → found_key st k m ≡ none → find st k m ≡ none
    unfolding found_key find
    found_key-find k [] h = refl
    found_key-find k ((i, a) ∷ m) h = elim (Bool-cases (equal_i st i k)) [
      | inl e ↦ absurd (ground arith)
      | inr e ↦ rw e (found_key-find k m (rw e at h))
    ]

  -- An assignment to one item seen through another's names.
  pub find_item-adjust :
      (conf : ConfigMap) (section key : Text) (f : Entry → Entry) (s k : Text)
      → find_item st (adjust st section (adjust st key f) conf) s k ≡ (
          if equal_i st section s && equal_i st key k
          then map_option f (find_item st conf s k)
          else find_item st conf s k)
  unfolding find_item
  find_item-adjust conf section key f s k =
      rw (find-adjust section s (adjust st key f) conf) (elim (Bool-cases (equal_i st section s)) [
        | inl e ↦ rw e (within (find st s conf))
        | inr e ↦ rw e refl
      ])
    where
      within :
          (o : Option (List (Text × Entry)))
          → (map_option (adjust st key f) o >>= find st k)
            ≡ (if equal_i st key k then map_option f (o >>= find st k) else (o >>= find st k))
      within none = elim (Bool-cases (equal_i st key k)) [ inl e ↦ rw e refl | inr e ↦ rw e refl ]
      within (some m) = find-adjust key k f m

  -- Equal names find the same item.
  pub find_item-equal_i :
      (conf : ConfigMap) (s k section key : Text)
      → equal_i st section s ≡ true
      → equal_i st key k ≡ true
      → find_item st conf section key ≡ find_item st conf s k
  unfolding find_item
  find_item-equal_i conf s k section key e e' =
      rw (find-equal_i section s conf e) (go (find st s conf))
    where
      go : (o : Option (List (Text × Entry))) → (o >>= find st key) ≡ (o >>= find st k)
      go none = refl
      go (some m) = find-equal_i key k m e'
