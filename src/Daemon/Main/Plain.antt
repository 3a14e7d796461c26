-- ===== src/Daemon/Main/Plain.antt =====
-- The keys that `generate_daemon_keys` of src/daemon/server.cpp puts in the configuration can be written
-- to its file.
use mathlib.Core.Option.{some-injective}
use theme_srv.Common.{
  ℕ, none, some, [], ◌∷◌, Bytes, ◌≡◌, refl, ap, sym, ◌∙◌, subst, >>=-eq-some, write_at,
}
use theme_srv.Core.Text.{Text, StringTheory, codes}
use theme_srv.Core.Config.{ConfigMap, get_uint, set_string}
use theme_srv.Core.Config.Matched.{HasOnly}
use theme_srv.Core.Config.Print.Reread.{IsPrintable}
use theme_srv.Core.Config.Print.Kept.{IsKept}
use theme_srv.Core.Config.Print.Plain.{is_plain, IsPlain, set_value_plain}
use theme_srv.Io.Crypto.{Bignums}
use theme_srv.Io.Crypto.Keys.{
  KeyTools, IsKeyTools, KeyStack, KeyTexts, Finds, generate_keys, load_key, load_key-nil,
  load_key-generate_keys,
}
use theme_srv.Daemon.Server.{generate_daemon_keys}

-- The characters of base64 have no meaning in a configuration.
abbrev pub PrintsPlain : {bn : Bignums} → KeyTools bn → Type 0
PrintsPlain tools = (bs : Bytes) → HasOnly is_plain (tools.base64_encode bs)

-- A text that is not empty
nonempty-IsPlain : (t : Text) → (t ≡ [] → ⊥) → HasOnly is_plain t → IsPlain t
nonempty-IsPlain [] h h' = h refl
nonempty-IsPlain (c ∷ cs) h h' = h'

module _ {bn : Bignums} (tools : KeyTools bn) (law : IsKeyTools tools) (plain : PrintsPlain tools)
    (stack : KeyStack) (k n : bn.Bn) (finds : Finds tools stack k n) where
  all_plain :
      (g : ℕ) (made : KeyTexts)
      → generate_keys tools stack g ≡ some made
      → HasOnly is_plain made.k × HasOnly is_plain made.n × HasOnly is_plain made.x
  unfolding generate_keys
  all_plain g made h =
      let (a, _, h₁) = >>=-eq-some tools.prime_k _ h in
      let (b, _, h₂) = >>=-eq-some tools.prime_n _ h₁ in
      let (u, _, h₃) = >>=-eq-some (write_at stack.k_key 0 (tools.bn2bin a)) _ h₂ in
      let (v, _, h₄) = >>=-eq-some (write_at stack.n_key 0 (tools.bn2bin b)) _ h₃ in
      let (w, _, h₅) =
        >>=-eq-some (write_at stack.x_key 0 (tools.bn2bin (bn.mod_exp (tools.set_word g) a b))) _
          h₄ in
      let made_is = some-injective _ made h₅ in
      (
        subst (λ t. HasOnly is_plain t.k) made_is (plain u),
        subst (λ t. HasOnly is_plain t.n) made_is (plain v),
        subst (λ t. HasOnly is_plain t.x) made_is (plain w),
      )

  generate_keys-IsPlain :
      (g : ℕ) (made : KeyTexts)
      → generate_keys tools stack g ≡ some made
      → IsPlain made.k × IsPlain made.n × IsPlain made.x
  generate_keys-IsPlain g made h =
      let (made', makes, load_k, load_n, load_x) =
        load_key-generate_keys tools law stack g k n finds in
      let same_keys = some-injective made' made (sym makes ∙ h) in
      let (pk, pn, px) = all_plain g made h in
      (
        nonempty-IsPlain made.k (loads_something (λ t. t.k) made' made same_keys load_k) pk,
        nonempty-IsPlain made.n (loads_something (λ t. t.n) made' made same_keys load_n) pn,
        nonempty-IsPlain made.x (loads_something (λ t. t.x) made' made same_keys load_x) px,
      )
    where
      loads_something :
          (part : KeyTexts → Text) (made' made : KeyTexts) {b : bn.Bn}
          → made' ≡ made
          → load_key tools (part made') ≡ some b
          → part made ≡ []
          → ⊥
      loads_something part made' made {b} e h h' =
          let z : none ≡ some b =
            sym (load_key-nil tools law) ∙ ap (load_key tools) (sym (ap part e ∙ h')) ∙ h in
          cc

  module _ (st : StringTheory) where
    -- The keys leave a configuration that can be written and read.
    pub generate_daemon_keys_plain :
        (conf conf' : ConfigMap)
        → generate_daemon_keys st tools stack conf ≡ some conf'
        → IsPrintable conf
        → IsKept conf
        → IsPrintable conf' × IsKept conf'
    unfolding generate_daemon_keys
    generate_daemon_keys_plain conf conf' h p kept =
        let (g, _, h₁) = >>=-eq-some (get_uint st conf (codes "gate") (codes "crypt_g")) _ h in
        let (made, makes, h₂) = >>=-eq-some (generate_keys tools stack g) _ h₁ in
        let (pk, pn, px) = generate_keys-IsPlain g made makes in
        let (c₁, e₁, h₃) =
          >>=-eq-some (set_string st conf (codes "gate") (codes "crypt_k") made.k) _ h₂ in
        let (c₂, e₂, h₄) =
          >>=-eq-some (set_string st c₁ (codes "gate") (codes "crypt_n") made.n) _ h₃ in
        let (p₁, kept₁) = set_value_plain st _ conf c₁ _ _ made.k e₁ pk p kept in
        let (p₂, kept₂) = set_value_plain st _ c₁ c₂ _ _ made.n e₂ pn p₁ kept₁ in
        set_value_plain st _ c₂ conf' _ _ made.x h₄ px p₂ kept₂
