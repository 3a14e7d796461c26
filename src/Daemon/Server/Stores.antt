-- ===== src/Daemon/Server/Stores.antt =====
-- The texts that `generate_daemon_keys` of src/daemon/server.cpp puts in the configuration.
use theme_srv.Common.{
  false, Bool, true, false, some, ◌≡◌, refl, sym, ◌∙◌, subst, ◌>>=◌, if◌then◌else◌,
}
use mathlib.Core.Option.{some-injective}
use theme_srv.Core.Text.{Text, StringTheory, codes, same}
use theme_srv.Core.Config.{ValueType, ConfigMap, find_item, get_value, get_string, set_string}
use theme_srv.Core.Config.Shape.{set_value-shape}
use theme_srv.Core.Config.Items.{lowered}
use theme_srv.Core.Config.Stored.{find_item-set_string, same_item, get_string-set_string}
use theme_srv.Io.Crypto.Keys.{KeyTexts}
use theme_srv.Daemon.Server.Defaults.{
  FoldsAscii, is_lowered, IsDaemons, Defined, entry_of, crypt_k_defined, crypt_n_defined,
  crypt_x_defined,
}

module _ (st : StringTheory) (folds : FoldsAscii st) where
  -- Under other names than the key's, what is found is the same.
  abbrev Others : ConfigMap → ConfigMap → Text → Type 0
  Others conf conf' key =
      (s k : Text)
      → same_item st (codes "gate") key s k ≡ false
      → find_item st conf' s k ≡ find_item st conf s k

  -- An assignment to a text of the section of the gatekeeper
  store :
      (conf : ConfigMap) (key value : Text)
      → IsDaemons st conf
      → Defined st (codes "gate") key ValueType.string
      → (conf' : ConfigMap) × (set_string st conf (codes "gate") key value ≡ some conf')
        × IsDaemons st conf'
        × ((k : Text)
            → get_string st conf' (codes "gate") k ≡ (
                if same_item st (codes "gate") key (codes "gate") k
                then some value
                else get_string st conf (codes "gate") k))
        × Others conf conf' key
  store conf key value is_daemons def =
      let (e, there, typed, _) =
        entry_of st folds conf is_daemons (codes "gate") key ValueType.string def in
      let (conf', call, _) =
        get_string-set_string st conf (codes "gate") key (codes "gate") key e value there typed in
      (
        conf',
        call,
        set_value-shape st ValueType.string conf conf' (codes "gate") key value call ∙ is_daemons,
        λ k.
            let (conf'', call', got) =
              get_string-set_string st conf (codes "gate") key (codes "gate") k e value there
                typed in
            subst
              (λ c. get_string st c (codes "gate") k ≡ (
                if same_item st (codes "gate") key (codes "gate") k
                then some value
                else get_string st conf (codes "gate") k))
              (some-injective conf'' conf' (sym call' ∙ call)) got,
        λ s k other.
            find_item-set_string st conf conf' (codes "gate") key s k e value there typed call
              other,
      )

  -- Which of the three keys' names are equal
  named :
      (key s k : Text) (b : Bool)
      → same_item (lowered st) (codes "gate") key s k ≡ b
      → same_item st (codes "gate") key s k ≡ b
  named key s k b h =
      subst (λ t. same_item t (codes "gate") key s k ≡ b) (sym (is_lowered st folds)) h

  kept_value :
      (conf conf' : ConfigMap) (s k : Text) (type : ValueType)
      → find_item st conf' s k ≡ find_item st conf s k
      → get_value st type conf' s k ≡ get_value st type conf s k
  unfolding get_value
  kept_value conf conf' s k type h = rw h refl

  -- The configuration with the three texts
  pub record Stores (conf : ConfigMap) (made : KeyTexts) : Type 0 where
    pub conf' : ConfigMap
    pub call :
        (do
          with_k ← set_string st conf (codes "gate") (codes "crypt_k") made.k
          with_n ← set_string st with_k (codes "gate") (codes "crypt_n") made.n
          set_string st with_n (codes "gate") (codes "crypt_x") made.x)
        ≡ some conf'
    pub is_daemons : IsDaemons st conf'
    pub k_is : get_string st conf' (codes "gate") (codes "crypt_k") ≡ some made.k
    pub n_is : get_string st conf' (codes "gate") (codes "crypt_n") ≡ some made.n
    pub x_is : get_string st conf' (codes "gate") (codes "crypt_x") ≡ some made.x
    pub keeps :
        (s k : Text) (type : ValueType)
        → same_item (lowered st) (codes "gate") (codes "crypt_k") s k ≡ false
        → same_item (lowered st) (codes "gate") (codes "crypt_n") s k ≡ false
        → same_item (lowered st) (codes "gate") (codes "crypt_x") s k ≡ false
        → get_value st type conf' s k ≡ get_value st type conf s k

  pub store_all : (conf : ConfigMap) (made : KeyTexts) → IsDaemons st conf → Stores conf made
  unfolding same
  store_all conf made is_daemons =
      let (c₁, e₁, d₁, g₁, o₁) =
        store conf (codes "crypt_k") made.k is_daemons (crypt_k_defined st) in
      let (c₂, e₂, d₂, g₂, o₂) = store c₁ (codes "crypt_n") made.n d₁ (crypt_n_defined st) in
      let (c₃, e₃, d₃, g₃, o₃) = store c₂ (codes "crypt_x") made.x d₂ (crypt_x_defined st) in
      record {
        conf' = c₃;
        call = rw (e₁, e₂) e₃;
        is_daemons = d₃;
        k_is =
            rw
              (
                g₃ (codes "crypt_k"),
                named (codes "crypt_x") (codes "gate") (codes "crypt_k") false refl,
                g₂ (codes "crypt_k"),
                named (codes "crypt_n") (codes "gate") (codes "crypt_k") false refl,
                g₁ (codes "crypt_k"),
                named (codes "crypt_k") (codes "gate") (codes "crypt_k") true refl,
              )
              refl;
        n_is =
            rw
              (
                g₃ (codes "crypt_n"),
                named (codes "crypt_x") (codes "gate") (codes "crypt_n") false refl,
                g₂ (codes "crypt_n"),
                named (codes "crypt_n") (codes "gate") (codes "crypt_n") true refl,
              )
              refl;
        x_is =
            rw
              (
                g₃ (codes "crypt_x"),
                named (codes "crypt_x") (codes "gate") (codes "crypt_x") true refl,
              )
              refl;
        keeps = λ s k type a b c. kept_value conf c₃ s k type (
            o₃ s k (named (codes "crypt_x") s k false c)
            ∙ (o₂ s k (named (codes "crypt_n") s k false b)
                ∙ o₁ s k (named (codes "crypt_k") s k false a)));
      }
