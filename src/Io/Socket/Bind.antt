-- ===== src/Io/Socket/Bind.antt =====
-- `bind` of src/io/socket.cpp: the loop over the addresses that `getaddrinfo` found.
use theme_srv.Common.{
  ℕ, zero, suc, ◌≡◌, refl, ◌∙◌, ◌⊎◌, inl, inr, Option, none, some, List, [], ◌∷◌,
}

-- What `::socket` and `::bind` give for an address: no descriptor, a refusal (the descriptor is
-- closed), or a bound descriptor.
pub data Attempt : Type 0 where
  no_socket refused : Attempt
  bound : ℕ → Attempt

-- How `bind` ends: with a descriptor, without one, or not within the rounds given.
pub data Bound : Type 0 where
  binds : ℕ → Bound
  fails endless : Bound

or_again : Attempt → Bound → Bound
or_again no_socket again = again
or_again refused again = again
or_again (bound fd) again = binds fd

-- An attempt that does not bind
abbrev pub IsRefused : Attempt → Type 0
IsRefused t = (t ≡ no_socket) ⊎ (t ≡ refused)

or_again-IsRefused : (t : Attempt) (later : Bound) → IsRefused t → or_again t later ≡ later
unfolding or_again
or_again-IsRefused t later (inl e) = rw e refl
or_again-IsRefused t later (inr e) = rw e refl

module _ {A : Type 0} where
  -- `addrListPtr->ai_next`
  abbrev pub next_address : List A → Option A
  next_address [] = none
  next_address (a ∷ []) = none
  next_address (a ∷ b ∷ rest) = some b

  abbrev pub first_address : List A → Option A
  first_address [] = none
  first_address (a ∷ rest) = some a

  -- The loop from an address on; `attempt` tells what happens to it in which round.
  unfoldable pub bind_from : (A → ℕ → Attempt) → List A → ℕ → ℕ → Option A → Bound
  unfolding or_again
  bind_from attempt addresses zero round it = endless
  bind_from attempt addresses (suc fuel) round none = fails
  bind_from attempt addresses (suc fuel) round (some a) =
      or_again (attempt a round)
        (bind_from attempt addresses fuel (suc round) (next_address addresses))

  -- `none` for the addresses is an error of `getaddrinfo`.
  unfoldable pub bind : (A → ℕ → Attempt) → ℕ → Option (List A) → Bound
  bind attempt fuel none = fails
  bind attempt fuel (some addresses) = bind_from attempt addresses fuel 0 (first_address addresses)

  second_again :
      (attempt : A → ℕ → Attempt) (a b : A) (rest : List A)
      → ((round : ℕ) → IsRefused (attempt b round))
      → (fuel round : ℕ) → bind_from attempt (a ∷ b ∷ rest) fuel round (some b) ≡ endless
  unfolding bind_from
  second_again attempt a b rest refuses zero round = refl
  second_again attempt a b rest refuses (suc fuel) round =
      or_again-IsRefused (attempt b round) _ (refuses round)
      ∙ second_again attempt a b rest refuses fuel (suc round)

  -- If the first address cannot be bound, and the second one never can, `bind` does not end,
  -- whatever addresses follow: no number of rounds is enough.
  pub bind_second :
      (attempt : A → ℕ → Attempt) (a b : A) (rest : List A) (fuel : ℕ)
      → IsRefused (attempt a 0)
      → ((round : ℕ) → IsRefused (attempt b round))
      → bind attempt fuel (some (a ∷ b ∷ rest)) ≡ endless
  unfolding bind bind_from
  bind_second attempt a b rest zero h h' = refl
  bind_second attempt a b rest (suc fuel) h h' =
      or_again-IsRefused (attempt a 0) _ h ∙ second_again attempt a b rest h' fuel 1
