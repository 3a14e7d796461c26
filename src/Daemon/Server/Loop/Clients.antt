-- ===== src/Daemon/Server/Loop/Clients.antt =====
-- The clients of the server by their descriptors.
use theme_srv.Common.{
  ℕ, true, false, ◌||◌, some, List, [], ◌∷◌, ◌++◌, ◌==◌, ◌≡◌, refl, ◌∙◌, ap, inl, inr, arith,
  Bool-cases, ==_iff,
}
use theme_srv.Io.Cipher.{Cipher}
use theme_srv.Io.Poll.{mem, erase}
use theme_srv.Daemon.Client.{Client}
use theme_srv.Daemon.Server.Loop.{fds, find_client, put_client, erase_client}

abbrev pub Distinct : List ℕ → Type 0
Distinct [] = Unit
Distinct (x ∷ xs) = (mem x xs ≡ false) × Distinct xs

-- Each member of the first is one of the second.
abbrev pub Within : List ℕ → List ℕ → Type 0
Within xs ys = (x : ℕ) → mem x xs ≡ true → mem x ys ≡ true

pub mem-append : (x : ℕ) (xs ys : List ℕ) → mem x (xs ++ ys) ≡ (mem x xs || mem x ys)
mem-append x [] ys = refl
mem-append x (y ∷ xs) ys = ground (arith, mem-append x xs ys)

pub Distinct-snoc : (xs : List ℕ) (y : ℕ) → Distinct xs → mem y xs ≡ false → Distinct (xs ++ y ∷ [])
Distinct-snoc [] y d h = (refl, tt)
Distinct-snoc (x ∷ xs) y d h =
    let (a, b) = apart x xs y h in
    (mem-append x xs (y ∷ []) ∙ ground (arith, d.0, a), Distinct-snoc xs y d.1 b)
  where
    apart :
        (x : ℕ) (xs : List ℕ) (y : ℕ)
        → mem y (x ∷ xs) ≡ false
        → ((x == y) ≡ false) × (mem y xs ≡ false)
    apart x xs y h = (ground arith, ground arith)

pub mem-erase_absent : (x y : ℕ) (xs : List ℕ) → mem x xs ≡ false → mem x (erase y xs) ≡ false
mem-erase_absent x y [] h = refl
mem-erase_absent x y (z ∷ xs) h = ground (arith, mem-erase_absent x y xs)

pub Distinct-erase : (y : ℕ) (xs : List ℕ) → Distinct xs → Distinct (erase y xs)
Distinct-erase y [] d = tt
Distinct-erase y (x ∷ xs) d = elim (Bool-cases (y == x)) [
  | inl e ↦ rw e (Distinct-erase y xs d.1)
  | inr e ↦ rw e (mem-erase_absent x y xs d.0, Distinct-erase y xs d.1)
]

pub differs : (x fd : ℕ) (xs : List ℕ) → mem fd xs ≡ false → mem x xs ≡ true → (x == fd) ≡ false
differs x fd xs h h' = elim (Bool-cases (x == fd)) [
  | inl e ↦ absurd (let z : x ≡ fd = (==_iff x fd).0 e in cc (h, h', z))
  | inr e ↦ e
]

module _ {ev : Cipher} where
  pub fds-append : (xs ys : List (ℕ × Client ev)) → fds (xs ++ ys) ≡ fds xs ++ fds ys
  fds-append [] ys = refl
  fds-append ((fd, cli) ∷ xs) ys = ap (◌∷◌ fd) (fds-append xs ys)

  pub fds-put_client :
      (fd : ℕ) (cli : Client ev) (xs : List (ℕ × Client ev)) → fds (put_client fd cli xs) ≡ fds xs
  fds-put_client fd cli [] = refl
  fds-put_client fd cli ((fd', c) ∷ xs) = elim (Bool-cases (fd == fd')) [
    | inl e ↦ rw e refl
    | inr e ↦ rw e (ap (◌∷◌ fd') (fds-put_client fd cli xs))
  ]

  pub fds-erase_client :
      (fd : ℕ) (xs : List (ℕ × Client ev)) → fds (erase_client fd xs) ≡ erase fd (fds xs)
  fds-erase_client fd [] = refl
  fds-erase_client fd ((fd', c) ∷ xs) = elim (Bool-cases (fd == fd')) [
    | inl e ↦ rw e (fds-erase_client fd xs)
    | inr e ↦ rw e (ap (◌∷◌ fd') (fds-erase_client fd xs))
  ]

  -- A descriptor of a client has its client.
  pub find_client-mem :
      (fd : ℕ) (xs : List (ℕ × Client ev))
      → mem fd (fds xs) ≡ true
      → (cli : Client ev) × (find_client fd xs ≡ some cli)
  find_client-mem fd [] h = cc
  find_client-mem fd ((fd', c) ∷ xs) h = elim (Bool-cases (fd == fd')) [
    | inl e ↦ (c, rw e refl)
    | inr e ↦ let (cli, there) = find_client-mem fd xs (rw e at h) in (cli, rw e there)
  ]
