-- ===== src/Daemon/Server/Loop/Lost.antt =====
-- A client of src/daemon/server.cpp that the constructor of src/daemon/client_common.cpp could not add to
-- the set of descriptors that are watched.
use theme_srv.Common.{
  ℕ, Bool, true, false, not, ◌&&◌, some, List, [], ◌∷◌, ◌++◌, ◌==◌, ◌≡◌, refl, sym, ap, subst, inl,
  inr, Bool-cases, arith, ==_iff,
}
use theme_srv.Io.Cipher.{Cipher}
use theme_srv.Io.Socket.{Socket}
use theme_srv.Io.Poll.{Events, mem, Poll, add_fd}
use theme_srv.Daemon.Client.{Client, open_client}
use theme_srv.Daemon.Server.Loop.{
  Incoming, again, failed, connection, World, fds, find_client, put_client, erase_client,
  accept_all, accept_cb,
}
use theme_srv.Daemon.Server.Loop.Clients.{differs, fds-append}
use theme_srv.Daemon.Server.Loop.Accepted.{AreFresh, open_fds}

add_fd_other :
    (p : Poll) (fd fd' : ℕ) (room : Bool)
    → (fd == fd') ≡ false
    → mem fd p.callbacks ≡ false
    → mem fd (add_fd p fd' room).1.callbacks ≡ false
unfolding add_fd
add_fd_other p fd fd' room other h = elim (Bool-cases (mem fd' p.callbacks)) [
  | inl old ↦ rw old h
  | inr new ↦ elim (Bool-cases (room && not (mem fd' p.watched))) [
    | inl taken ↦ rw (new, taken) (rw (other, h) refl)
    | inr full ↦ rw (new, full) h
  ]
]

module _ {ev : Cipher} where
  -- The client is there, and no entry calls it.
  pub record IsLost (fd : ℕ) (cli : Client ev) (w : World ev) : Type 0 where
    pub client_is : find_client fd w.clients ≡ some cli
    pub no_entry : mem fd w.poll.callbacks ≡ false

  find_client-append :
      (fd : ℕ) (xs ys : List (ℕ × Client ev)) {cli : Client ev}
      → find_client fd xs ≡ some cli
      → find_client fd (xs ++ ys) ≡ some cli
  find_client-append fd [] ys h = cc
  find_client-append fd ((fd', c) ∷ xs) ys h = elim (Bool-cases (fd == fd')) [
    | inl e ↦ rw e (rw e at h)
    | inr e ↦ rw e (find_client-append fd xs ys (rw e at h))
  ]

  find_client_last :
      (fd : ℕ) (xs : List (ℕ × Client ev)) (cli : Client ev)
      → mem fd (fds xs) ≡ false
      → find_client fd (xs ++ (fd, cli) ∷ []) ≡ some cli
  find_client_last fd [] cli h = rw ((==_iff fd fd).1 refl) refl
  find_client_last fd ((fd', c) ∷ xs) cli h = elim (Bool-cases (fd == fd')) [
    | inl e ↦ absurd (let z = rw e at h in cc)
    | inr e ↦ rw e (find_client_last fd xs cli (rw e at h))
  ]

  pub find_client-put_client :
      (fd fd' : ℕ) (c : Client ev) (xs : List (ℕ × Client ev))
      → (fd == fd') ≡ false
      → find_client fd (put_client fd' c xs) ≡ find_client fd xs
  find_client-put_client fd fd' c [] other = refl
  find_client-put_client fd fd' c ((x, c') ∷ xs) other = elim (Bool-cases (fd' == x)) [
    | inl e ↦ let z : fd' ≡ x = (==_iff fd' x).0 e in rw (e, ← z, other) refl
    | inr e ↦ rw e (elim (Bool-cases (fd == x)) [
      | inl e' ↦ rw e' refl
      | inr e' ↦ rw e' (find_client-put_client fd fd' c xs other)
    ])
  ]

  pub find_client-erase_client :
      (fd fd' : ℕ) (xs : List (ℕ × Client ev))
      → (fd == fd') ≡ false
      → find_client fd (erase_client fd' xs) ≡ find_client fd xs
  find_client-erase_client fd fd' [] other = refl
  find_client-erase_client fd fd' ((x, c') ∷ xs) other = elim (Bool-cases (fd' == x)) [
    | inl e ↦
        let z : fd' ≡ x = (==_iff fd' x).0 e in
        rw (e, ← z, other) (find_client-erase_client fd fd' xs other)
    | inr e ↦ rw e (elim (Bool-cases (fd == x)) [
      | inl e' ↦ rw e' refl
      | inr e' ↦ rw e' (find_client-erase_client fd fd' xs other)
    ])
  ]

  mem-find_client :
      (fd : ℕ) (xs : List (ℕ × Client ev)) {cli : Client ev}
      → find_client fd xs ≡ some cli
      → mem fd (fds xs) ≡ true
  mem-find_client fd [] h = absurd cc
  mem-find_client fd ((fd', c) ∷ xs) h = elim (Bool-cases (fd == fd')) [
    | inl e ↦ rw e refl
    | inr e ↦ rw e (mem-find_client fd xs (rw e at h))
  ]

  is_open : {fd : ℕ} {cli : Client ev} (w : World ev) → IsLost fd cli w → mem fd (open_fds w) ≡ true
  is_open {fd} w lost = let z = mem-find_client fd w.clients lost.client_is in ground (arith, z)

  accept_all-IsLost :
      (incoming : List Incoming) {fd : ℕ} {cli : Client ev} (w : World ev)
      → IsLost fd cli w
      → AreFresh (open_fds w) incoming
      → IsLost fd cli (accept_all incoming w)
  unfolding accept_all
  accept_all-IsLost [] w lost fresh = lost
  accept_all-IsLost (again ∷ rest) w lost fresh = lost
  accept_all-IsLost (failed ∷ rest) w lost fresh = lost
  accept_all-IsLost (connection fd' sock room ∷ rest) {fd} w lost fresh =
      let other = differs fd fd' (open_fds w) fresh.0 (is_open w lost) in
      accept_all-IsLost rest _
        (record {
          client_is = find_client-append fd w.clients _ lost.client_is;
          no_entry = add_fd_other w.poll fd fd' room other lost.no_entry;
        })
        (subst (λ z. AreFresh z rest) (sym (ap (◌∷◌ w.listen_fd) (fds-append w.clients _))) fresh.1)

  pub accept_cb-IsLost :
      (incoming : List Incoming) (mask : Events) {fd : ℕ} {cli : Client ev} (w : World ev)
      → IsLost fd cli w
      → AreFresh (open_fds w) incoming
      → IsLost fd cli (accept_cb incoming mask w)
  unfolding accept_cb
  accept_cb-IsLost incoming mask w lost fresh = elim (Bool-cases mask.readable) [
    | inl e ↦ rw e (accept_all-IsLost incoming w lost fresh)
    | inr e ↦ rw e lost
  ]

  -- The connection that the kernel does not take
  pub connection-IsLost :
      (fd : ℕ) (sock : Socket) (rest : List Incoming) (mask : Events) (w : World ev)
      → mask.readable ≡ true
      → mem fd w.poll.callbacks ≡ false
      → AreFresh (open_fds w) (connection fd sock false ∷ rest)
      → IsLost fd (open_client sock false) (accept_cb (connection fd sock false ∷ rest) mask w)
  unfolding accept_cb accept_all add_fd
  connection-IsLost fd sock rest mask w readable absent fresh =
      let apart : mem fd (fds w.clients) ≡ false = let z = fresh.0 in ground (arith, z) in
      let lost =
        accept_all-IsLost rest
          (record w { clients = w.clients ++ (fd, open_client sock false) ∷ [] })
          (record { client_is = find_client_last fd w.clients _ apart; no_entry = absent })
          (subst (λ z. AreFresh z rest) (sym (ap (◌∷◌ w.listen_fd) (fds-append w.clients _)))
            fresh.1) in
      rw (readable, absent) lost
