-- ===== src/Daemon/Server/Loop/Accepted.antt =====
-- What `accept_cb` of src/daemon/server.cpp keeps.
use theme_srv.Common.{
  ℕ, Bool, true, false, not, ◌&&◌, ◌||◌, List, [], ◌∷◌, ◌++◌, ◌==◌, ◌≡◌, refl, sym, ◌∙◌, ap, subst,
  inl, inr, arith, Bool-cases, ==_iff, ◌⊎◌,
}
use theme_srv.Io.Cipher.{Cipher}
use theme_srv.Io.Socket.{Socket}
use theme_srv.Io.Poll.{mem, Poll, add_fd}
use theme_srv.Io.Poll.Table.{covers_cons}
use theme_srv.Daemon.Client.{open_client}
use theme_srv.Daemon.Server.Loop.{
  Incoming, again, failed, connection, Pending, World, fds, accept_all,
}
use theme_srv.Daemon.Server.Loop.Clients.{Distinct, Within, mem-append, Distinct-snoc, fds-append}

abbrev pub pending_fds : List Pending → List ℕ
pending_fds [] = []
pending_fds (e ∷ es) = e.fd ∷ pending_fds es

-- The kernel gives no connection a descriptor that is open.
abbrev pub AreFresh : List ℕ → List Incoming → Type 0
AreFresh used [] = Unit
AreFresh used (again ∷ rest) = Unit
AreFresh used (failed ∷ rest) = Unit
AreFresh used (connection fd sock room ∷ rest) =
    (mem fd used ≡ false) × AreFresh (used ++ fd ∷ []) rest

-- `add_fd` keeps what is watched among the entries, adds nothing but its descriptor, and removes
-- nothing.
record Adds (p : Poll) (fd : ℕ) (p' : Poll) : Type 0 where
  watched_has : Within p'.watched p'.callbacks
  entries : (x : ℕ) → mem x p'.callbacks ≡ true → ((x == fd) || mem x p.callbacks) ≡ true
  keeps : Within p.callbacks p'.callbacks
  others : (x : ℕ) → (x == fd) ≡ false → mem x p'.watched ≡ mem x p.watched

add_fd-Adds :
    (p : Poll) (fd : ℕ) (room : Bool)
    → Within p.watched p.callbacks
    → Adds p fd (add_fd p fd room).1
unfolding add_fd
add_fd-Adds p fd room c = elim (Bool-cases (mem fd p.callbacks)) [
  | inl old ↦ rw old (record {
    watched_has = c;
    entries = λ x h. ground arith;
    keeps = λ x h. h;
    others = λ x h. refl;
  })
  | inr new ↦ elim (Bool-cases (room && not (mem fd p.watched))) [
    | inl taken ↦
        rw (new, taken)
          (record {
            watched_has = λ x h. covers_cons fd x p.callbacks p.watched (c x) h;
            entries = λ x h. h;
            keeps = λ x h. ground arith;
            others = λ x h. rw h refl;
          })
    | inr full ↦
        rw (new, full)
          (record {
            watched_has = c;
            entries = λ x h. ground arith;
            keeps = λ x h. h;
            others = λ x h. refl;
          })
  ]
]

module _ {ev : Cipher} where
  abbrev pub open_fds : World ev → List ℕ
  open_fds w = w.listen_fd ∷ fds w.clients

  -- What is watched has its entry; an entry is the listening socket's or a client's, which have
  -- different descriptors; the events that wait are of different descriptors with entries.
  pub record IsSound (w : World ev) : Type 0 where
    pub watched_has : Within w.poll.watched w.poll.callbacks
    pub entry_has : Within w.poll.callbacks (open_fds w)
    pub open_distinct : Distinct (open_fds w)
    pub pending_has : Within (pending_fds w.pending) w.poll.callbacks
    pub pending_distinct : Distinct (pending_fds w.pending)

  -- What the loop of `accept_cb` leaves alone.
  pub record Keeps (w w' : World ev) : Type 0 where
    pub listen_is : w'.listen_fd ≡ w.listen_fd
    pub pending_is : w'.pending ≡ w.pending
    pub watched_is :
        (x : ℕ) → mem x (open_fds w) ≡ true → mem x w'.poll.watched ≡ mem x w.poll.watched

  abbrev with_client : World ev → ℕ → Socket → Bool → World ev
  with_client w fd sock room =
      let added = add_fd w.poll fd room in
      record w { poll = added.1; clients = w.clients ++ (fd, open_client sock added.0) ∷ [] }

  pub kept : (w : World ev) → Keeps w w
  kept w = record { listen_is = refl; pending_is = refl; watched_is = λ x h. refl }

  -- One connection
  module _ (w : World ev) (fd : ℕ) (sock : Socket) (room : Bool) (sound : IsSound w)
      (new : mem fd (open_fds w) ≡ false) where
    more_fds : open_fds (with_client w fd sock room) ≡ open_fds w ++ fd ∷ []
    more_fds = ap (◌∷◌ w.listen_fd) (fds-append w.clients _)

    grown :
        (x : ℕ)
        → ((x == fd) ≡ true) ⊎ (mem x (open_fds w) ≡ true)
        → mem x (open_fds w ++ fd ∷ []) ≡ true
    grown x (inl e) = mem-append x (open_fds w) (fd ∷ []) ∙ ground (arith, e)
    grown x (inr h) = mem-append x (open_fds w) (fd ∷ []) ∙ rw h refl

    with_client-IsSound : IsSound (with_client w fd sock room)
    with_client-IsSound =
        let adds = add_fd-Adds w.poll fd room sound.watched_has in
        record {
          watched_has = adds.watched_has;
          entry_has = λ x h.
              subst (λ z. mem x z ≡ true) (sym more_fds)
                (grown x (elim (Bool-cases (x == fd)) [
                  | inl e ↦ inl e
                  | inr e ↦ inr (sound.entry_has x (let z = adds.entries x h in rw e at z))
                ]));
          open_distinct =
              subst Distinct (sym more_fds) (Distinct-snoc (open_fds w) fd sound.open_distinct new);
          pending_has = λ x h. adds.keeps x (sound.pending_has x h);
          pending_distinct = sound.pending_distinct;
        }

    with_client-Keeps : Keeps w (with_client w fd sock room)
    with_client-Keeps =
        let adds = add_fd-Adds w.poll fd room sound.watched_has in
        record {
          listen_is = refl;
          pending_is = refl;
          watched_is = λ x h. adds.others x (elim (Bool-cases (x == fd)) [
            | inl e ↦ absurd (let z : x ≡ fd = (==_iff x fd).0 e in cc (h, new, z))
            | inr e ↦ e
          ]);
        }

  pub accept_all-IsSound :
      (incoming : List Incoming) (w : World ev)
      → IsSound w
      → AreFresh (open_fds w) incoming
      → IsSound (accept_all incoming w) × Keeps w (accept_all incoming w)
  unfolding accept_all
  accept_all-IsSound [] w sound fresh = (sound, kept w)
  accept_all-IsSound (again ∷ rest) w sound fresh = (sound, kept w)
  accept_all-IsSound (failed ∷ rest) w sound fresh = (sound, kept w)
  accept_all-IsSound (connection fd sock room ∷ rest) w sound fresh =
      let first = with_client-Keeps w fd sock room sound fresh.0 in
      let (sound', k) =
        accept_all-IsSound rest (with_client w fd sock room)
          (with_client-IsSound w fd sock room sound fresh.0)
          (subst (λ z. AreFresh z rest) (sym (more_fds w fd sock room sound fresh.0)) fresh.1) in
      (
        sound',
        record {
          listen_is = k.listen_is ∙ first.listen_is;
          pending_is = k.pending_is ∙ first.pending_is;
          watched_is = λ x h.
              k.watched_is x (
                subst (λ z. mem x z ≡ true) (sym (more_fds w fd sock room sound fresh.0))
                  (grown w fd sock room sound fresh.0 x (inr h)))
              ∙ first.watched_is x h;
        },
      )
