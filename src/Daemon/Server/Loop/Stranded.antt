-- ===== src/Daemon/Server/Loop/Stranded.antt =====
-- What becomes of a client of src/daemon/server.cpp that no entry of the table of callbacks calls, as the
-- server runs on.
use theme_srv.Common.{
  ℕ, Bool, true, false, some, List, ◌∷◌, ◌==◌, ◌≡◌, refl, sym, ◌∙◌, ap, subst, inl, inr, Bool-cases,
  Option-cases, ==_iff,
}
use theme_srv.Io.Cipher.{Cipher}
use theme_srv.Io.Crypto.{Bignums}
use theme_srv.Io.Socket.{Socket}
use theme_srv.Io.Poll.{Events, xlate_epoll_to_mask, mem}
use theme_srv.Daemon.Client.{Client, Site, open_client}
use theme_srv.Daemon.Pump.{Ending, alive, erased, faulted, unending, handle_dispatch}
use theme_srv.Daemon.Server.Loop.{
  Incoming, connection, Pending, World, After, running, dangling, crashed, find_client,
  settle_client, after_callback, unwatch, callback, deliver_event,
}
use theme_srv.Daemon.Server.Loop.Clients.{Within, mem-erase_absent}
use theme_srv.Daemon.Server.Loop.Accepted.{AreFresh, open_fds, IsSound}
use theme_srv.Daemon.Server.Loop.Reached.{
  Step, waits, delivers, Reached, Reached-IsSound, Step-IsSound, first_pending,
}
use theme_srv.Daemon.Server.Loop.Lost.{
  IsLost, find_client-put_client, find_client-erase_client, accept_cb-IsLost, connection-IsLost,
}

outside : (x : ℕ) (xs ys : List ℕ) → Within xs ys → mem x ys ≡ false → mem x xs ≡ false
outside x xs ys within h = elim (Bool-cases (mem x xs)) [
  | inl there ↦ absurd (let z = within x there in cc)
  | inr absent ↦ absent
]

module _ {ev : Cipher} where
  -- Wherever a callback leaves the server running, the client is lost.
  abbrev LeavesLost : ℕ → Client ev → After ev → Type 0
  LeavesLost fd cli (running w) = IsLost fd cli w
  LeavesLost fd cli dangling = Unit
  LeavesLost fd cli crashed = Unit

  settle_client-IsLost :
      (fd fd' : ℕ) (cli : Client ev) (w : World ev) (e : Ending ev)
      → (fd == fd') ≡ false
      → IsLost fd cli w
      → LeavesLost fd cli (settle_client w fd' e)
  unfolding settle_client
  settle_client-IsLost fd fd' cli w (alive c) other lost = record {
    client_is = find_client-put_client fd fd' c w.clients other ∙ lost.client_is;
    no_entry = lost.no_entry;
  }
  settle_client-IsLost fd fd' cli w erased other lost = record {
    client_is = find_client-erase_client fd fd' w.clients other ∙ lost.client_is;
    no_entry = lost.no_entry;
  }
  settle_client-IsLost fd fd' cli w faulted other lost = tt
  settle_client-IsLost fd fd' cli w unending other lost = tt

  after_callback-IsLost :
      (fd fd' : ℕ) (cli : Client ev) (hup : Bool) (a : After ev)
      → LeavesLost fd cli a
      → LeavesLost fd cli (after_callback fd' hup a)
  unfolding after_callback
  after_callback-IsLost fd fd' cli true (running w) lost = record {
    client_is = lost.client_is;
    no_entry = mem-erase_absent fd fd' w.poll.callbacks lost.no_entry;
  }
  after_callback-IsLost fd fd' cli false (running w) lost = lost
  after_callback-IsLost fd fd' cli hup dangling lost = tt
  after_callback-IsLost fd fd' cli hup crashed lost = tt

  unwatch-IsLost :
      (fd fd' : ℕ) {cli : Client ev} (hup : Bool) (w : World ev)
      → IsLost fd cli w
      → IsLost fd cli (unwatch fd' hup w)
  unwatch-IsLost fd fd' true w lost = record {
    client_is = lost.client_is;
    no_entry = lost.no_entry;
  }
  unwatch-IsLost fd fd' false w lost = lost

  unwatch_open :
      (fd : ℕ) (hup : Bool) (w : World ev)
      → (open_fds (unwatch fd hup w) ≡ open_fds w)
        × ((unwatch fd hup w).clients ≡ w.clients)
        × ((unwatch fd hup w).listen_fd ≡ w.listen_fd)
        × ((unwatch fd hup w).poll.callbacks ≡ w.poll.callbacks)
  unwatch_open fd true w = (refl, refl, refl, refl)
  unwatch_open fd false w = (refl, refl, refl, refl)

  module _ {bn : Bignums} (site : Site bn) (rounds fuel : ℕ) where
    callback-IsLost :
        (fd : ℕ) (cli : Client ev) (w : World ev) (e : Pending) (mask : Events)
        → (fd == e.fd) ≡ false
        → IsLost fd cli w
        → AreFresh (open_fds w) e.incoming
        → LeavesLost fd cli (callback site rounds fuel w e mask)
    unfolding callback
    callback-IsLost fd cli w e mask other lost fresh = elim (Bool-cases (e.fd == w.listen_fd)) [
      | inl at_listen ↦ rw at_listen (accept_cb-IsLost e.incoming mask w lost fresh)
      | inr client ↦ rw client (elim (Option-cases (find_client e.fd w.clients)) [
        | inl absent ↦ rw absent tt
        | inr (c, there) ↦ rw there (
            settle_client-IsLost fd e.fd cli w
              (handle_dispatch site rounds fuel c mask.hup mask.writable mask.readable) other lost)
      ])
    ]

    deliver_event-IsLost :
        (fd : ℕ) (cli : Client ev) (w : World ev) (e : Pending)
        → IsLost fd cli w
        → AreFresh (open_fds w) e.incoming
        → mem e.fd w.poll.callbacks ≡ true
        → LeavesLost fd cli (deliver_event site rounds fuel w e)
    unfolding deliver_event
    deliver_event-IsLost fd cli w e lost fresh entry =
        let mask = xlate_epoll_to_mask e.events in
        let other : (fd == e.fd) ≡ false = elim (Bool-cases (fd == e.fd)) [
          | inl same ↦ absurd (
              let z : fd ≡ e.fd = (==_iff fd e.fd).0 same in
              let n = lost.no_entry in cc (entry, n, z))
          | inr other ↦ other
        ] in
        rw entry (
          after_callback-IsLost fd e.fd cli mask.hup _ (
            callback-IsLost fd cli (unwatch e.fd mask.hup w) e mask other
              (unwatch-IsLost fd e.fd mask.hup w lost)
              (subst (λ z. AreFresh z e.incoming) (sym (unwatch_open e.fd mask.hup w).0) fresh)))

    -- The states of the server from one on.
    pub data Later : World ev → World ev → Type 0 where
      now : {w : World ev} → Later w w
      next : {w w' w'' : World ev} → Later w w' → Step site rounds fuel w' w'' → Later w w''

    Step-IsLost :
        (fd : ℕ) {cli : Client ev} {w w' : World ev}
        → IsSound w
        → Step site rounds fuel w w'
        → IsLost fd cli w
        → IsLost fd cli w'
    Step-IsLost fd sound (waits w es h watched distinct) lost = record {
      client_is = lost.client_is;
      no_entry = lost.no_entry;
    }
    Step-IsLost fd {cli} sound (delivers w w' e es h fresh call) lost =
        let (s', entry, last) = first_pending site rounds fuel w e es h sound in
        subst (LeavesLost fd cli) call (
          deliver_event-IsLost fd cli (record w { pending = es }) e
            (record { client_is = lost.client_is; no_entry = lost.no_entry }) fresh entry)

    Later-IsLost :
        (fd : ℕ) {cli : Client ev} {w w' : World ev}
        → IsSound w
        → Later w w'
        → IsLost fd cli w
        → IsSound w' × IsLost fd cli w'
    Later-IsLost fd sound now lost = (sound, lost)
    Later-IsLost fd sound (next l step) lost =
        let (s, k) = Later-IsLost fd sound l lost in
        (Step-IsSound site rounds fuel step s, Step-IsLost fd s step k)

    -- The delivery that accepts it
    accepted-LeavesLost :
        (fd : ℕ) (sock : Socket) (rest : List Incoming) (w : World ev) (e : Pending)
        → mem e.fd w.poll.callbacks ≡ true
        → mem fd w.poll.callbacks ≡ false
        → AreFresh (open_fds w) (connection fd sock false ∷ rest)
        → e.fd ≡ w.listen_fd
        → (xlate_epoll_to_mask e.events).readable ≡ true
        → e.incoming ≡ connection fd sock false ∷ rest
        → LeavesLost fd (open_client sock false) (deliver_event site rounds fuel w e)
    unfolding deliver_event callback
    accepted-LeavesLost fd sock rest w e entry absent fresh at_listen readable incoming =
        let mask = xlate_epoll_to_mask e.events in
        let w' = unwatch e.fd mask.hup w in
        let (opens, same, listens, entries) = unwatch_open e.fd mask.hup w in
        let here : (e.fd == w'.listen_fd) ≡ true =
          (==_iff e.fd w'.listen_fd).1 (at_listen ∙ sym listens) in
        let lost =
          connection-IsLost fd sock rest mask w' readable (ap (mem fd) entries ∙ absent)
            (subst (λ z. AreFresh z (connection fd sock false ∷ rest)) (sym opens) fresh) in
        rw entry (
          after_callback-IsLost fd e.fd (open_client sock false) mask.hup _
            (rw (here, incoming) lost))

    -- Suppose that each wait gives events of different descriptors that are watched and that
    -- `accept4` gives no descriptor that is open. In a state that a running server reaches, let
    -- the next event be of the listening socket, with something to accept, and let the first
    -- connection be one that the kernel does not take into the set that is watched. If the
    -- delivery of the event leaves the server running, then in every later state the client of
    -- this connection is there, as it was opened, and its descriptor is neither watched nor in
    -- the table of callbacks.
    pub deliver_event-Later :
        (listen fd : ℕ) (sock : Socket) (rest : List Incoming) (w w₁ w' : World ev) (e : Pending)
        (es : List Pending)
        → Reached site rounds fuel listen w
        → w.pending ≡ e ∷ es
        → AreFresh (open_fds w) e.incoming
        → e.fd ≡ w.listen_fd
        → (xlate_epoll_to_mask e.events).readable ≡ true
        → e.incoming ≡ connection fd sock false ∷ rest
        → deliver_event site rounds fuel (record w { pending = es }) e ≡ running w₁
        → Later w₁ w'
        → (find_client fd w'.clients ≡ some (open_client sock false))
          × (mem fd w'.poll.callbacks ≡ false)
          × (mem fd w'.poll.watched ≡ false)
    deliver_event-Later listen fd sock rest w w₁ w' e es reached h fresh at_listen readable incoming
          call later =
        let sound = Reached-IsSound site rounds fuel listen reached in
        let (s', entry, last) = first_pending site rounds fuel w e es h sound in
        let fresh' = subst (AreFresh (open_fds w)) incoming fresh in
        let absent = outside fd w.poll.callbacks (open_fds w) sound.entry_has fresh'.0 in
        let lost : IsLost fd (open_client sock false) w₁ =
          subst (LeavesLost fd (open_client sock false)) call (
            accepted-LeavesLost fd sock rest (record w { pending = es }) e entry absent fresh'
              at_listen readable incoming) in
        let sound₁ = Step-IsSound site rounds fuel (delivers w w₁ e es h fresh call) sound in
        let (sound', lost') = Later-IsLost fd sound₁ later lost in
        (
          lost'.client_is,
          lost'.no_entry,
          outside fd w'.poll.watched w'.poll.callbacks sound'.watched_has lost'.no_entry,
        )
