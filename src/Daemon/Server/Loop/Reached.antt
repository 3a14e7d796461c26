-- ===== src/Daemon/Server/Loop/Reached.antt =====
-- What holds whenever the server of src/daemon/server.cpp delivers an event.
use theme_srv.Common.{
  ℕ, Bool, true, false, some, List, [], ◌∷◌, ◌==◌, ◌≡◌, refl, ◌∙◌, ap, subst, inl, inr, Bool-cases,
  arith,
}
use theme_srv.Io.Cipher.{Cipher}
use theme_srv.Io.Crypto.{Bignums}
use theme_srv.Io.Poll.{Events, xlate_epoll_to_mask, mem}
use theme_srv.Io.Poll.Table.{mem-erase_same, mem-erase_found}
use theme_srv.Daemon.Client.{Client, Site}
use theme_srv.Daemon.Pump.{Ending, alive, erased, faulted, unending, handle_dispatch}
use theme_srv.Daemon.Pump.Endings.{is_erased, handle_dispatch-is_erased}
use theme_srv.Daemon.Server.Loop.{
  Pending, World, After, running, dangling, crashed, find_client, accept_cb, settle_client,
  after_callback, unwatch, callback, deliver_event, listening,
}
use theme_srv.Daemon.Server.Loop.Clients.{Distinct, Within, find_client-mem}
use theme_srv.Daemon.Server.Loop.Accepted.{pending_fds, AreFresh, open_fds, IsSound}
use theme_srv.Daemon.Server.Loop.Entries.{
  accept_cb-IsSound, IsSoundBut, erased_entry, sound_but, put_client-IsSound,
  erase_client-IsSoundBut,
}

module _ {ev : Cipher} where
  -- Nothing is used that is no longer there, and the server stays sound.
  abbrev pub IsSafe : After ev → Type 0
  IsSafe (running w) = IsSound w
  IsSafe dangling = ⊥
  IsSafe crashed = Unit

  settle_alive :
      (fd : ℕ) (w : World ev) (e : Ending ev)
      → is_erased e ≡ false
      → IsSound w
      → IsSafe (after_callback fd false (settle_client w fd e))
  unfolding after_callback settle_client
  settle_alive fd w (alive cli) h s = put_client-IsSound fd cli w s
  settle_alive fd w erased h s = absurd cc
  settle_alive fd w faulted h s = tt
  settle_alive fd w unending h s = tt

  settle_erased :
      (fd : ℕ) (w : World ev) (e : Ending ev)
      → is_erased e ≡ true
      → (fd == w.listen_fd) ≡ false
      → IsSoundBut fd w
      → IsSafe (after_callback fd true (settle_client w fd e))
  unfolding after_callback settle_client
  settle_erased fd w (alive cli) h client s = absurd cc
  settle_erased fd w erased h client s = erased_entry fd _ (erase_client-IsSoundBut fd w client s)
  settle_erased fd w faulted h client s = tt
  settle_erased fd w unending h client s = tt

  unwatch-IsSound : (fd : ℕ) (w : World ev) → IsSound w → IsSound (unwatch fd true w)
  unwatch-IsSound fd w s = record {
    watched_has = λ x h. s.watched_has x (mem-erase_found x fd w.poll.watched h).1;
    entry_has = s.entry_has;
    open_distinct = s.open_distinct;
    pending_has = s.pending_has;
    pending_distinct = s.pending_distinct;
  }

  module _ {bn : Bignums} (site : Site bn) (rounds fuel : ℕ) where
    is_client :
        (w : World ev) (fd : ℕ)
        → IsSound w
        → mem fd w.poll.callbacks ≡ true
        → (fd == w.listen_fd) ≡ false
        → (cli : Client ev) × (find_client fd w.clients ≡ some cli)
    is_client w fd sound entry client =
        find_client-mem fd w.clients (let z = sound.entry_has fd entry in rw client at z)

    callback-IsSafe :
        (hup writable readable : Bool) (w : World ev) (e : Pending)
        → IsSound w
        → AreFresh (open_fds w) e.incoming
        → mem e.fd w.poll.callbacks ≡ true
        → mem e.fd (pending_fds w.pending) ≡ false
        → IsSafe (
            after_callback e.fd hup (
              callback site rounds fuel
                (unwatch e.fd hup w)
                e
                (record { readable = readable; writable = writable; hup = hup })))
    unfolding callback after_callback
    callback-IsSafe true writable readable w e sound fresh entry last =
        let mask : Events = record { readable = readable; writable = writable; hup = true } in
        let sound' = unwatch-IsSound e.fd w sound in
        let unwatched = mem-erase_same e.fd w.poll.watched in
        elim (Bool-cases (e.fd == w.listen_fd)) [
          | inl at_listen ↦
              let (sound'', k) =
                accept_cb-IsSound e.incoming mask (unwatch e.fd true w) sound' fresh in
              rw at_listen (
                erased_entry e.fd (accept_cb e.incoming mask (unwatch e.fd true w)) (
                  sound_but e.fd (accept_cb e.incoming mask (unwatch e.fd true w)) sound''
                    (k.watched_is e.fd (rw at_listen refl) ∙ unwatched)
                    (ap (λ es. mem e.fd (pending_fds es)) k.pending_is ∙ last)))
          | inr client ↦
              let (cli, there) = is_client w e.fd sound entry client in
              rw (client, there)
                (settle_erased e.fd (unwatch e.fd true w)
                  (handle_dispatch site rounds fuel cli true writable readable)
                  (handle_dispatch-is_erased site rounds fuel cli true writable readable) client
                  (sound_but e.fd (unwatch e.fd true w) sound' unwatched last))
        ]
    callback-IsSafe false writable readable w e sound fresh entry last =
        let mask : Events = record { readable = readable; writable = writable; hup = false } in
        elim (Bool-cases (e.fd == w.listen_fd)) [
          | inl at_listen ↦ rw at_listen (accept_cb-IsSound e.incoming mask w sound fresh).0
          | inr client ↦
              let (cli, there) = is_client w e.fd sound entry client in
              rw (client, there)
                (settle_alive e.fd w (handle_dispatch site rounds fuel cli false writable readable)
                  (handle_dispatch-is_erased site rounds fuel cli false writable readable) sound)
        ]

    -- An event of a descriptor that has an entry and does not wait a second time.
    deliver_event-IsSafe :
        (w : World ev) (e : Pending)
        → IsSound w
        → AreFresh (open_fds w) e.incoming
        → mem e.fd w.poll.callbacks ≡ true
        → mem e.fd (pending_fds w.pending) ≡ false
        → IsSafe (deliver_event site rounds fuel w e)
    unfolding deliver_event
    deliver_event-IsSafe w e sound fresh entry last =
        let mask = xlate_epoll_to_mask e.events in
        rw entry (callback-IsSafe mask.hup mask.writable mask.readable w e sound fresh entry last)

    -- The loop of `run`: a wait gives events of different descriptors that are watched, and the
    -- next event is delivered, for which `accept4` gives no descriptor that is open.
    pub data Step : World ev → World ev → Type 0 where
      waits :
          (w : World ev) (es : List Pending)
          → w.pending ≡ []
          → Within (pending_fds es) w.poll.watched
          → Distinct (pending_fds es)
          → Step w (record w { pending = es })
      delivers :
          (w w' : World ev) (e : Pending) (es : List Pending)
          → w.pending ≡ e ∷ es
          → AreFresh (open_fds w) e.incoming
          → deliver_event site rounds fuel (record w { pending = es }) e ≡ running w'
          → Step w w'

    -- The worlds that a server reaches which listens on `fd`.
    pub data Reached (fd : ℕ) : World ev → Type 0 where
      starts : Reached fd (listening fd)
      steps : {w w' : World ev} → Reached fd w → Step w w' → Reached fd w'

    pub first_pending :
        (w : World ev) (e : Pending) (es : List Pending)
        → w.pending ≡ e ∷ es
        → IsSound w
        → IsSound (record w { pending = es })
          × (mem e.fd w.poll.callbacks ≡ true)
          × (mem e.fd (pending_fds es) ≡ false)
    first_pending w e es h s =
        let has = subst (λ z. Within (pending_fds z) w.poll.callbacks) h s.pending_has in
        let distinct = subst (λ z. Distinct (pending_fds z)) h s.pending_distinct in
        (
          record {
            watched_has = s.watched_has;
            entry_has = s.entry_has;
            open_distinct = s.open_distinct;
            pending_has = λ x hx. has x (ground (arith, hx));
            pending_distinct = distinct.1;
          },
          has e.fd (ground arith),
          distinct.0,
        )

    pub Step-IsSound : {w w' : World ev} → Step w w' → IsSound w → IsSound w'
    Step-IsSound (waits w es h watched distinct) s = record {
      watched_has = s.watched_has;
      entry_has = s.entry_has;
      open_distinct = s.open_distinct;
      pending_has = λ x h. s.watched_has x (watched x h);
      pending_distinct = distinct;
    }
    Step-IsSound (delivers w w' e es h fresh call) s =
        let (s', entry, last) = first_pending w e es h s in
        subst IsSafe call (deliver_event-IsSafe (record w { pending = es }) e s' fresh entry last)

    pub Reached-IsSound : (fd : ℕ) {w : World ev} → Reached fd w → IsSound w
    Reached-IsSound fd starts = record {
      watched_has = λ x h. h;
      entry_has = λ x h. h;
      open_distinct = (refl, tt);
      pending_has = λ x h. absurd cc;
      pending_distinct = tt;
    }
    Reached-IsSound fd (steps r step) = Step-IsSound step (Reached-IsSound fd r)

    -- In every state that a running server reaches, started with its listening socket, where a
    -- wait gives events of different descriptors that are watched and `accept4` gives no
    -- descriptor that is open: the delivery of the next event uses neither an entry nor a client
    -- that is no longer there. If no handler faults, the state is sound afterwards: what is
    -- watched has its entry, each entry is the listening socket's or a client's, and these have
    -- different descriptors.
    pub deliver_event-Reached :
        (fd : ℕ) (w : World ev) (e : Pending) (es : List Pending)
        → Reached fd w
        → w.pending ≡ e ∷ es
        → AreFresh (open_fds w) e.incoming
        → IsSafe (deliver_event site rounds fuel (record w { pending = es }) e)
    deliver_event-Reached fd w e es r h fresh =
        let (s', entry, last) = first_pending w e es h (Reached-IsSound fd r) in
        deliver_event-IsSafe (record w { pending = es }) e s' fresh entry last
