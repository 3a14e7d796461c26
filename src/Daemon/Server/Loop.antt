-- ===== src/Daemon/Server/Loop.antt =====
-- The running server of src/daemon/server.cpp: `accept_cb`, the callbacks of the connections, and
-- the loop of `run` over the events of `epoll_dispatch::dispatch`.
pub mod Clients
pub mod Accepted
pub mod Entries
pub mod Reached
pub mod Lost
pub mod Stranded
use theme_srv.Common.{
  ℕ, Bool, true, false, Option, none, some, List, [], ◌∷◌, ◌++◌, ◌==◌, if◌then◌else◌, ◌≡◌,
}
use theme_srv.Io.Cipher.{Cipher}
use theme_srv.Io.Crypto.{Bignums}
use theme_srv.Io.Socket.{Socket}
use theme_srv.Io.Poll.{Events, EpollEvents, xlate_epoll_to_mask, mem, erase, Poll, add_fd}
use theme_srv.Daemon.Client.{Client, Site, open_client}
use theme_srv.Daemon.Pump.{Ending, alive, erased, faulted, unending, handle_dispatch}

-- What `accept4` gives: EAGAIN or EWOULDBLOCK, another error, or a connection: its descriptor, and
-- whether the kernel takes it into the set of those that are watched.
pub data Incoming : Type 0 where
  again failed : Incoming
  connection : ℕ → Socket → Bool → Incoming

-- An event of a wait that is not delivered yet, with what `accept4` will give if it is of the
-- listening socket.
pub record Pending : Type 0 where
  pub fd : ℕ
  pub events : EpollEvents
  pub incoming : List Incoming

-- `m_listenSock`, `m_poll` and `m_clients`, the clients with their descriptors; and the rest of
-- the events of the last wait.
pub record World (ev : Cipher) : Type 0 where
  pub listen_fd : ℕ
  pub poll : Poll
  pub clients : List (ℕ × Client ev)
  pub pending : List Pending

-- How a callback ends: the server runs on, a callback or a client is used that is no longer
-- there, or a handler faults or does not end.
pub data After (ev : Cipher) : Type 0 where
  running : World ev → After ev
  dangling crashed : After ev

module _ {ev : Cipher} where
  abbrev pub fds : List (ℕ × Client ev) → List ℕ
  fds [] = []
  fds ((fd, cli) ∷ clients) = fd ∷ fds clients

  abbrev pub find_client : ℕ → List (ℕ × Client ev) → Option (Client ev)
  find_client fd [] = none
  find_client fd ((fd', cli) ∷ clients) = if fd == fd' then some cli else find_client fd clients

  abbrev pub put_client : ℕ → Client ev → List (ℕ × Client ev) → List (ℕ × Client ev)
  put_client fd cli [] = []
  put_client fd cli ((fd', cli') ∷ clients) =
      if fd == fd' then (fd', cli) ∷ clients else (fd', cli') ∷ put_client fd cli clients

  -- `m_clients.erase`
  abbrev pub erase_client : ℕ → List (ℕ × Client ev) → List (ℕ × Client ev)
  erase_client fd [] = []
  erase_client fd ((fd', cli) ∷ clients) =
      if fd == fd' then erase_client fd clients else (fd', cli) ∷ erase_client fd clients

  -- The loop of `accept_cb`, a client for each connection.
  unfoldable pub accept_all : List Incoming → World ev → World ev
  accept_all [] w = w
  accept_all (again ∷ rest) w = w
  accept_all (failed ∷ rest) w = w
  accept_all (connection fd sock room ∷ rest) w =
      let added = add_fd w.poll fd room in
      accept_all rest
        (record w { poll = added.1; clients = w.clients ++ (fd, open_client sock added.0) ∷ [] })

  unfoldable pub accept_cb : List Incoming → Events → World ev → World ev
  accept_cb incoming mask w = if mask.readable then accept_all incoming w else w

  -- The client after its callback
  unfoldable pub settle_client : World ev → ℕ → Ending ev → After ev
  settle_client w fd (alive cli) = running (record w { clients = put_client fd cli w.clients })
  settle_client w fd erased = running (record w { clients = erase_client fd w.clients })
  settle_client w fd faulted = crashed
  settle_client w fd unending = crashed

  -- The erasure of the entry on a hang-up
  unfoldable pub after_callback : ℕ → Bool → After ev → After ev
  after_callback fd hup (running w) = running (
      if hup
      then record w {
        poll = record { callbacks = erase fd w.poll.callbacks; watched = w.poll.watched };
      }
      else w)
  after_callback fd hup dangling = dangling
  after_callback fd hup crashed = crashed

  -- On a hang-up the kernel no longer watches the descriptor.
  abbrev pub unwatch : ℕ → Bool → World ev → World ev
  unwatch fd hup w =
      if hup
      then record w {
        poll = record { callbacks = w.poll.callbacks; watched = erase fd w.poll.watched };
      }
      else w

  module _ {bn : Bignums} (site : Site bn) (rounds fuel : ℕ) where
    on_client : World ev → ℕ → Events → Option (Client ev) → After ev
    on_client w fd mask none = dangling
    on_client w fd mask (some cli) =
        settle_client w fd
          (handle_dispatch site rounds fuel cli mask.hup mask.writable mask.readable)

    -- The callback that stands in the entry of a descriptor
    unfoldable pub callback : World ev → Pending → Events → After ev
    unfolding on_client
    callback w e mask =
        if e.fd == w.listen_fd
        then running (accept_cb e.incoming mask w)
        else on_client w e.fd mask (find_client e.fd w.clients)

    -- The body of the loop in `dispatch`
    unfoldable pub deliver_event : World ev → Pending → After ev
    deliver_event w e =
        let mask = xlate_epoll_to_mask e.events in
        if mem e.fd w.poll.callbacks
        then after_callback e.fd mask.hup (callback (unwatch e.fd mask.hup w) e mask)
        else dangling

-- The server behind `init_fds`: the listening socket is the one that is watched.
abbrev pub listening : {ev : Cipher} → ℕ → World ev
listening fd = record {
  listen_fd = fd;
  poll = record { callbacks = fd ∷ []; watched = fd ∷ [] };
  clients = [];
  pending = [];
}
