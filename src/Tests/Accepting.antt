-- ===== src/Tests/Accepting.antt =====
-- A server that listens on descriptor 3, to which a client connects.
use theme_srv.Common.{ℕ, zero, suc, inl, inr, ◌≡◌, refl, true, false, some, [], ◌∷◌}
use theme_srv.Io.Poll.{EpollEvents, add_fd, mem, xlate_epoll_to_mask}
use theme_srv.Daemon.Client.{open_client}
use theme_srv.Daemon.Pump.{handle_dispatch}
use theme_srv.Daemon.Pump.Endings.{is_erased, handle_dispatch-is_erased}
use theme_srv.Daemon.Server.Loop.{
  Pending, World, running, connection, again, listening, deliver_event, callback, after_callback,
  accept_cb, accept_all, find_client,
}
use theme_srv.Daemon.Server.Loop.Stranded.{Later, now, next, deliver_event-Later}
use theme_srv.Daemon.Server.Loop.Reached.{
  IsSafe, Reached, starts, steps, waits, delivers, deliver_event-Reached,
}
use theme_srv.Io.Socket.Bind.{Attempt, no_socket, refused, bound, endless, bind, bind_second}
use theme_srv.Tests.{counting, connected, newcomer, gate}

abbrev readable : EpollEvents
readable = record {
  epollin = true;
  epollout = false;
  epollrdhup = false;
  epollhup = false;
  epollet = false;
}

abbrev knock : Pending
knock = record {
  fd = 3;
  events = readable;
  incoming = connection 7 (connected []).socket true ∷ again ∷ [];
}

abbrev waiting : World counting
waiting = record (listening 3) { pending = knock ∷ [] }

waiting-Reached : Reached gate 2 2 3 waiting
waiting-Reached = steps starts (waits (listening 3) (knock ∷ []) refl (λ x h. h) (refl, tt))

deliver_event-Reached_example :
    IsSafe (deliver_event gate 2 2 (record waiting { pending = [] }) knock)
deliver_event-Reached_example =
    deliver_event-Reached gate 2 2 3 waiting knock [] waiting-Reached refl (refl, tt)

-- The kernel watches no more descriptors, and the connection after that is one that it does.
abbrev refused_knock : Pending
refused_knock = record {
  fd = 3;
  events = readable;
  incoming = connection 7 (connected []).socket false ∷ again ∷ [];
}

abbrev second_knock : Pending
second_knock = record {
  fd = 3;
  events = readable;
  incoming = connection 9 (connected []).socket true ∷ [];
}

abbrev refusing : World counting
refusing = record (listening 3) { pending = refused_knock ∷ [] }

abbrev stranded : World counting
stranded = record (listening 3) { clients = (7, open_client ((connected []).socket) false) ∷ [] }

abbrev running_on : World counting
running_on = record {
  listen_fd = 3;
  poll = record { callbacks = 9 ∷ 3 ∷ []; watched = 9 ∷ 3 ∷ [] };
  clients =
      (7, open_client ((connected []).socket) false)
      ∷ (9, open_client ((connected []).socket) true)
      ∷ [];
  pending = [];
}

refusing-Reached : Reached gate 2 2 3 refusing
refusing-Reached =
    steps starts (waits (listening 3) (refused_knock ∷ []) refl (λ x h. h) (refl, tt))

delivers_refused :
    deliver_event gate 2 2 (record refusing { pending = [] }) refused_knock ≡ running stranded
unfolding deliver_event callback after_callback accept_cb accept_all add_fd xlate_epoll_to_mask
delivers_refused = refl

delivers_second : deliver_event gate 2 2 stranded second_knock ≡ running running_on
unfolding deliver_event callback after_callback accept_cb accept_all add_fd xlate_epoll_to_mask
delivers_second = refl

stranded-Later : Later gate 2 2 stranded running_on
stranded-Later = next (next now (waits stranded (second_knock ∷ []) refl (λ x h. h) (refl, tt))) (
    delivers (record stranded { pending = second_knock ∷ [] }) running_on second_knock [] refl
      (refl, tt) delivers_second)

deliver_event-Later_example :
    (find_client 7 (running_on.clients) ≡ some (open_client ((connected []).socket) false))
    × (mem 7 (running_on.poll.callbacks) ≡ false)
    × (mem 7 (running_on.poll.watched) ≡ false)
unfolding xlate_epoll_to_mask
deliver_event-Later_example =
    deliver_event-Later gate 2 2 3 7 ((connected []).socket) (again ∷ []) refusing stranded
      running_on refused_knock [] refusing-Reached refl (refl, tt) refl refl refl delivers_refused
      stranded-Later

handle_dispatch-is_erased_example :
    is_erased (handle_dispatch gate 2 2 (newcomer []) true false true) ≡ true
handle_dispatch-is_erased_example = handle_dispatch-is_erased gate 2 2 (newcomer []) true false true

-- Of three addresses only the last one can be bound.
abbrev only_third : ℕ → ℕ → Attempt
only_third zero round = no_socket
only_third (suc zero) round = refused
only_third (suc (suc n)) round = bound 5

bind_second_example : bind only_third 9 (some (0 ∷ 1 ∷ 2 ∷ [])) ≡ endless
bind_second_example = bind_second only_third 0 1 (2 ∷ []) 9 (inl refl) (λ round. inr refl)
