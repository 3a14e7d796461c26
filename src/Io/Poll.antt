-- ===== src/Io/Poll.antt =====
-- src/io/poll.h and epoll.cpp: the table of callbacks, and the list of descriptors that the kernel
-- watches for the server, each with a pointer to its entry in the table.
pub mod Table
use theme_srv.Common.{
  ℕ, ◌+◌, Bool, true, false, not, ◌&&◌, ◌||◌, List, [], ◌∷◌, ◌++◌, Option, none, some, ◌==◌,
  if◌then◌else◌, ◌≡◌, refl, Option, some, none, ◌>>=◌,
}

-- `poll_dispatch::events`, a set.
pub record Events : Type 0 where
  pub readable : Bool
  pub writable : Bool
  pub hup : Bool

-- The bits of `epoll_event::events` that the code uses.
pub record EpollEvents : Type 0 where
  pub epollin : Bool
  pub epollout : Bool
  pub epollrdhup : Bool
  pub epollhup : Bool
  pub epollet : Bool

unfoldable pub xlate_mask_to_epoll : Events → EpollEvents
xlate_mask_to_epoll mask = record {
  epollin = mask.readable;
  epollout = mask.writable;
  epollrdhup = mask.hup;
  epollhup = mask.hup;
  epollet = true;
}

unfoldable pub xlate_epoll_to_mask : EpollEvents → Events
xlate_epoll_to_mask events = record {
  readable = events.epollin;
  writable = events.epollout;
  hup = events.epollrdhup || events.epollhup;
}

abbrev pub mem : ℕ → List ℕ → Bool
mem fd [] = false
mem fd (x ∷ xs) = (fd == x) || mem fd xs

abbrev pub erase : ℕ → List ℕ → List ℕ
erase fd [] = []
erase fd (x ∷ xs) = if fd == x then erase fd xs else x ∷ erase fd xs

-- The keys of `m_callbacks`, and what the kernel watches.
pub record Poll : Type 0 where
  pub callbacks : List ℕ
  pub watched : List ℕ

-- `add_fd`; `room` is whether the kernel takes one more descriptor. It refuses one that it watches.
unfoldable pub add_fd : Poll → ℕ → Bool → Bool × Poll
add_fd p fd room =
    if mem fd p.callbacks
    then (false, p)
    else if room && not (mem fd p.watched)
    then (true, record { callbacks = fd ∷ p.callbacks; watched = fd ∷ p.watched })
    else (false, p)

-- `remove_fd`; the kernel refuses a descriptor that it does not watch.
unfoldable pub remove_fd : Poll → ℕ → Bool × Poll
remove_fd p fd =
    if mem fd p.watched
    then (true, record { callbacks = erase fd p.callbacks; watched = erase fd p.watched })
    else (false, p)

-- What a callback does to the table: calls of `add_fd` and `remove_fd`.
pub data Call : Type 0 where
  adds : ℕ → Bool → Call
  removes : ℕ → Call

unfoldable pub run_calls : Poll → List Call → Poll
run_calls p [] = p
run_calls p (adds fd room ∷ cs) = run_calls (add_fd p fd room).1 cs
run_calls p (removes fd ∷ cs) = run_calls (remove_fd p fd).1 cs

-- One event in the loop of `dispatch`, on descriptor `fd`, with the calls that the callback makes.
unfoldable pub deliver : Poll → ℕ → EpollEvents → List Call → Poll
deliver p fd events calls =
    let mask = xlate_epoll_to_mask events in
    if mask.hup
    then (let p' = run_calls (record p { watched = erase fd p.watched }) calls in
        record p' { callbacks = erase fd p'.callbacks })
    else run_calls p calls

-- An event of a wait: the descriptor, what happened, and the calls that its callback makes.
pub record Event : Type 0 where
  pub fd : ℕ
  pub events : EpollEvents
  pub calls : List Call

-- The loop of `dispatch`; `none` is a use of an entry that is no longer in the table.
unfoldable pub deliver_all : Poll → List Event → Option Poll
deliver_all p [] = some p
deliver_all p (e ∷ es) =
    let rest = deliver_all (deliver p e.fd e.events e.calls) es in
    if mem e.fd p.callbacks then rest else none

-- How `epoll_wait` ends: interrupted (EINTR), with another error, or with events (none of them on
-- a timeout).
pub data Wait : Type 0 where
  interrupted broken : Wait
  ready : List Event → Wait

-- `dispatch`; `none` is the abort on an error too.
unfoldable pub dispatch : Poll → Wait → Option (Bool × Poll)
dispatch p interrupted = some (false, p)
dispatch p broken = none
dispatch p (ready es) = do p' ← deliver_all p es; some (true, p')
