-- ===== src/Tests/Tables.antt =====
-- The table of callbacks, identifiers, the session key and the layout of structures.
use theme_srv.Common.{
  ◌≡◌, refl, true, false, [], ◌∷◌, ◌++◌, some, Bytes, arith, replicate, to_le, ◌>>=◌,
}
use theme_srv.Protocol.NetStruct.{net_struct_calcsz, mem_offset, net_struct_calcsz-mem_offset}
use theme_srv.Protocol.Messages.{ping_request}
use theme_srv.Protocol.Packed.{units, set_string_utf16}
use theme_srv.Protocol.Packed.Strings.{set_string_utf16_short}
use theme_srv.Io.Poll.{
  EpollEvents, Poll, adds, removes, deliver, xlate_epoll_to_mask, Wait, ready, dispatch,
  deliver_all, run_calls, add_fd,
}
use theme_srv.Io.Poll.Table.{IsCovered, deliver-IsCovered, dispatch-IsCovered}
use theme_srv.Core.Uuid.{to_le_bytes, from_le_bytes}
use theme_srv.Core.Uuid.Order.{from_le_bytes-to_le_bytes}

abbrev table : Poll
table = record { callbacks = 4 ∷ 3 ∷ []; watched = 4 ∷ 3 ∷ [] }

abbrev hangup : EpollEvents
hangup = record {
  epollin = true;
  epollout = false;
  epollrdhup = true;
  epollhup = false;
  epollet = false;
}

deliver-IsCovered_example :
    IsCovered (deliver table 4 hangup (adds 4 true ∷ adds 5 true ∷ removes 3 ∷ []))
deliver-IsCovered_example =
    deliver-IsCovered table 4 hangup (adds 4 true ∷ adds 5 true ∷ removes 3 ∷ [])
      (record { covers = λ fd h. h }) refl

from_le_bytes-to_le_bytes_example :
    (to_le_bytes
        ((1 ∷ 2 ∷ 3 ∷ 4 ∷ []) ++ ((5 ∷ 6 ∷ []) ++ ((7 ∷ 8 ∷ []) ++ replicate 8 9)))
        (replicate 4 0 ++ (replicate 2 0 ++ (replicate 2 0 ++ replicate 8 0)))
      >>= from_le_bytes)
    ≡ some ((1 ∷ 2 ∷ 3 ∷ 4 ∷ []) ++ ((5 ∷ 6 ∷ []) ++ ((7 ∷ 8 ∷ []) ++ replicate 8 9)))
from_le_bytes-to_le_bytes_example =
    from_le_bytes-to_le_bytes (1 ∷ 2 ∷ 3 ∷ 4 ∷ []) (5 ∷ 6 ∷ []) (7 ∷ 8 ∷ []) (replicate 8 9)
      (replicate 4 0) (replicate 2 0) (replicate 2 0) (replicate 8 0)
      (omega arith, (omega arith, (omega arith, (omega arith, tt))))
      (omega arith, (omega arith, tt)) (omega arith, (omega arith, tt)) (refl, refl, refl, refl)
      (refl, refl, refl, refl)

abbrev seed : Bytes
seed = 1 ∷ 2 ∷ 3 ∷ 4 ∷ 5 ∷ 6 ∷ 7 ∷ []

set_string_utf16_short_example :
    set_string_utf16
      ((0 ∷ []) ++ ((0 ∷ 0 ∷ []) ++ ((0 ∷ 0 ∷ []) ++ ((9 ∷ 9 ∷ []) ++ []))))
      1
      2
      (65 ∷ [])
    ≡ some ((0 ∷ []) ++ (to_le 2 1 ++ (units (65 ∷ []) ++ (to_le 2 0 ++ []))))
set_string_utf16_short_example =
    set_string_utf16_short (0 ∷ []) (0 ∷ 0 ∷ []) (0 ∷ 0 ∷ []) (9 ∷ 9 ∷ []) [] 2 (65 ∷ []) refl refl
      refl (omega arith)

net_struct_calcsz-mem_offset_example :
    net_struct_calcsz ping_request 3 ≡ mem_offset (ping_request.fields) 3
net_struct_calcsz-mem_offset_example = net_struct_calcsz-mem_offset ping_request 3 (omega arith)

abbrev wait : Wait
wait = ready (
    record { fd = 4; events = hangup; calls = adds 5 true ∷ [] }
    ∷ record { fd = 3; events = hangup; calls = [] }
    ∷ [])

dispatch_run : dispatch table wait ≡ some (true, record { callbacks = 5 ∷ []; watched = 5 ∷ [] })
unfolding dispatch deliver_all deliver run_calls add_fd xlate_epoll_to_mask
dispatch_run = refl

dispatch-IsCovered_example : IsCovered (record { callbacks = 5 ∷ []; watched = 5 ∷ [] })
dispatch-IsCovered_example =
    dispatch-IsCovered table (record { callbacks = 5 ∷ []; watched = 5 ∷ [] }) wait true
      (record { covers = λ fd h. h }) dispatch_run
