-- ===== src/Tests/Waiting.antt =====
-- A ping whose type has been read, on connections from which no bytes come, and a ping whose
-- payload is too long.
use theme_srv.Common.{
  some, inl, inr, Bytes, replicate, from_le, ◌≡◌, refl, [], ◌∷◌, ◌++◌, List, arith,
}
use theme_srv.Protocol.Messages.{ping_request, field_uint16, field_uint32, field_buffer}
use theme_srv.Io.Socket.{Arrival, again, failed, hangup, segment, shutdown}
use theme_srv.Io.ClientBase.{ClientBase, alloc_sz}
use theme_srv.Io.Read.{handle_read, nothing, hang}
use theme_srv.Io.Read.Blocked.{Idles}
use theme_srv.Io.Read.Silent.{
  handle_read-drained, handle_read-would_block, handle_read-failed, handle_read-hangup,
}
use theme_srv.Protocol.Message.{Announces, IsFixedRun, nil, cons}
use theme_srv.Io.Read.Buffer.{held}
use theme_srv.Io.Read.Overflow.{WritesPast, handle_read-past}
use theme_srv.Tests.{counting, counting-IsStream, connected}
use theme_srv.Tests.Receiving.{
  type_bytes, ping_body, ping_body-IsMessage, type-IsFixedRun, size_field, payload_field, reader,
  reader-IsAt,
}

handle_read-drained_example :
    (cli' : ClientBase counting) × (handle_read 1 (reader []) ≡ nothing cli')
    × Idles ping_request 1 type_bytes (reader []).socket (reader []) cli'
handle_read-drained_example =
    handle_read-drained counting-IsStream ping_request (omega arith) 0 (reader [])
      (field_uint16 "type")
      (field_uint32 "pingTime" ++ (field_uint32 "transId" ++ field_buffer "payload")) type_bytes
      ping_body (reader-IsAt []) type-IsFixedRun ping_body-IsMessage refl (omega arith) refl

abbrev later : List Arrival
later = segment ping_body ∷ []

handle_read-would_block_example :
    (cli' : ClientBase counting) × (handle_read 1 (reader (again ∷ later)) ≡ nothing cli')
    × Idles ping_request 1 type_bytes (reader later).socket (reader (again ∷ later)) cli'
handle_read-would_block_example =
    handle_read-would_block counting-IsStream ping_request (omega arith) 0 (reader (again ∷ later))
      (field_uint16 "type")
      (field_uint32 "pingTime" ++ (field_uint32 "transId" ++ field_buffer "payload")) type_bytes
      ping_body later (reader-IsAt (again ∷ later)) type-IsFixedRun ping_body-IsMessage refl
      (omega arith) refl

handle_read-failed_example :
    (cli' : ClientBase counting) × (handle_read 1 (reader (failed ∷ later)) ≡ nothing cli')
    × Idles ping_request 1 type_bytes
        (shutdown (reader later).socket)
        (reader (failed ∷ later))
        cli'
handle_read-failed_example =
    handle_read-failed counting-IsStream ping_request (omega arith) 0 (reader (failed ∷ later))
      (field_uint16 "type")
      (field_uint32 "pingTime" ++ (field_uint32 "transId" ++ field_buffer "payload")) type_bytes
      ping_body later (reader-IsAt (failed ∷ later)) type-IsFixedRun ping_body-IsMessage refl
      (omega arith) refl

handle_read-hangup_example : handle_read 9 (reader (hangup ∷ [])) ≡ hang
handle_read-hangup_example =
    handle_read-hangup counting-IsStream ping_request (omega arith) 9 (reader (hangup ∷ []))
      (field_uint16 "type")
      (record {
        type = theme_srv.Protocol.NetStruct.integer;
        name = "pingTime";
        elementsz = 4;
        count = 1;
      })
      (field_uint32 "transId" ++ field_buffer "payload") type_bytes ping_body []
      (reader-IsAt (hangup ∷ [])) type-IsFixedRun ping_body-IsMessage refl refl (omega arith)
      (omega arith) (omega arith) refl

-- A size field of four bytes that announces 27 elements, behind 10 bytes: the room of a ping is 40 bytes.
abbrev long_size : Bytes
long_size = 27 ∷ 0 ∷ 0 ∷ 0 ∷ []

long_size-Announces : Announces size_field payload_field long_size 27
unfolding from_le
long_size-Announces = record {
  size_type = refl;
  size_count = refl;
  width = inr (inr (inl refl));
  varies = refl;
  divides = refl;
  small = omega arith;
  length_is = refl;
  value_is = refl;
  within = omega arith;
}

abbrev pub before : Bytes
before = 0 ∷ 0 ∷ 1 ∷ 0 ∷ 0 ∷ 0 ∷ 2 ∷ 0 ∷ 0 ∷ 0 ∷ []

pub before-IsFixedRun :
    IsFixedRun (field_uint16 "type" ++ (field_uint32 "pingTime" ++ field_uint32 "transId")) before
before-IsFixedRun = cons (0 ∷ 0 ∷ []) refl (omega arith) refl (
    cons (1 ∷ 0 ∷ 0 ∷ 0 ∷ []) refl (omega arith) refl
      (cons (2 ∷ 0 ∷ 0 ∷ 0 ∷ []) refl (omega arith) refl nil))

abbrev sized : ClientBase counting
sized = record (connected (segment (replicate 27 9) ∷ [])) {
  reading = record {
    struct = some ping_request;
    field = 4;
    offset = 0;
    bufsz = 40;
    buf = some (before ++ (long_size ++ replicate 26 0));
  };
}

-- One byte behind the buffer is overwritten.
handle_read-past_example :
    WritesPast counting-IsStream ping_request
      (omega arith)
      0
      sized
      (before ++ long_size)
      (replicate 27 9)
      []
      (170 ∷ [])
      (171 ∷ [])
      []
unfolding alloc_sz
handle_read-past_example =
    handle_read-past counting-IsStream ping_request (omega arith) 0 sized
      (field_uint16 "type" ++ (field_uint32 "pingTime" ++ field_uint32 "transId")) size_field
      payload_field before long_size (replicate 27 9) [] (170 ∷ []) (171 ∷ []) 27 []
      (record {
        struct_is = refl;
        field_is = refl;
        offset_is = refl;
        holds = held (replicate 26 0) refl refl;
        no_larger = inr (omega arith);
      })
      before-IsFixedRun long_size-Announces refl refl refl (omega arith) refl
