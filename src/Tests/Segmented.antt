-- ===== src/Tests/Segmented.antt =====
-- A ping whose body arrives in two segments, and a message type that arrives in two bytes.
use theme_srv.Common.{◌≡◌, refl, inl, inr, [], ◌∷◌, ◌++◌, some, Bytes, List, arith, from_le}
use theme_srv.Protocol.NetStruct.{NetField}
use theme_srv.Protocol.Messages.{
  ping_request, msg_std_header, field_uint16, field_uint32, field_buffer,
}
use theme_srv.Protocol.Message.{IsMessage, fixed, counted, nil, cons}
use theme_srv.Io.Socket.{Arrival, segment}
use theme_srv.Io.ClientBase.{ClientBase, alloc_sz}
use theme_srv.Io.Read.{handle_read, message, release, hang}
use theme_srv.Io.Read.Buffer.{in_segments, fresh}
use theme_srv.Io.Read.Passes.{IsAt, Received}
use theme_srv.Io.Read.Segments.{IsCut, uncut, cut, joined, rounds, handle_read-IsCut}
use theme_srv.Io.Read.Pieces.{handle_read-ArePieces}
use theme_srv.Tests.{counting, counting-IsStream, connected}
use theme_srv.Tests.Receiving.{
  type_bytes, size_bytes, payload, payload-Announces, type-IsFixedRun, reader, reader-IsAt,
}

abbrev ping_time : NetField
ping_time = record {
  type = theme_srv.Protocol.NetStruct.integer;
  name = "pingTime";
  elementsz = 4;
  count = 1;
}

abbrev trans_id : NetField
trans_id = record {
  type = theme_srv.Protocol.NetStruct.integer;
  name = "transId";
  elementsz = 4;
  count = 1;
}

abbrev time_bytes : Bytes
time_bytes = 1 ∷ 0 ∷ 0 ∷ 0 ∷ []

abbrev after_time : Bytes
after_time = (2 ∷ 0 ∷ 0 ∷ 0 ∷ []) ++ (size_bytes ++ payload)

after_time-IsMessage : IsMessage (field_uint32 "transId" ++ field_buffer "payload") after_time
after_time-IsMessage =
    fixed (2 ∷ 0 ∷ 0 ∷ 0 ∷ []) refl (omega arith) refl
      (counted size_bytes payload payload-Announces refl)

ping-IsCut :
    IsCut
      (field_uint32 "pingTime" ++ (field_uint32 "transId" ++ field_buffer "payload"))
      (time_bytes ∷ [])
      (field_uint32 "transId" ++ field_buffer "payload")
ping-IsCut =
    cut ping_time [] trans_id (field_buffer "payload") time_bytes refl
      (cons time_bytes refl (omega arith) refl nil) refl (omega arith) (omega arith) uncut

abbrev two_arrivals : List Arrival
two_arrivals = in_segments (time_bytes ∷ []) (segment (after_time ++ 5 ∷ []) ∷ [])

handle_read-IsCut_example :
    (pad : Bytes) × (cli' : ClientBase counting) × (handle_read
        (rounds (time_bytes ∷ []) 0)
        (reader two_arrivals)
      ≡ message
          (some (type_bytes ++ ((joined (time_bytes ∷ []) ++ after_time) ++ pad)))
          (release cli'))
    × Received ping_request type_bytes
        (joined (time_bytes ∷ []) ++ after_time)
        (5 ∷ [])
        []
        (reader two_arrivals)
        cli'
unfolding alloc_sz
handle_read-IsCut_example =
    handle_read-IsCut counting-IsStream ping_request (omega arith) 0 (reader two_arrivals)
      (field_uint16 "type") type_bytes after_time after_time (5 ∷ []) [] ping-IsCut
      (reader-IsAt two_arrivals) type-IsFixedRun after_time-IsMessage refl (omega arith) refl
      (omega arith) refl

abbrev type_field : NetField
type_field = record {
  type = theme_srv.Protocol.NetStruct.integer;
  name = "type";
  elementsz = 2;
  count = 1;
}

abbrev two_bytes : List Bytes
two_bytes = (0 ∷ []) ∷ (0 ∷ []) ∷ []

abbrev header_reader : ClientBase counting
header_reader = record (connected (in_segments two_bytes [])) {
  reading = record {
    struct = some msg_std_header;
    field = 0;
    offset = 0;
    bufsz = 0;
    buf = theme_srv.Common.none;
  };
}

header_reader-IsAt : IsAt msg_std_header 0 [] header_reader
header_reader-IsAt = record {
  struct_is = refl;
  field_is = refl;
  offset_is = refl;
  holds = fresh refl refl;
  no_larger = inl refl;
}

handle_read-ArePieces_example : handle_read 9 header_reader ≡ hang
handle_read-ArePieces_example =
    handle_read-ArePieces counting-IsStream msg_std_header [] type_field refl refl (omega arith)
      (omega arith) [] nil 9 header_reader two_bytes [] header_reader-IsAt (omega arith) refl refl
