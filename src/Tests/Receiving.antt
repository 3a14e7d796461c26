-- ===== src/Tests/Receiving.antt =====
-- A ping whose type has been read, with a payload of three bytes, behind which another byte waits.
use theme_srv.Common.{
  ◌≡◌, refl, inl, inr, [], ◌∷◌, ◌++◌, some, List, Bytes, replicate, from_le, arith,
}
use theme_srv.Protocol.NetStruct.{NetField, NetStruct, total_sz}
use theme_srv.Protocol.Messages.{ping_request, field_uint16, field_uint32, field_buffer}
use theme_srv.Protocol.Message.{IsMessage, fixed, counted, Announces, IsFixedRun, nil, cons}
use theme_srv.Io.Socket.{Arrival, segment}
use theme_srv.Io.ClientBase.{ClientBase, alloc_sz}
use theme_srv.Io.Read.{handle_read, message, release}
use theme_srv.Io.Read.Buffer.{held}
use theme_srv.Io.Read.Passes.{IsAt, Received}
use theme_srv.Io.Read.Whole.{handle_read-IsMessage}
use theme_srv.Tests.{counting, counting-IsStream, connected}

abbrev pub type_bytes : Bytes
type_bytes = 0 ∷ 0 ∷ []

abbrev pub size_bytes : Bytes
size_bytes = 3 ∷ 0 ∷ 0 ∷ 0 ∷ []

abbrev pub payload : Bytes
payload = 7 ∷ 8 ∷ 9 ∷ []

abbrev pub ping_body : Bytes
ping_body = (1 ∷ 0 ∷ 0 ∷ 0 ∷ []) ++ ((2 ∷ 0 ∷ 0 ∷ 0 ∷ []) ++ (size_bytes ++ payload))

abbrev pub size_field : NetField
size_field = record {
  type = theme_srv.Protocol.NetStruct.buffer_size;
  name = "payloadsz";
  elementsz = 4;
  count = 1;
}

abbrev pub payload_field : NetField
payload_field = record {
  type = theme_srv.Protocol.NetStruct.buffer;
  name = "payload";
  elementsz = 1;
  count = 0;
}

pub payload-Announces : Announces size_field payload_field size_bytes 3
unfolding from_le
payload-Announces = record {
  size_type = refl;
  size_count = refl;
  width = inr (inr (inl refl));
  varies = refl;
  divides = refl;
  small = omega arith;
  length_is = refl;
  value_is = refl;
  within = omega arith;
}

pub ping_body-IsMessage :
    IsMessage
      (field_uint32 "pingTime" ++ (field_uint32 "transId" ++ field_buffer "payload"))
      ping_body
ping_body-IsMessage = fixed (1 ∷ 0 ∷ 0 ∷ 0 ∷ []) refl (omega arith) refl (
    fixed (2 ∷ 0 ∷ 0 ∷ 0 ∷ []) refl (omega arith) refl
      (counted size_bytes payload payload-Announces refl))

pub type-IsFixedRun : IsFixedRun (field_uint16 "type") type_bytes
type-IsFixedRun = cons type_bytes refl (omega arith) refl nil

abbrev pub reader : List Arrival → ClientBase counting
reader arrivals = record (connected arrivals) {
  reading = record {
    struct = some ping_request;
    field = 1;
    offset = 0;
    bufsz = 32;
    buf = some (type_bytes ++ replicate 30 0);
  };
}

pub reader-IsAt : (arrivals : List Arrival) → IsAt ping_request 1 type_bytes (reader arrivals)
unfolding alloc_sz
reader-IsAt arrivals = record {
  struct_is = refl;
  field_is = refl;
  offset_is = refl;
  holds = held (replicate 30 0) refl refl;
  no_larger = inr (omega arith);
}

abbrev ping_arrivals : List Arrival
ping_arrivals = segment (ping_body ++ 5 ∷ []) ∷ []

handle_read-IsMessage_example :
    (pad : Bytes) × (cli' : ClientBase counting) × (handle_read 2 (reader ping_arrivals)
      ≡ message (some (type_bytes ++ (ping_body ++ pad))) (release cli'))
    × Received ping_request type_bytes ping_body (5 ∷ []) [] (reader ping_arrivals) cli'
unfolding alloc_sz
handle_read-IsMessage_example =
    handle_read-IsMessage counting-IsStream ping_request (omega arith) 0 (reader ping_arrivals)
      (field_uint16 "type")
      (field_uint32 "pingTime" ++ (field_uint32 "transId" ++ field_buffer "payload")) type_bytes
      ping_body ping_body (5 ∷ []) [] (reader-IsAt ping_arrivals) type-IsFixedRun
      ping_body-IsMessage refl (omega arith) refl (omega arith) refl
