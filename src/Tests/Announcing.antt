-- ===== src/Tests/Announcing.antt =====
-- Size fields that announce more elements than are allowed, of a payload of bytes and of a string.
use theme_srv.Common.{
  refl, some, inl, inr, ◌-◌, ◌^◌, ◌≡◌, Bytes, [], ◌∷◌, ◌++◌, true, arith, replicate, from_le,
}
use theme_srv.Protocol.NetStruct.{NetField, buffer_size, string_utf16}
use theme_srv.Protocol.Messages.{ping_request, file_srv_reply, field_uint16, field_uint32}
use theme_srv.Protocol.Message.{IsFixedRun, nil, cons}
use theme_srv.Io.Socket.{segment, shutdown}
use theme_srv.Io.ClientBase.{ClientBase, alloc_sz}
use theme_srv.Io.Read.{to_read, need, handle_read, nothing}
use theme_srv.Io.Read.Buffer.{held}
use theme_srv.Io.Read.TooLarge.{Exceeds, handle_read-Exceeds, to_read-Exceeds}
use theme_srv.Tests.{counting, counting-IsStream, connected}
use theme_srv.Tests.Waiting.{before, before-IsFixedRun}
use theme_srv.Tests.Receiving.{size_field, payload_field}

-- A ping whose payload is to have 2000 bytes
abbrev announced : Bytes
announced = 208 ∷ 7 ∷ 0 ∷ 0 ∷ []

announced-Exceeds : Exceeds size_field payload_field announced 2000
unfolding from_le
announced-Exceeds = record {
  size_type = refl;
  size_count = refl;
  width = inr (inr (inl refl));
  varies = refl;
  divides = refl;
  length_is = refl;
  value_is = refl;
  fits = omega arith;
  over = omega arith;
}

abbrev pinged : ClientBase counting
pinged = record (connected (segment (replicate 9 7) ∷ [])) {
  reading = record {
    struct = some ping_request;
    field = 4;
    offset = 0;
    bufsz = 40;
    buf = some (before ++ (announced ++ replicate 26 0));
  };
}

handle_read-Exceeds_example :
    handle_read 1 pinged ≡ nothing (record pinged { socket = shutdown (pinged.socket) })
unfolding alloc_sz
handle_read-Exceeds_example =
    handle_read-Exceeds counting-IsStream ping_request (omega arith) 0 pinged
      (field_uint16 "type" ++ (field_uint32 "pingTime" ++ field_uint32 "transId")) size_field
      payload_field before announced 2000
      (record {
        struct_is = refl;
        field_is = refl;
        offset_is = refl;
        holds = held (replicate 26 0) refl refl;
        no_larger = inr (omega arith);
      })
      before-IsFixedRun announced-Exceeds refl refl

-- An address that is to have 2000 characters of two bytes
abbrev address_size : NetField
address_size = record { type = buffer_size; name = "addresssz"; elementsz = 2; count = 1 }

abbrev address_field : NetField
address_field = record { type = string_utf16; name = "address"; elementsz = 2; count = 24 }

abbrev characters : Bytes
characters = 208 ∷ 7 ∷ []

characters-Exceeds : Exceeds address_size address_field characters 2000
unfolding from_le
characters-Exceeds = record {
  size_type = refl;
  size_count = refl;
  width = inr (inl refl);
  varies = refl;
  divides = refl;
  length_is = refl;
  value_is = refl;
  fits = omega arith;
  over = omega arith;
}

abbrev head : Bytes
head = 3 ∷ 0 ∷ 1 ∷ 0 ∷ 0 ∷ 0 ∷ []

head-IsFixedRun : IsFixedRun (field_uint16 "type" ++ field_uint32 "transId") head
head-IsFixedRun =
    cons (3 ∷ 0 ∷ []) refl (omega arith) refl
      (cons (1 ∷ 0 ∷ 0 ∷ 0 ∷ []) refl (omega arith) refl nil)

abbrev addressed : ClientBase counting
addressed = record (connected []) {
  reading = record {
    struct = some file_srv_reply;
    field = 3;
    offset = 0;
    bufsz = 40;
    buf = some (head ++ (characters ++ replicate 32 0));
  };
}

to_read-Exceeds_example :
    to_read file_srv_reply (addressed.reading.buf) 8 3 1 3 true 8 0 ≡ some (need 56 (2 ^ 64 - 2))
unfolding alloc_sz
to_read-Exceeds_example =
    to_read-Exceeds counting-IsStream file_srv_reply (omega arith) addressed
      (field_uint16 "type" ++ field_uint32 "transId") address_size address_field head characters
      2000
      (record {
        struct_is = refl;
        field_is = refl;
        offset_is = refl;
        holds = held (replicate 32 0) refl refl;
        no_larger = inr (omega arith);
      })
      head-IsFixedRun characters-Exceeds refl (omega arith) (omega arith)
