-- ===== src/Protocol/Messages.antt =====
-- src/protocol/common.inl and gatekeeper.inl, expanded by the field macros of
-- protocol_fields_begin.inl; the message and connection numbers of common.h and gatekeeper.h.
use Prim.Native.String.{String, ◌++◌ as string_append}
use theme_srv.Common.{ℕ, List, [], ◌∷◌, ◌++◌}
use theme_srv.Protocol.NetStruct.{
  NetField, NetStruct, integer, uuid, blob, buffer_size, string_utf16, buffer, buffer_redundant,
}

-- THEME_NET_FIELD_BLOB and its fellows: the entries that each macro adds to a field table.
abbrev pub field_blob : String → ℕ → List NetField
field_blob n sz = record { type = blob; name = n; elementsz = 1; count = sz } ∷ []

abbrev size_field : String → ℕ → NetField
size_field n sz = record {
  type = buffer_size;
  name = string_append n "sz";
  elementsz = sz;
  count = 1;
}

abbrev pub field_buffer : String → List NetField
field_buffer n = size_field n 4 ∷ record { type = buffer; name = n; elementsz = 1; count = 0 } ∷ []

abbrev pub field_buffer_redundant : String → List NetField
field_buffer_redundant n =
    size_field n 4 ∷ record { type = buffer_redundant; name = n; elementsz = 1; count = 0 } ∷ []

abbrev integer_field : String → ℕ → List NetField
integer_field n sz = record { type = integer; name = n; elementsz = sz; count = 1 } ∷ []

abbrev pub field_uint8 : String → List NetField
field_uint8 n = integer_field n 1

abbrev pub field_uint16 : String → List NetField
field_uint16 n = integer_field n 2

abbrev pub field_uint32 : String → List NetField
field_uint32 n = integer_field n 4

abbrev pub field_string_utf16 : String → ℕ → List NetField
field_string_utf16 n sz =
    size_field n 2 ∷ record { type = string_utf16; name = n; elementsz = 2; count = sz } ∷ []

abbrev pub field_uuid : String → List NetField
field_uuid n = record { type = uuid; name = n; elementsz = 16; count = 1 } ∷ []

abbrev pub connection_header : NetStruct
connection_header = record {
  name = "common_connection_header";
  fields =
      field_uint8 "connType"
      ++ (field_uint16 "msgsz"
          ++ (field_uint32 "buildId"
              ++ (field_uint32 "buildType"
                  ++ (field_uint32 "branchId"
                      ++ (field_uuid "product" ++ field_buffer_redundant "buf")))));
}

abbrev pub msg_std_header : NetStruct
msg_std_header = record { name = "common_msg_std_header"; fields = field_uint16 "type" }

abbrev pub msg_size_header : NetStruct
msg_size_header = record {
  name = "common_msg_size_header";
  fields = field_uint16 "type" ++ field_uint16 "size";
}

abbrev pub encrypt_header : NetStruct
encrypt_header = record {
  name = "common_encrypt_header";
  fields = field_uint8 "msgId" ++ field_uint8 "bufsz";
}

abbrev pub encrypt_s2c : NetStruct
encrypt_s2c = record {
  name = "common_encrypt_s2c";
  fields = field_uint8 "msgId" ++ (field_uint8 "bufsz" ++ field_blob "srvSeed" 7);
}

abbrev pub ping_request : NetStruct
ping_request = record {
  name = "gatekeeper_pingRequest";
  fields =
      field_uint16 "type"
      ++ (field_uint32 "pingTime" ++ (field_uint32 "transId" ++ field_buffer "payload"));
}

abbrev pub file_srv_request : NetStruct
file_srv_request = record {
  name = "gatekeeper_fileSrvRequest";
  fields = field_uint16 "type" ++ (field_uint32 "transId" ++ field_uint8 "isPatcher");
}

abbrev pub auth_srv_request : NetStruct
auth_srv_request = record {
  name = "gatekeeper_authSrvRequest";
  fields = field_uint16 "type" ++ field_uint32 "transId";
}

abbrev pub ping_reply : NetStruct
ping_reply = record {
  name = "gatekeeper_pingReply";
  fields =
      field_uint16 "type"
      ++ (field_uint32 "pingTime" ++ (field_uint32 "transId" ++ field_buffer "payload"));
}

abbrev pub file_srv_reply : NetStruct
file_srv_reply = record {
  name = "gatekeeper_fileSrvReply";
  fields = field_uint16 "type" ++ (field_uint32 "transId" ++ field_string_utf16 "address" 24);
}

abbrev pub auth_srv_reply : NetStruct
auth_srv_reply = record {
  name = "gatekeeper_authSrvReply";
  fields = field_uint16 "type" ++ (field_uint32 "transId" ++ field_string_utf16 "address" 24);
}

-- The connection types of common.h.
abbrev pub protocol_cli2auth : ℕ
protocol_cli2auth = 0x0A

abbrev pub protocol_cli2game : ℕ
protocol_cli2game = 0x0B

abbrev pub protocol_cli2file : ℕ
protocol_cli2file = 0x10

abbrev pub protocol_cli2gate : ℕ
protocol_cli2gate = 0x16
