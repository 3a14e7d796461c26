-- ===== src/Daemon/Pump/Requests.antt =====
-- The requests that src/daemon/gatekeeper.cpp serves, as they are on the wire before encryption, and
-- what is sent for each.
use theme_srv.Common.{
  ℕ, ◌+◌, ◌^◌, ◌<◌, ◌≤◌, ◌≡◌, refl, ap, ◌∙◌, inl, inr, some, List, [], ◌∷◌, ◌++◌, Bytes, IsBytes,
  length, length-append, to_le, from_le, read_at-append, arith,
}
use theme_srv.Common.Words.{length-to_le, from_le-to_le}
use theme_srv.Protocol.NetStruct.{NetField, NetStruct, total_sz}
use theme_srv.Protocol.Message.{IsMessage, fixed, counted, nil}
use theme_srv.Protocol.Messages
use theme_srv.Protocol.Messages.{field_uint8, field_uint16, field_uint32, field_buffer}
use theme_srv.Protocol.Packed.{get_uint}
use theme_srv.Io.Crypto.{Bignums}
use theme_srv.Io.ClientBase.{alloc_sz}
use theme_srv.Io.Read.Buffer.{room}
use theme_srv.Daemon.Client.{Site}
use theme_srv.Daemon.Gatekeeper.{request_struct}
use theme_srv.Daemon.Gatekeeper.Image.{address_reply}

pub data Request : Type 0 where
  ping : (time trans payload : Bytes) → Request
  file_srv : (trans is_patcher : Bytes) → Request
  auth_srv : (trans : Bytes) → Request

abbrev pub type_of : Request → ℕ
type_of (ping time trans payload) = 0
type_of (file_srv trans is_patcher) = 1
type_of (auth_srv trans) = 2

abbrev pub type_bytes : Request → Bytes
type_bytes r = type_of r ∷ 0 ∷ []

abbrev pub struct_of : Request → NetStruct
struct_of (ping time trans payload) = Messages.ping_request
struct_of (file_srv trans is_patcher) = Messages.file_srv_request
struct_of (auth_srv trans) = Messages.auth_srv_request

abbrev pub fields_of : Request → List NetField
fields_of (ping time trans payload) =
    field_uint32 "pingTime" ++ (field_uint32 "transId" ++ field_buffer "payload")
fields_of (file_srv trans is_patcher) = field_uint32 "transId" ++ field_uint8 "isPatcher"
fields_of (auth_srv trans) = field_uint32 "transId"

abbrev pub body_of : Request → Bytes
body_of (ping time trans payload) = time ++ (trans ++ (to_le 4 (length payload) ++ payload))
body_of (file_srv trans is_patcher) = trans ++ (is_patcher ++ [])
body_of (auth_srv trans) = trans ++ []

abbrev pub wire : Request → Bytes
wire r = type_bytes r ++ body_of r

-- The fields have their lengths, and the payload of a ping fits the slack of the buffer.
abbrev pub IsRequest : Request → Type 0
IsRequest (ping time trans payload) = (length time ≡ 4) × (length trans ≡ 4) × (length payload ≤ 26)
IsRequest (file_srv trans is_patcher) = (length trans ≡ 4) × (length is_patcher ≡ 1) × IsBytes trans
IsRequest (auth_srv trans) = (length trans ≡ 4) × IsBytes trans

-- A ping is sent back; an address comes with type 1.
abbrev pub answer : {bn : Bignums} → Site bn → Request → Bytes
answer site (ping time trans payload) = wire (ping time trans payload)
answer site (file_srv trans is_patcher) = address_reply 1 trans site.filesrv
answer site (auth_srv trans) = address_reply 1 trans site.authsrv

pub fields_of-struct_of : (r : Request) → (struct_of r).fields ≡ field_uint16 "type" ++ fields_of r
fields_of-struct_of (ping time trans payload) = refl
fields_of-struct_of (file_srv trans is_patcher) = refl
fields_of-struct_of (auth_srv trans) = refl

pub request_struct-type_of : (r : Request) → request_struct (type_of r) ≡ some (struct_of r)
unfolding request_struct
request_struct-type_of (ping time trans payload) = refl
request_struct-type_of (file_srv trans is_patcher) = refl
request_struct-type_of (auth_srv trans) = refl

pub total_sz-struct_of : (r : Request) → total_sz (struct_of r).fields < 2 ^ 32
total_sz-struct_of (ping time trans payload) = omega arith
total_sz-struct_of (file_srv trans is_patcher) = omega arith
total_sz-struct_of (auth_srv trans) = omega arith

-- The room of a header is no more than that of a request, whose body fits behind the type.
pub room_header : (r : Request) → room Messages.msg_std_header ≤ room (struct_of r)
unfolding alloc_sz
room_header (ping time trans payload) = omega arith
room_header (file_srv trans is_patcher) = omega arith
room_header (auth_srv trans) = omega arith

pub body_of_fits :
    (r : Request)
    → IsRequest r
    → (0 < length (body_of r)) × (2 + length (body_of r) ≤ room (struct_of r))
unfolding alloc_sz
body_of_fits (ping time trans payload) (a, b, c) =
    let l = length-append time (trans ++ (to_le 4 (length payload) ++ payload)) in
    let l' = length-append trans (to_le 4 (length payload) ++ payload) in
    let l'' = length-append (to_le 4 (length payload)) payload in
    let l''' = length-to_le 4 (length payload) in (omega arith, omega arith)
body_of_fits (file_srv trans is_patcher) (a, b, c) =
    let l = length-append trans (is_patcher ++ []) in
    let l' = length-append is_patcher [] in (omega arith, omega arith)
body_of_fits (auth_srv trans) (a, b) = let l = length-append trans [] in (omega arith, omega arith)

pub body_of-IsMessage : (r : Request) → IsRequest r → IsMessage (fields_of r) (body_of r)
body_of-IsMessage (ping time trans payload) (a, b, c) = fixed time refl (omega arith) a (
    fixed trans refl (omega arith) b (
      counted (to_le 4 (length payload)) payload {n = length payload}
        (record {
          size_type = refl;
          size_count = refl;
          width = inr (inr (inl refl));
          varies = refl;
          divides = refl;
          small = omega arith;
          length_is = length-to_le 4 (length payload);
          value_is = from_le-to_le 4 (length payload) (omega arith) ∙ omega arith;
          within = omega arith;
        })
        (omega arith)))
body_of-IsMessage (file_srv trans is_patcher) (a, b, c) =
    fixed trans refl (omega arith) a (fixed is_patcher refl (omega arith) b nil)
body_of-IsMessage (auth_srv trans) (a, b) = fixed trans refl (omega arith) a nil

pub get_uint-type_bytes :
    (r : Request) (rest : Bytes) → get_uint (type_bytes r ++ rest) 0 2 ≡ some (type_of r)
unfolding get_uint from_le
get_uint-type_bytes r rest = rw (read_at-append [] (type_bytes r) rest) (ap some (omega arith))
