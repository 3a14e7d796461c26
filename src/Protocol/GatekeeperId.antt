-- ===== src/Protocol/GatekeeperId.antt =====
-- src/protocol/gatekeeper.h: the message numbers; a structure's `id()` is the one of its name.
use theme_srv.Common.{ℕ}

abbrev pub ping_request : ℕ
ping_request = 0

abbrev pub file_srv_request : ℕ
file_srv_request = 1

abbrev pub auth_srv_request : ℕ
auth_srv_request = 2

abbrev pub ping_reply : ℕ
ping_reply = 0

abbrev pub file_srv_reply : ℕ
file_srv_reply = 1

abbrev pub auth_srv_reply : ℕ
auth_srv_reply = 2
