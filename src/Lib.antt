-- ===== src/Lib.antt =====
-- A model of ThemeSrv, a server for the protocols of Uru, and proofs about it.
--
-- The program accepts connections (src/daemon/server.cpp, src/io/socket.cpp) and polls them
-- (src/io/epoll.cpp). A connection (src/io/client_base.cpp) reads and writes messages that are
-- described by tables of fields (src/protocol), through a stream cipher. Each message goes to
-- the connection's handler (src/daemon/client_common.cpp, gatekeeper.cpp), which queues the
-- next read and writes replies.
--
-- Common: native numbers, buffers of bytes, `size_t` modulo 2^64 and little-endian integers.
-- Core/Text: texts, and the library string_theory, a parameter. Core/Log: src/core/log.h and
-- log.cpp; Core/Errors: errors.h and errors.cpp; Core/BuildInfo: build_info.cpp. Core/Config:
-- src/core/config_parser.h and the access of config_parser.cpp; Core/Config/Lines: its `read`;
-- Core/Config/Print: its `write`. Core/Config/Said and Core/Config/Assignments: what the lines
-- of a file say and mean, apart from the code. Core/Uuid: src/core/uuid.h, uuid.cpp and
-- endian.h, with libuuid as a parameter. Protocol/NetStruct: src/protocol/net_struct.h and
-- net_struct.cpp; Protocol/Print: what it prints. Messages: common.inl and gatekeeper.inl with
-- the field macros. GatekeeperId: gatekeeper.h. Packed: the accessors of
-- protocol_structs_begin.inl. Message: the wire format as a grammar, which no code stands
-- behind. Io/Socket: `read`, `write` and `shutdown` of src/io/socket.cpp, over lists of what
-- the kernel does. Io/Socket/Bind: its `bind`, over what becomes of each address;
-- Io/Socket/Endpoint: its `setfd`. Io/Cipher: the ciphers of OpenSSL, a parameter. Io/Fields:
-- `calc_field_sz` and what it calls, and `debug_field`. Io/ClientBase: the state of
-- src/io/client_base.h. Io/Read: `resume_read` and `handle_read`. Io/Write: `resume_write`,
-- `enqueue_write`, `handle_write`, and `pump_write` of src/daemon/client_common.cpp.
-- Io/Crypto: `make_server_key` of src/io/uru_crypt.cpp, with OpenSSL's numbers as a parameter;
-- Io/Crypto/Keys: its generation and loading of keys, with primes and base64 as a parameter.
-- Io/Poll: src/io/epoll.cpp. Daemon/Client, Handshake and Pump: src/daemon/client.h and
-- client_common.cpp. Daemon/Gatekeeper: src/daemon/gatekeeper.cpp. Daemon/Server: the
-- configuration and the generators of src/daemon/server.cpp, and the constructor of the
-- gatekeeper; Daemon/Server/Startup: `init_fds` and `run` up to its loop; Daemon/Server/Loop:
-- `accept_cb` and the loop of `run`, with the clients and the table of callbacks. Daemon/Main:
-- src/daemon/main.cpp, behind the flags of the command line. Daemon/Pump/Requests: the
-- requests on the wire and their answers, apart from the code. Tests: the applications of the
-- theorems at concrete inputs.
--
-- State is passed explicitly. An assertion of a debug build that fails, and an access outside
-- a buffer, is `none` or an outcome of its own; what goes to the log is left out. The host is
-- a little-endian machine with words of 64 bits. OpenSSL takes lengths as `int`:
-- `enqueue_write` narrows the size of each field to one (Io/Write.`as_int`), and one call of
-- `read` gives less than 2^31 bytes, so that nothing is lost in `resume_read`. A pointer into
-- a message is the buffer and a position. The memory on the stack in which a reply is built,
-- the bytes of `RAND_bytes`, and the answers of the kernel are inputs. A cipher is assumed to
-- work byte by byte.
--
-- The outer loop of `resume_read` need not end, and is bounded by a number of rounds;
-- `endless` and `hang` mean that these were not enough. The third loop of `resume_read` runs
-- over the fields that are left. The loop of `pump_read` is bounded by a number of turns; two
-- for each request and one more are enough. The loop of `pump_write` is given a round more
-- than there are buffers.
--
-- The digits of a number on a stream are bounded by 10, enough for 32 bits, or by 20, enough
-- for 64. The lines of a file are valid UTF-8, as string_theory demands, and what is written
-- is a list of lines. A map of the configuration is an association list, since the order of an
-- unordered map is not specified. The regular expressions are those of the C++ library,
-- written out.
--
-- Not modelled: whether a file can be written, which parts log what, and the parsing of flags.
pub mod Common
pub mod Core
pub mod Daemon
pub mod Io
pub mod Protocol
pub mod Tests
