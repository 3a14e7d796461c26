-- ===== src/Io.antt =====
-- src/io: the streams of a client, its socket, and the dispatcher.
pub mod Fields
pub mod Cipher
pub mod Crypto
pub mod Socket
pub mod Poll
pub mod ClientBase
pub mod Write
pub mod Read
