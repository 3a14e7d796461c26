-- ===== src/Protocol.antt =====
-- src/protocol: field descriptions, the message structures and their packed images in memory.
pub mod NetStruct
pub mod Messages
pub mod GatekeeperId
pub mod Message
pub mod Packed
pub mod Print
