-- ===== src/Daemon.antt =====
-- src/daemon: the connections and the protocol of the gatekeeper.
pub mod Client
pub mod Gatekeeper
pub mod Handshake
pub mod Pump
pub mod Server
pub mod Main
