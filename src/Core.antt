-- ===== src/Core.antt =====
-- src/core: identifiers and byte orders, texts, and the configuration.
pub mod Uuid
pub mod Text
pub mod BuildInfo
pub mod Log
pub mod Errors
pub mod Config
