-- ===== src/Config.antt =====
-- internal/config: reading, writing and checking WireGuard configuration files.
pub mod Fields
pub mod Parser
pub mod Serializer
pub mod Validator
