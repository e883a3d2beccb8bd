-- ===== src/Reconnect.antt =====
-- internal/reconnect: the monitor that brings tunnels back.
pub mod Backoff
