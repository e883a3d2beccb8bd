-- ===== src/Tunnel.antt =====
-- internal/tunnel: the lifecycle of WireGuard tunnels.
pub mod Uapi
pub mod Types
pub mod Recovery
pub mod Phases
pub mod Manager
pub mod Interleaving
