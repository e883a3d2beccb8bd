-- ===== src/Ovpn.antt =====
-- internal/ovpn: reading, checking and summarising OpenVPN profiles.
pub mod Line
pub mod Management
pub mod Source
pub mod Allowlist
pub mod Remotes
pub mod Dns
pub mod Push
pub mod Profile
pub mod Command
