-- ===== src/Network.antt =====
-- internal/network: what the tunnels share of the machine's network settings.
pub mod Dns
