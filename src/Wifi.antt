-- ===== src/Wifi.antt =====
-- internal/wifi: the rules that tie tunnels to networks.
pub mod Rules
