-- ===== src/Firewall.antt =====
-- internal/firewall: the pf rules, and the driver that loads them.
pub mod Rules
pub mod Driver
