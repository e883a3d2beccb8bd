-- ===== src/Helper.antt =====
-- internal/helper: the privileged helper's firewall policy and the handlers that drive it.
pub mod State
pub mod Endpoints
pub mod Live
pub mod Derive
pub mod Holds
pub mod Handlers
