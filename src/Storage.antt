-- ===== src/Storage.antt =====
-- internal/storage: the names of tunnels, and their files.
pub mod Name
pub mod Files
pub mod Tunnels
pub mod Listing
pub mod Migration
