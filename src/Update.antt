-- ===== src/Update.antt =====
-- internal/update: which release is offered, and what a download has to pass.
pub mod Download
pub mod Version
