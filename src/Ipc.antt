-- ===== src/Ipc.antt =====
-- internal/ipc: the protocol between the helper and the GUI.
pub mod Framing
