-- ===== src/Tests.antt =====
-- Concrete inputs, runs of the definitions on them, and instances of the theorems.
mod Config
mod Data
mod History
mod Manager
mod Network
mod Ovpn
mod PacketFilter
mod Policy
mod Protocols
mod Storage
mod Update
