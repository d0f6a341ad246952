-- ===== src/Packet.antt =====
-- src/packet.rs: the 188-byte transport packet, its adaptation field in both directions, the
-- physical framings and the packet iterator.
pub mod Extension
pub mod Field
pub mod Header
pub mod Stream
pub mod Layout
pub mod Encode
mod Tests
