-- ===== src/Pes.antt =====
-- src/pes.rs: the PES header, its fields, its extension, and the writer.
pub mod Timestamp
pub mod TrickMode
pub mod Fields
pub mod Extension
pub mod Header
pub mod Encode
pub mod Reassembler
pub mod Safety
mod Tests
