-- ===== src/Psi.antt =====
-- src/psi.rs: CRC, the long section header, PAT and PMT, and the section assembler.
pub mod Crc
pub mod Section
pub mod Pat
pub mod Pmt
pub mod Assembler
pub mod Iterate
mod Tests
