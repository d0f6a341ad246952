-- ===== src/Mux.antt =====
-- src/muxer.rs: how the muxer cuts PSI sections and PES packets into TS packets.
pub mod Frame
pub mod Psi
pub mod Pcr
pub mod Cadence
pub mod Pes
pub mod Envelopes
mod Tests
