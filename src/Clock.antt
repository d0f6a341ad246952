-- ===== src/Clock.antt =====
-- src/clock.rs: what a decoder reads from the clocks of a stream.
pub mod Pcr
pub mod Recovery
pub mod Continuity
pub mod Timestamps
mod Tests
