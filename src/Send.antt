-- ===== src/Send.antt =====
-- core/output.c: sending one packet.
pub mod Packet
pub mod Segment
pub mod Room
pub mod Select
pub mod Generate
pub mod Verify
pub mod Generator
pub mod Samples
