-- ===== src/Send/Generator/Again.antt =====
-- A segment of a generator that is sent again: from the context that was saved before it, or from the buffer that was kept.
pub mod Backup
pub mod First
pub mod Same
pub mod Differs
pub mod Packet
