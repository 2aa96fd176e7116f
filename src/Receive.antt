-- ===== src/Receive.antt =====
-- core/input.c: reception of one packet.
pub mod Ip
pub mod Tcp
pub mod Tree
pub mod Request
pub mod Commit
