-- ===== src/Ipc.antt =====
-- ipc/: what the daemon and its clients say to each other.
pub mod Frame
