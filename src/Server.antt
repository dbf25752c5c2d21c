-- ===== src/Server.antt =====
-- The encryption server (Project1/submit/Prom4).
pub mod Cipher
pub mod Shift
pub mod Thread
pub mod Pool
pub mod Admission
