-- ===== src/Libc.antt =====
-- What the code uses of the C library on texts.
pub mod Print
pub mod Scan
pub mod Lines
