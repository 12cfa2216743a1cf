-- ===== src/Libc.antt =====
-- libc/: the C library of the kernel.
pub mod Strings
pub mod Stdio
