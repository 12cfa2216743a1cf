-- ===== src/Drivers.antt =====
-- drivers/: the device drivers.
pub mod Vga
pub mod Keyboard
pub mod Timer
pub mod Ata
