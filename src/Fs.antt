-- ===== src/Fs.antt =====
-- fs/: the filesystem.
pub mod Fat16
