-- ===== src/Sfs.antt =====
-- The simple file system, kern/fs/sfs.
pub mod Bitmap
