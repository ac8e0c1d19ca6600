-- ===== src/Fs.antt =====
-- The directory fs/: everything about files.
pub mod Pipe
pub mod Descriptors
pub mod Buffers
pub mod Bitmap
pub mod Store
pub mod Truncate
pub mod Inode
pub mod Names
pub mod Contents
pub mod Mounts
