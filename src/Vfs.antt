-- ===== src/Vfs.antt =====
-- internal/vfs: the file system that the protocol servers share.
pub mod Handle
pub mod Retention
pub mod Path
pub mod Purge
pub mod Crypto
pub mod Tree
pub mod Root
