-- ===== src/Pool.antt =====
-- internal/pool: the storage pool.
pub mod Tables
pub mod Release
pub mod Keyring
pub mod Orphans
pub mod Disks
pub mod Stripes
pub mod Worker
pub mod Write
pub mod Cache
