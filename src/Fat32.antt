-- ===== src/Fat32.antt =====
-- src/recoverx/core/filesystems/fat32
pub mod BootSector
pub mod Geometry
pub mod DirEntry
pub mod FatTable
pub mod Directory
