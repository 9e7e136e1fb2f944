-- ===== src/Ntfs.antt =====
-- src/recoverx/core/filesystems/ntfs
pub mod BootSector
pub mod Attributes
pub mod Runlist
pub mod Mft
pub mod Recovery
pub mod Usn
