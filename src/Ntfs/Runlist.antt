-- ===== src/Ntfs/Runlist.antt =====
-- src/recoverx/core/filesystems/ntfs/runlists: from the runs of a non-resident attribute to the
-- bytes of the file.
pub mod Mapping
pub mod Translation
pub mod Executor
pub mod Reading
pub mod Validation
pub mod WellFormed
pub mod Resolved
pub mod Estimate
pub mod Chunked
