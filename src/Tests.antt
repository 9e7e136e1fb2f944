-- ===== src/Tests.antt =====
-- The theorems at concrete inputs.
mod Runlist
mod Fat32
mod Query
mod Distributed
mod Carving
mod Indexing
mod Attributes
mod DirEntry
mod Records
mod Journal
mod Deleted
mod Parsing
