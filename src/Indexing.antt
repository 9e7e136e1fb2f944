-- ===== src/Indexing.antt =====
-- The part of indexing that is modelled.
pub mod Cache
