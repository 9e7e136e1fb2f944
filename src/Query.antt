-- ===== src/Query.antt =====
-- src/recoverx/core/query: the forensic query language and its translation to SQL.
pub mod Ast
pub mod Operators
pub mod Filters
pub mod Parser
