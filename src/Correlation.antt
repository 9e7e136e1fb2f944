-- ===== src/Correlation.antt =====
-- src/recoverx/core/correlation: events that belong together.
pub mod Graph
