-- ===== src/Distributed.antt =====
-- src/recoverx/core/distributed: tasks, their queue and the scheduler.
pub mod Models
pub mod Queue
pub mod Scheduler
