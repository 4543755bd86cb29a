-- ===== src/Jobs.antt =====
-- crates/jobs/src: the queue, the scheduler, the worker pool and the handlers.
pub mod Names
pub mod Exec
pub mod Limiter
pub mod Queue
pub mod Scheduler
pub mod Metrics
pub mod Worker
pub mod Handlers
