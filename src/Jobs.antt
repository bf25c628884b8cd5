-- ===== src/Jobs.antt =====
-- libs/application/src/jobs: the command side, the worker and the status summary.
pub mod Lifecycle
pub mod Service
pub mod Rows
pub mod Processor
pub mod Status
