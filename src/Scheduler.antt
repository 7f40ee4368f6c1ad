-- ===== src/Scheduler.antt =====
-- The package scheduler (coreapp/scheduler): the bounded queue of jobs, and the loop that takes a job
-- from READY through pre-processing, the queue, processing and post-processing.
pub mod Queue
pub mod Handle
