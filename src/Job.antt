-- ===== src/Job.antt =====
-- Background jobs, rwf/src/job.
pub mod Cron
pub mod Queue
