-- ===== src/Jobs.antt =====
-- The kinds of job: coreapp/core/job.go has the normal job and the job of an unknown kind,
-- coreapp/multiprog/manual/job.go the job that combines several circuits, coreapp/sampling/job.go the sampling
-- job and coreapp/estimation/job.go the estimation of an operator. The SSE job is in `Sse.Job`.
pub mod Normal
pub mod Run
pub mod Manual
pub mod Sampling
pub mod Estimation
