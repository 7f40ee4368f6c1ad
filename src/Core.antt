-- ===== src/Core.antt =====
-- The package core (coreapp/core): the errors, the status and data of a job, the job interface, the
-- job manager that makes jobs, and the database in memory.
pub mod Fault
pub mod Status
pub mod Mapping
pub mod Data
pub mod Device
pub mod Job
pub mod Setting
pub mod Address
pub mod Manager
pub mod MemoryDb
