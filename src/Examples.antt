-- ===== src/Examples.antt =====
-- Concrete inputs, and the theorems at them.
mod Samples
mod Jobs
mod Queues
mod Divider
mod Polling
mod Device
mod Storage
mod Reporting
mod Combined
mod Scheduling
mod Clients
mod Sse
