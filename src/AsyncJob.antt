-- ===== src/AsyncJob.antt =====
-- mcp/ground-control/lib/async-job-registry.js
pub mod Handle
pub mod Job
pub mod Options
pub mod Registry
pub mod Settling
pub mod Shown
pub mod Evolution
pub mod Lifecycle
pub mod Capacity
pub mod Exclusion
pub mod Attempts
pub mod Polling
pub mod Waiting
pub mod Examples
