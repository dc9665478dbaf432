-- ===== src/Instance.antt =====
-- temporalio/worker/_workflow_instance.py: the instance of a workflow that the worker activates.
pub mod State
pub mod Guards
pub mod Patch
pub mod Timers
pub mod Tasks
pub mod Handlers
pub mod Signals
pub mod Outcome
pub mod Resolve
pub mod Updates
pub mod Queries
pub mod Jobs
pub mod EventLoop
pub mod Activate
