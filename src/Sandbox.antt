-- ===== src/Sandbox.antt =====
-- temporalio/worker/workflow_sandbox/_restrictions.py
pub mod Matcher
